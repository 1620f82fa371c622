-- ===== src/Retention.antt =====
-- extensions/lifecycle/tasks/LifecycleTask.js: the heaps that keep the newest noncurrent versions of an
-- object, for rules with `NewerNoncurrentVersions`. `MinHeap` of arsenal is third-party code.
pub mod Keeps
pub mod Heaps
pub mod Tests
use backbeat.Base.{
  ℕ, ◌+◌, ◌≤◌, ◌<◌, ◌≡◌, Bool, true, false, String, Option, none, some, List, [], ◌∷◌, ltb,
  if◌then◌else◌, length, All, string_eq, nat_eq, ◌==◌,
}
use backbeat.Base.Permutation.{Permutation}
use backbeat.Base.Assoc.{Assoc, get, put, remove}

pub record Version : Type 0 where
  pub key : String
  pub version_id : String
  pub stale_date : ℕ
  pub storage_class : String

pub data CompareResult : Type 0 where
  lt eq gt : CompareResult

unfoldable pub noncurrent_version_compare : Version → Version → CompareResult
noncurrent_version_compare v w =
    if ltb v.stale_date w.stale_date then lt else if ltb w.stale_date v.stale_date then gt else eq

-- What the task relies on of a `MinHeap` that compares by `noncurrentVersionCompare`: while there is room
-- `add` adds one element, and `remove` takes out the element that `peek` shows, which is a least one.
pub record MinHeap (H : Type 0) : Type 0 where
  pub create : ℕ → H
  pub size : H → ℕ
  pub peek : H → Option Version
  pub add : H → Version → H
  pub remove : H → H
  pub capacity : H → ℕ
  pub items : H → List Version
  pub items-create : (n : ℕ) → items (create n) ≡ []
  pub size-items : (h : H) → size h ≡ length (items h)
  pub capacity-create : (n : ℕ) → capacity (create n) ≡ n
  pub capacity-add : (h : H) (v : Version) → capacity (add h v) ≡ capacity h
  pub capacity-remove : (h : H) → capacity (remove h) ≡ capacity h
  pub items-add :
      (h : H) (v : Version) → size h < capacity h → Permutation (items (add h v)) (v ∷ items h)
  pub peek-size : (h : H) → 0 < size h → (top : Version) × (peek h ≡ some top)
  pub items-remove :
      (h : H) (top : Version) → peek h ≡ some top → Permutation (items h) (top ∷ items (remove h))
  pub peek-least :
      (h : H) (top : Version)
      → peek h ≡ some top
      → All (λ v. top.stale_date ≤ v.stale_date) (items h)

module _ {H : Type 0} (heap : MinHeap H) where
  -- The part of `_ncvHeapAdd` that works on one heap: the heap afterwards, and the version to expire. The
  -- heap is not empty when it is full.
  unfoldable pub heap_add : ℕ → H → Version → H × Option Version
  unfolding noncurrent_version_compare
  heap_add ncv_size h version =
      if ltb (heap.size h) ncv_size then (heap.add h version, none) else elim (heap.peek h) [
        | none ↦ (heap.add (heap.remove h) version, none)
        | some top ↦ elim (noncurrent_version_compare version top) [
          | lt ↦ (h, some version)
          | _ ↦ (heap.add (heap.remove h) version, some top)
        ]
      ]

-- `ncvHeap`: heaps by bucket, key and rule.
abbrev pub Heaps : Type 0 → Type 0
Heaps H = Assoc String (Assoc String (Assoc String H))

-- `NoncurrentVersionExpiration` of the rules that apply to a version.
pub record NcvExpiration : Type 0 where
  pub id : String
  pub newer_noncurrent_versions : Option ℕ

or_empty : {A : Type 0} → Option (Assoc String A) → Assoc String A
or_empty none = []
or_empty (some m) = m

module _ {H : Type 0} (heap : MinHeap H) where
  -- The heap of a rule, new if it is missing.
  unfoldable pub heap_of : Heaps H → ℕ → String → String → String → H
  unfolding or_empty
  heap_of heaps ncv_size bucket key rule_id =
      elim (get (or_empty (get (or_empty (get heaps bucket)) key)) rule_id) [
        | none ↦ heap.create ncv_size
        | some h ↦ h
      ]

  unfoldable pub set_heap : Heaps H → String → String → String → H → Heaps H
  unfolding or_empty
  set_heap heaps bucket key rule_id h =
      let objects = or_empty (get heaps bucket) in
      let object = or_empty (get objects key) in
      put heaps bucket (put objects key (put object rule_id h))

  -- `_ncvHeapAdd`; a number of versions that is 0 counts as missing.
  unfoldable pub ncv_heap_add :
      Heaps H → String → Option NcvExpiration → Version → Heaps H × Option Version
  unfolding heap_add heap_of set_heap
  ncv_heap_add heaps bucket none version = (heaps, none)
  ncv_heap_add heaps bucket (some rule) version = elim rule.newer_noncurrent_versions [
    | none ↦ (heaps, none)
    | some n ↦
        if n == 0
        then (heaps, none)
        else (let (h, expired) =
              heap_add heap n (heap_of heaps n bucket version.key rule.id) version in
            (set_heap heaps bucket version.key rule.id h, expired))
  ]

-- `_ncvHeapObjectsClear` and `_ncvHeapBucketClear`
remove_all : {A : Type 0} → Assoc String A → List String → Assoc String A
remove_all m [] = m
remove_all m (k ∷ ks) = remove_all (remove m k) ks

unfoldable pub ncv_heap_objects_clear : {H : Type 0} → Heaps H → String → List String → Heaps H
unfolding remove_all
ncv_heap_objects_clear heaps bucket keys = elim (get heaps bucket) [
  | none ↦ heaps
  | some objects ↦ put heaps bucket (remove_all objects keys)
]

unfoldable pub ncv_heap_bucket_clear : {H : Type 0} → Heaps H → String → Heaps H
ncv_heap_bucket_clear heaps bucket = remove heaps bucket
