-- ===== src/Retention/Heaps.antt =====
-- extensions/lifecycle/tasks/LifecycleTask.js: the heaps by bucket, key and rule.
use backbeat.Base.{
  ℕ, ◌<◌, ◌≡◌, ◌∙◌, refl, inl, inr, true, ◌&&◌, String, none, some, List, [], ◌∷◌, arith,
  if◌then◌else◌, contains, ◌==◌, nat_eq, string_eq, Option-cases, Bool-cases, ap,
}
use backbeat.Base.Assoc.{Assoc, get, put, remove, get-put, get-remove}
use backbeat.Retention.Keeps.{stream, with_expired}
use backbeat.Retention.{
  Version, MinHeap, heap_add, Heaps, NcvExpiration, or_empty, heap_of, set_heap, ncv_heap_add,
  remove_all, ncv_heap_objects_clear, ncv_heap_bucket_clear,
}

get-remove_all :
    {A : Type 0}
    → (m : Assoc String A) (ks : List String) (k : String)
    → get (remove_all m ks) k ≡ (if contains ks k then none else get m k)
unfolding remove_all contains
get-remove_all m [] k = refl
get-remove_all m (x ∷ ks) k = ground (
  arith,
  get-remove_all (remove m x) ks k,
  get-remove m x k,
  string_eq.beq_iff x k,
  string_eq.beq_iff k x,
)

module _ {H : Type 0} (heap : MinHeap H) (heaps : Heaps H) (bucket : String) where
  heap_of-set_heap :
      (key rule_id : String) (h : H) (n : ℕ) (b k r : String)
      → heap_of heap (set_heap heap heaps bucket key rule_id h) n b k r ≡ (
          if (bucket == b) && ((key == k) && (rule_id == r)) then h else heap_of heap heaps n b k r)
  unfolding heap_of set_heap or_empty
  heap_of-set_heap key rule_id h n b k r =
      let objects = or_empty (get heaps bucket) in
      let object = or_empty (get objects key) in
      ground (
        arith,
        get-put heaps bucket b (put objects key (put object rule_id h)),
        get-put objects key k (put object rule_id h),
        get-put object rule_id r h,
        string_eq.beq_iff bucket b,
        string_eq.beq_iff key k,
        string_eq.beq_iff rule_id r,
      )

  -- What a call of `_ncvHeapAdd` for a rule with a number of versions does to each heap.
  pub heap_of-ncv_heap_add :
      (id : String) (size : ℕ) (v : Version) (n : ℕ) (b k r : String)
      → 0 < size
      → let rule : NcvExpiration = record { id = id; newer_noncurrent_versions = some size } in
        heap_of heap (ncv_heap_add heap heaps bucket (some rule) v).0 n b k r ≡ (
          if (bucket == b) && ((v.key == k) && (id == r))
          then (heap_add heap size (heap_of heap heaps size bucket v.key id) v).0
          else heap_of heap heaps n b k r)
  unfolding ncv_heap_add
  heap_of-ncv_heap_add id size v n b k r pos = elim (Bool-cases (size == 0)) [
    | inl e ↦ absurd (ground (arith, e))
    | inr e ↦
        rw (e, ncv_heap_add)
          (heap_of-set_heap v.key id
            (heap_add heap size (heap_of heap heaps size bucket v.key id) v).0 n b k r)
  ]

  pub expired-ncv_heap_add :
      (id : String) (size : ℕ) (v : Version)
      → 0 < size
      → let rule : NcvExpiration = record { id = id; newer_noncurrent_versions = some size } in
        (ncv_heap_add heap heaps bucket (some rule) v).1
        ≡ (heap_add heap size (heap_of heap heaps size bucket v.key id) v).1
  unfolding ncv_heap_add
  expired-ncv_heap_add id size v pos = elim (Bool-cases (size == 0)) [
    | inl e ↦ absurd (ground (arith, e))
    | inr e ↦ rw (e, ncv_heap_add) refl
  ]

  -- Clearing a bucket forgets all its heaps, and clearing objects of it theirs; other heaps stay.
  pub heap_of-clear :
      (keys : List String) (n : ℕ) (b k r : String)
      → (heap_of heap (ncv_heap_bucket_clear heaps bucket) n b k r
          ≡ (if bucket == b then heap.create n else heap_of heap heaps n b k r))
        × (heap_of heap (ncv_heap_objects_clear heaps bucket keys) n b k r ≡ (
            if (bucket == b) && contains keys k then heap.create n else heap_of heap heaps n b k r))
  unfolding heap_of ncv_heap_bucket_clear ncv_heap_objects_clear or_empty get
  heap_of-clear keys n b k r = (
    ground (arith, get-remove heaps bucket b),
    elim (Option-cases (get heaps bucket)) [
      | inl e ↦ rw (e, ncv_heap_objects_clear) (ground (arith, e, string_eq.beq_iff bucket b))
      | inr (objects, e) ↦
          rw (e, ncv_heap_objects_clear)
            (ground (
              arith,
              e,
              get-put heaps bucket b (remove_all objects keys),
              get-remove_all objects keys k,
              string_eq.beq_iff bucket b,
            ))
    ],
  )

-- Calls of `_ncvHeapAdd` for buckets, rules and versions, while the number of each rule stays as it is.
pub record Call : Type 0 where
  pub bucket : String
  pub rule_id : String
  pub version : Version

abbrev pub versions_of : String → String → String → List Call → List Version
versions_of b k r [] = []
versions_of b k r (c ∷ cs) =
    let rest = versions_of b k r cs in
    if (c.bucket == b) && ((c.version.key == k) && (c.rule_id == r)) then c.version ∷ rest else rest

module _ {H : Type 0} (heap : MinHeap H) (sizes : String → String → ℕ) where
  abbrev pub after_call : Heaps H → Call → Heaps H
  after_call heaps c =
      (ncv_heap_add heap heaps c.bucket
        (some
          (record { id = c.rule_id; newer_noncurrent_versions = some (sizes c.bucket c.rule_id) }))
        c.version).0

  abbrev pub adds : Heaps H → List Call → Heaps H
  adds heaps [] = heaps
  adds heaps (c ∷ cs) = adds (after_call heaps c) cs

  heap_of-same :
      (heaps : Heaps H) (c : Call) (b k r : String)
      → ((c.bucket == b) && ((c.version.key == k) && (c.rule_id == r))) ≡ true
      → (heap_add heap
          (sizes c.bucket c.rule_id)
          (heap_of heap heaps (sizes c.bucket c.rule_id) c.bucket c.version.key c.rule_id)
          c.version).0
        ≡ (heap_add heap (sizes b r) (heap_of heap heaps (sizes b r) b k r) c.version).0
  heap_of-same heaps c b k r e =
      let bs : c.bucket ≡ b = ground (arith, e, string_eq.beq_iff c.bucket b) in
      let ks : c.version.key ≡ k = ground (arith, e, string_eq.beq_iff c.version.key k) in
      let rs : c.rule_id ≡ r = ground (arith, e, string_eq.beq_iff c.rule_id r) in
      λ i.
        (heap_add heap (sizes (bs i) (rs i))
          (heap_of heap heaps (sizes (bs i) (rs i)) (bs i) (ks i) (rs i)) c.version).0

  -- Each object and rule is on its own: whatever calls are made for versions of any objects and rules,
  -- all with numbers that are not 0, the heap of one object and rule is that of the stream of its
  -- versions alone.
  pub heap_of-adds :
      (heaps : Heaps H) (cs : List Call) (gone : List Version) (b k r : String)
      → ((b' r' : String) → 0 < sizes b' r')
      → heap_of heap (adds heaps cs) (sizes b r) b k r
        ≡ (stream heap
            (sizes b r)
            (heap_of heap heaps (sizes b r) b k r)
            gone
            (versions_of b k r cs)).0
  unfolding stream
  heap_of-adds heaps [] gone b k r pos = refl
  heap_of-adds heaps (c ∷ cs) gone b k r pos =
      let now =
        heap_of-ncv_heap_add heap heaps c.bucket c.rule_id (sizes c.bucket c.rule_id) c.version
          (sizes b r) b k r (pos c.bucket c.rule_id) in
      let next =
        with_expired heap (sizes b r)
          (heap_add heap (sizes b r) (heap_of heap heaps (sizes b r) b k r) c.version).1 gone in
      elim (Bool-cases ((c.bucket == b) && ((c.version.key == k) && (c.rule_id == r)))) [
        | inl e ↦ rw e (
            heap_of-adds (after_call heaps c) cs next b k r pos
            ∙ ap (λ h. (stream heap (sizes b r) h next (versions_of b k r cs)).0)
                (now ∙ rw e (heap_of-same heaps c b k r e)))
        | inr e ↦ rw e (
            heap_of-adds (after_call heaps c) cs gone b k r pos
            ∙ ap (λ h. (stream heap (sizes b r) h gone (versions_of b k r cs)).0) (now ∙ rw e refl))
      ]
