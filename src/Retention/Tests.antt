-- ===== src/Retention/Tests.antt =====
-- A heap that is a list, two versions to keep, and the theorems at them.
use backbeat.Base.{
  ℕ, ◌≤◌, ◌<◌, ◌≡◌, refl, inl, inr, subst, String, Option, none, some, List, [], ◌∷◌, arith, ltb,
  if◌then◌else◌, length, All, Bool-cases, string_eq,
}
use mathlib.Core.Option.{some-injective}
use backbeat.Base.Permutation.{Permutation, skip, flip, chain, same}
use backbeat.Retention.{Version, MinHeap, heap_add, noncurrent_version_compare}
use backbeat.Retention.Keeps.{stream, with_expired}
use backbeat.Retention.Heaps.{Call}

pub record Bag : Type 0 where
  pub limit : ℕ
  pub versions : List Version

-- The least version, and the rest.
select : Version → List Version → Version × List Version
select x [] = (x, [])
select x (y ∷ ys) =
    let with_y = select y ys in
    let with_x = select x ys in
    if ltb y.stale_date x.stale_date then (with_y.0, x ∷ with_y.1) else (with_x.0, y ∷ with_x.1)

select-Permutation :
    (x : Version) (ys : List Version) → Permutation (x ∷ ys) ((select x ys).0 ∷ (select x ys).1)
unfolding select
select-Permutation x [] = same (x ∷ [])
select-Permutation x (y ∷ ys) = elim (Bool-cases (ltb y.stale_date x.stale_date)) [
  | inl e ↦
      rw (e, select)
        (chain (skip x (select-Permutation y ys)) (flip x (select y ys).0 (select y ys).1))
  | inr e ↦
      rw (e, select)
        (chain (flip x y ys)
          (chain (skip y (select-Permutation x ys)) (flip y (select x ys).0 (select x ys).1)))
]

select-least :
    (x : Version) (ys : List Version)
    → All (λ v. (select x ys).0.stale_date ≤ v.stale_date) (x ∷ ys)
unfolding select
select-least x [] = (omega arith, tt)
select-least x (y ∷ ys) = elim (Bool-cases (ltb y.stale_date x.stale_date)) [
  | inl e ↦
      let h = select-least y ys in
      subst (λ m. All (λ v. m.stale_date ≤ v.stale_date) (x ∷ y ∷ ys)) {x = (select y ys).0}
        {y = (select x (y ∷ ys)).0} (rw (e, select) refl) (ground (arith, e, h.0), h)
  | inr e ↦
      let h = select-least x ys in
      subst (λ m. All (λ v. m.stale_date ≤ v.stale_date) (x ∷ y ∷ ys)) {x = (select x ys).0}
        {y = (select x (y ∷ ys)).0} (rw (e, select) refl) (h.0, (ground (arith, e, h.0), h.1))
]

pub bag_peek : List Version → Option Version
unfolding select
bag_peek [] = none
bag_peek (x ∷ xs) = some (select x xs).0

pub bag_rest : List Version → List Version
unfolding select
bag_rest [] = []
bag_rest (x ∷ xs) = (select x xs).1

pub bag_peek-some : (xs : List Version) → 0 < length xs → (top : Version) × (bag_peek xs ≡ some top)
unfolding bag_peek
bag_peek-some [] h = absurd (omega arith)
bag_peek-some (x ∷ xs) h = ((select x xs).0, refl)

pub bag_rest-Permutation :
    (xs : List Version) (top : Version)
    → bag_peek xs ≡ some top
    → Permutation xs (top ∷ bag_rest xs)
unfolding bag_peek bag_rest
bag_rest-Permutation [] top h = absurd (ground (arith, h))
bag_rest-Permutation (x ∷ xs) top h =
    subst (λ t. Permutation (x ∷ xs) (t ∷ (select x xs).1)) (some-injective _ _ h)
      (select-Permutation x xs)

pub bag_peek-least :
    (xs : List Version) (top : Version)
    → bag_peek xs ≡ some top
    → All (λ v. top.stale_date ≤ v.stale_date) xs
unfolding bag_peek
bag_peek-least [] top h = tt
bag_peek-least (x ∷ xs) top h =
    subst (λ t. All (λ v. t.stale_date ≤ v.stale_date) (x ∷ xs)) (some-injective _ _ h)
      (select-least x xs)

abbrev pub bags : MinHeap Bag
bags = record {
  create = λ n. record { limit = n; versions = [] };
  size = λ h. length h.versions;
  peek = λ h. bag_peek h.versions;
  add = λ h v. record h { versions = v ∷ h.versions };
  remove = λ h. record h { versions = bag_rest h.versions };
  capacity = λ h. h.limit;
  items = λ h. h.versions;
  items-create = λ n. refl;
  size-items = λ h. refl;
  capacity-create = λ n. refl;
  capacity-add = λ h v. refl;
  capacity-remove = λ h. refl;
  items-add = λ h v room. same (v ∷ h.versions);
  peek-size = λ h pos. bag_peek-some h.versions pos;
  items-remove = λ h top at. bag_rest-Permutation h.versions top at;
  peek-least = λ h top at. bag_peek-least h.versions top at;
}

abbrev version : String → ℕ → Version
version id date = record { key = "k"; version_id = id; stale_date = date; storage_class = "" }

abbrev came : List Version
came = version "a" 3 ∷ version "b" 9 ∷ version "c" 1 ∷ version "d" 5 ∷ []

-- The oldest two expire: the third that comes, and then the first.
expired_of_came : (stream bags 2 (bags.create 2) [] came).1 ≡ version "a" 3 ∷ version "c" 1 ∷ []
unfolding stream with_expired heap_add noncurrent_version_compare bag_peek bag_rest select
expired_of_came = refl

abbrev call : String → Version → Call
call bucket v = record { bucket = bucket; rule_id = "r"; version = v }

abbrev sizes : String → String → ℕ
sizes bucket id = 2

abbrev mixed : List Call
mixed = call "x" (version "a" 3) ∷ call "y" (version "z" 4) ∷ call "x" (version "b" 9) ∷ []
