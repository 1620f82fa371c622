-- ===== src/Expiry/Compare/Safety.antt =====
-- Which entries LifecycleTask.js sends for the latest version of an object: what they name.
use backbeat.Base.{
  ◌≡◌, ◌⊎◌, refl, inl, inr, true, false, not, Option, none, some, List, [], ◌∷◌, arith,
  if◌then◌else◌, Bool-cases, All, filter_by, ◌&&◌, ◌==◌, string_eq, String,
}
use backbeat.Retention.{MinHeap, Heaps}
use backbeat.Expiry.{
  Rules, Expiration, Transition, Entity, Target, DeleteObject, LifecycleDateTime, is_delete_marker,
  eodm_with, is_empty, noncurrent_of, check_and_apply_expiration_rule,
}
use backbeat.Expiry.Compare.Cases.{latest_version, latest_marker, latest_object}
use backbeat.Expiry.Compare.{
  Outcome, nothing, deletes, or_else, compare_version, expiration_of, transition_of, compare_marker,
  is_last, compare_current,
}

-- The versions that the task looks at for a delete marker, if it gets them.
abbrev pub looked_at : Entity → List Entity → Option (List Entity) → List Entity
looked_at v versions found =
    if is_last v versions then (elim found [ none ↦ [] | some all ↦ all ]) else versions

-- An entry for the key of an object, that names no version of it. What the request does then is up to
-- the versioning of the bucket: where it is suspended, the null version goes.
abbrev pub NamesNoVersion : Entity → DeleteObject → Type 0
NamesNoVersion v a = (is_delete_marker v ≡ false) × (a.version ≡ none) × (a.key ≡ v.key)

-- An entry that names a delete marker which hides no other version.
abbrev pub NamesMarker : Entity → List Entity → DeleteObject → Type 0
NamesMarker v versions a =
    (is_delete_marker v ≡ true)
    × (a.version ≡ some v.version_id)
    × (a.key ≡ v.key)
    × All (λ u. u.key ≡ v.key → u.is_latest ≡ true) versions

abbrev pub IsSafe : Entity → List Entity → Outcome → Type 0
IsSafe v versions (deletes a) = NamesNoVersion v a ⊎ NamesMarker v versions a
IsSafe v versions _ = Unit

empty_of : {A : Type 0} → (xs : List A) → is_empty xs ≡ true → xs ≡ []
unfolding is_empty
empty_of [] h = refl
empty_of (x ∷ xs) h = absurd (ground (arith, h))

none_of_key :
    (key : String) (versions : List Entity)
    → noncurrent_of key versions ≡ []
    → All (λ u. u.key ≡ key → u.is_latest ≡ true) versions
unfolding noncurrent_of filter_by
none_of_key key [] h = tt
none_of_key key (u ∷ versions) h = elim (Bool-cases (u.key == key && not u.is_latest)) [
  | inl e ↦ absurd (ground (arith, rw (e, filter_by) at h))
  | inr e ↦ (
    λ same. ground (arith, e, (string_eq.beq_iff u.key key).1 same),
    none_of_key key versions (ground (arith, h, e)),
  )
]

module _ (clock : LifecycleDateTime) (target : Target) where
  expiration-adds :
      (v : Entity) (rule : Option Expiration) (a : DeleteObject)
      → expiration_of clock target v rule ≡ some a
      → (a.version ≡ none) × (a.key ≡ v.key)
  unfolding expiration_of check_and_apply_expiration_rule
  expiration-adds v none a h = absurd (ground (arith, h))
  expiration-adds v (some rule) a h = ground (arith, h)

  eodm-removes :
      (v : Entity) (versions : List Entity) (rule : Option Expiration) (a : DeleteObject)
      → is_delete_marker v ≡ true
      → eodm_with clock target v versions rule ≡ some a
      → NamesMarker v versions a
  unfolding eodm_with
  eodm-removes v versions none a m h = absurd (ground (arith, h))
  eodm-removes v versions (some rule) a m h =
      elim (Bool-cases (is_empty (noncurrent_of v.key versions))) [
        | inr e ↦ absurd (ground (arith, rw (e, eodm_with) at h))
        | inl e ↦ (
          m,
          ground (arith, h, e),
          ground (arith, h, e),
          none_of_key v.key versions (empty_of _ e),
        )
      ]

  or_else-IsSafe :
      (v : Entity) (versions : List Entity) (action : Option DeleteObject) (rest : Outcome)
      → ((a : DeleteObject) → action ≡ some a → IsSafe v versions (deletes a))
      → IsSafe v versions rest
      → IsSafe v versions (or_else action rest)
  unfolding or_else
  or_else-IsSafe v versions none rest h k = k
  or_else-IsSafe v versions (some a) rest h k = h a refl

  transition-IsSafe :
      (v obj : Entity) (versions : List Entity) (rule : Option Transition)
      → IsSafe v versions (transition_of clock target obj rule)
  unfolding transition_of
  transition-IsSafe v obj versions none = tt
  transition-IsSafe v obj versions (some rule) = tt

  marker_outcome :
      (v : Entity) (versions : List Entity) (rules : Rules)
      → is_delete_marker v ≡ true
      → IsSafe v versions (or_else (eodm_with clock target v versions rules.expiration) nothing)
  marker_outcome v versions rules m =
      or_else-IsSafe v versions _ nothing
        (λ a e. inr (eodm-removes v versions rules.expiration a m e)) tt

  marker-IsSafe :
      (v : Entity) (versions : List Entity) (rules : Rules) (found : Option (List Entity))
      → is_delete_marker v ≡ true
      → IsSafe v (looked_at v versions found) (compare_marker clock target v versions rules found)
  unfolding compare_marker
  marker-IsSafe v versions rules none m = elim (Bool-cases (is_last v versions)) [
    | inl e ↦ rw (e, compare_marker) tt
    | inr e ↦ rw (e, compare_marker) (marker_outcome v versions rules m)
  ]
  marker-IsSafe v versions rules (some all) m = elim (Bool-cases (is_last v versions)) [
    | inl e ↦ rw (e, compare_marker) (marker_outcome v all rules m)
    | inr e ↦ rw (e, compare_marker) (marker_outcome v versions rules m)
  ]

  current-IsSafe :
      (v : Entity) (versions : List Entity) (rules : Rules)
      → is_delete_marker v ≡ false
      → IsSafe v versions (compare_current clock target v rules)
  unfolding compare_current
  current-IsSafe v versions rules m =
      or_else-IsSafe v versions _ _
        (λ a e. let (all, same) = expiration-adds v rules.expiration a e in inl (m, all, same))
        (transition-IsSafe v v versions rules.transition)

  -- Whatever the rules, an entry that LifecycleTask.js sends for the latest version of an object has its
  -- key, and it names no version, if this version is no delete marker. If it is one, the entry names this
  -- version, and among the versions that the task looks at is none with its key but the latest.
  pub latest-IsSafe :
      {H : Type 0}
      → (heap : MinHeap H) (heaps : Heaps H) (v : Entity) (versions : List Entity) (rules : Rules)
        (found : Option (List Entity))
      → v.is_latest ≡ true
      → IsSafe v
          (looked_at v versions found)
          (compare_version heap clock target heaps v versions rules found).1
  latest-IsSafe heap heaps v versions rules found latest =
      rw (latest_version heap clock target heaps v versions rules found latest)
        (elim (Bool-cases (is_delete_marker v)) [
          | inl m ↦
              rw (latest_marker clock target v versions rules found m)
                (marker-IsSafe v versions rules found m)
          | inr m ↦
              rw (latest_object clock target v versions rules found m)
                (current-IsSafe v (looked_at v versions found) rules m)
        ])
