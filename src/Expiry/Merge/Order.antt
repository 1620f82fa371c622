-- ===== src/Expiry/Merge/Order.antt =====
-- The order of the merged list of extensions/lifecycle/tasks/LifecycleTask.js, and the dates in it.
use backbeat.Base.{
  ℕ, zero, suc, ◌≤◌, ◌≡◌, ◌∙◌, inl, inr, refl, sym, subst, ap, ap₂, All-get, Bool, true, false, not,
  ◌||◌, String, Option, none, some, List, [], ◌∷◌, ◌++◌, arith, ltb, if◌then◌else◌, ◌==◌, string_eq,
  All, All-map, All-append, Bool-cases, get_elem?,
}
use mathlib.Core.Option
use mathlib.Core.Option.{some-injective}
use mathlib.Core.List.{append-nil}
use backbeat.Base.TextOrder.{text_lt, text_lt-total, text_lt_trans, text_lt_irrefl}
use backbeat.Base.Permutation.{Permutation, same, back, chain, skip, All-Permutation, to_front}
use backbeat.Expiry.{Entity}
use backbeat.Expiry.Merge.{
  decode_vid, by_version_id, version_first, merge_sorted, BucketDetails, stale_date_of,
  add_stale_dates_after, add_stale_date_to_versions,
}

-- By key, and the newest first.
abbrev pub IsBefore : Entity → Entity → Type 0
IsBefore a b = (text_lt b.key a.key ≡ false) × (a.key ≡ b.key → b.last_modified ≤ a.last_modified)

abbrev pub IsSorted : List Entity → Type 0
IsSorted [] = Unit
IsSorted (e ∷ es) = All (IsBefore e) es × IsSorted es

-- Not less is transitive.
not_less_trans : (s t u : String) → text_lt t s ≡ false → text_lt u t ≡ false → text_lt u s ≡ false
not_less_trans s t u h k = elim (Bool-cases (text_lt u s)) [
  | inr e ↦ e
  | inl less ↦ elim (text_lt-total t s h) [
    | inl same ↦ absurd (ground (arith, k, less, same))
    | inr more ↦ absurd (ground (arith, k, text_lt_trans u s t, less, more))
  ]
]

text_lt-asym : (s t : String) → text_lt s t ≡ true → text_lt t s ≡ false
text_lt-asym s t h = elim (Bool-cases (text_lt t s)) [
  | inr e ↦ e
  | inl more ↦ absurd (ground (arith, text_lt_trans s t s, text_lt_irrefl s, h, more))
]

text_lt-same : (s t : String) → s ≡ t → text_lt s t ≡ false
text_lt-same s t e = subst (λ u. text_lt s u ≡ false) e (text_lt_irrefl s)

same_of_not_less : (s t : String) → text_lt t s ≡ false → text_lt s t ≡ false → s ≡ t
same_of_not_less s t h k = elim (text_lt-total s t k) [
  | inl e ↦ e
  | inr more ↦ absurd (ground (arith, h, more))
]

IsBefore-trans : (a b c : Entity) → IsBefore a b → IsBefore b c → IsBefore a c
IsBefore-trans a b c h k = (
  not_less_trans a.key b.key c.key h.0 k.0,
  λ same.
      let ab : a.key ≡ b.key =
        same_of_not_less a.key b.key h.0 (subst (λ s. text_lt s b.key ≡ false) (sym same) k.0) in
      omega (arith, h.1 ab, k.1 (sym ab ∙ same)),
)

decided_if :
    (c : Bool)
    → {x y : Option Bool} → (b : Bool) × (x ≡ some b)
    → (b : Bool) × (y ≡ some b)
    → (b : Bool) × ((if c then x else y) ≡ some b)
decided_if true h k = h
decided_if false h k = k

module _ (decode : String → Option String) where
  first-IsBefore :
      (v d : Entity)
      → (version_first decode v d ≡ some true → IsBefore v d)
        × (version_first decode v d ≡ some false → IsBefore d v)
  unfolding version_first
  first-IsBefore v d = elim (Bool-cases (v.key == d.key)) [
    | inr differ ↦ elim (Bool-cases (text_lt v.key d.key)) [
      | inl less ↦ (
        λ _. (
          text_lt-asym _ _ less,
          λ e. absurd (ground (arith, differ, (string_eq.beq_iff v.key d.key).1 e)),
        ),
        λ h. absurd (ground (arith, differ, less, h)),
      )
      | inr not_less ↦ (
        λ h. absurd (ground (arith, differ, not_less, h)),
        λ _. (
          not_less,
          λ e. absurd (ground (arith, differ, (string_eq.beq_iff v.key d.key).1 (sym e))),
        ),
      )
    ]
    | inl same ↦
        let e = (string_eq.beq_iff v.key d.key).0 same in
        (
          λ h. (text_lt-same _ _ (sym e), λ _. ground (arith, same, h)),
          λ h. (text_lt-same _ _ e, λ _. ground (arith, same, h)),
        )
  ]

  -- The version id is "null" or is decoded.
  abbrev pub IsDecoded : Entity → Type 0
  IsDecoded e = (id : String) × (decode_vid decode e.version_id ≡ some id)

  first_decoded :
      (v d : Entity) → IsDecoded v → IsDecoded d → (b : Bool) × (version_first decode v d ≡ some b)
  unfolding version_first by_version_id
  first_decoded v d (a, p) (b, q) =
      decided_if (not (v.key == d.key)) (_, refl)
        (decided_if (ltb d.last_modified v.last_modified) (_, refl)
          (decided_if (ltb v.last_modified d.last_modified) (_, refl)
            (decided_if (v.version_id == "null" || d.version_id == "null") (_, refl)
              (text_lt a b, ap₂ (by_version_id decode) p q))))

  -- The list that is merged.
  abbrev pub Merges : List Entity → List Entity → Option (List Entity) → Type 0
  Merges versions markers merged =
      (l : List Entity) × (merged ≡ some l) × IsSorted l × Permutation l (versions ++ markers)

  merges_next :
      (e : Entity) (rest whole : List Entity) (merged : Option (List Entity))
      → ((l : List Entity) × (merged ≡ some l) × IsSorted l × Permutation l rest)
      → All (IsBefore e) rest
      → Permutation (e ∷ rest) whole
      → (l : List Entity) × (Option.map (e ∷◌) merged ≡ some l) × IsSorted l × Permutation l whole
  merges_next e rest whole merged (l, is, sorted, all) before same_as = (
    e ∷ l,
    rw is refl,
    (All-Permutation (IsBefore e) (back all) before, sorted),
    chain (skip e all) same_as,
  )

  -- Let the versions and the delete markers of a listing each be sorted by key, the newest first, and let
  -- all their version ids be "null" or such that they are decoded. Then there is no error, and the list
  -- that is merged has exactly these versions and delete markers and is sorted in the same way.
  pub merge_sorts :
      (versions markers : List Entity)
      → IsSorted versions
      → IsSorted markers
      → All IsDecoded versions
      → All IsDecoded markers
      → Merges versions markers (merge_sorted decode versions markers)
  unfolding merge_sorted
  merge_sorts [] markers sv sm dv dm = (markers, refl, sm, same markers)
  merge_sorts (v ∷ versions) [] sv sm dv dm =
      (v ∷ versions, refl, sv, rw (append-nil (v ∷ versions)) (same (v ∷ versions)))
  merge_sorts (v ∷ versions) (d ∷ markers) sv sm dv dm =
      let (b, first) = first_decoded v d dv.0 dm.0 in
      elim (Bool-cases b) [
        | inl e ↦
            let first' = first ∙ ap some e in
            let before = (first-IsBefore v d).0 first' in
            rw (first', merge_sorted)
              (merges_next v (versions ++ d ∷ markers) (v ∷ versions ++ d ∷ markers) _
                (merge_sorts versions (d ∷ markers) sv.1 sm dv.1 dm)
                (All-append (IsBefore v) versions (d ∷ markers) sv.0
                  (before, All-map _ _ markers (λ m. IsBefore-trans v d m before) sm.0))
                (same (v ∷ versions ++ d ∷ markers)))
        | inr e ↦
            let first' = first ∙ ap some e in
            let before = (first-IsBefore v d).1 first' in
            rw (first', merge_sorted)
              (merges_next d ((v ∷ versions) ++ markers) ((v ∷ versions) ++ d ∷ markers) _
                (merge_sorts (v ∷ versions) markers sv sm.1 dv dm.1)
                (
                  before,
                  All-append (IsBefore d) versions markers
                      (All-map _ _ versions (λ m. IsBefore-trans d v m before) sv.0) sm.0,
                )
                (back (to_front (v ∷ versions) d markers)))
      ]

get-add_after :
    (details : BucketDetails) (before : Option Entity) (es : List Entity) (i : ℕ) (p e : Entity)
    → get_elem? es i ≡ some p
    → get_elem? es (suc i) ≡ some e
    → e.is_latest ≡ false
    → get_elem? (add_stale_dates_after details before es) (suc i)
      ≡ some (record e { stale_date = some p.last_modified })
unfolding add_stale_dates_after stale_date_of
get-add_after details before [] i p e at next old = absurd (ground (arith, at))
get-add_after details before (x ∷ []) zero p e at next old = absurd (ground (arith, next))
get-add_after details before (x ∷ y ∷ es) zero p e at next old = ground (arith, at, next, old)
get-add_after details before (x ∷ es) (suc i) p e at next old =
    get-add_after details (some x) es i p e at next old

sorted_next :
    (es : List Entity) (i : ℕ) (p e : Entity)
    → IsSorted es
    → get_elem? es i ≡ some p
    → get_elem? es (suc i) ≡ some e
    → IsBefore p e
sorted_next [] i p e h at next = absurd (ground (arith, at))
sorted_next (x ∷ es) zero p e h at next =
    subst (λ q. IsBefore q e) (some-injective _ _ at) (All-get (IsBefore x) es 0 e h.0 next)
sorted_next (x ∷ es) (suc i) p e h at next = sorted_next es i p e h.1 at next

-- In a list that is sorted by key, the newest first, let a version that is not the latest come after an
-- entity of its key. Its stale date is the date of this entity, and not before its own.
pub stale_date_lem :
    (details : BucketDetails) (es : List Entity) (i : ℕ) (p e : Entity)
    → IsSorted es
    → get_elem? es i ≡ some p
    → get_elem? es (suc i) ≡ some e
    → p.key ≡ e.key
    → e.is_latest ≡ false
    → (get_elem? (add_stale_date_to_versions details es) (suc i)
        ≡ some (record e { stale_date = some p.last_modified }))
      × (e.last_modified ≤ p.last_modified)
unfolding add_stale_date_to_versions
stale_date_lem details es i p e sorted at next key old =
    (get-add_after details none es i p e at next old, (sorted_next es i p e sorted at next).1 key)
