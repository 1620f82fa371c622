-- ===== src/Expiry/Merge.antt =====
-- extensions/lifecycle/tasks/LifecycleTask.js: the versions and the delete markers of a listing in one
-- list, and the dates at which they became noncurrent. Version ids are decoded by arsenal.
pub mod Order
use backbeat.Base.{
  ℕ, zero, suc, ◌≤◌, ◌≡◌, ◌∙◌, ◌⊎◌, inl, inr, refl, sym, subst, ap, ap₂, All-get, Bool, true, false,
  not, ◌||◌, String, Option, none, some, List, [], ◌∷◌, ◌++◌, arith, ltb, if◌then◌else◌, ◌==◌,
  string_eq, opt_beq, All, All-map, All-append, Bool-cases, Option-cases, get_elem?, length,
}
use mathlib.Core.Option
use mathlib.Core.Option.{some-injective}
use mathlib.Core.List.{append-nil}
use backbeat.Base.TextOrder.{text_lt, text_lt-total, text_lt_trans, text_lt_irrefl}
use backbeat.Base.Permutation.{Permutation, same, back, chain, skip, All-Permutation, to_front}
use backbeat.Expiry.{Entity}

-- `decode` answers none for its errors.
module _ (decode : String → Option String) where
  -- `_decodeVID`
  unfoldable pub decode_vid : String → Option String
  decode_vid version_id = if version_id == "null" then some version_id else decode version_id

  pub by_version_id : Option String → Option String → Option Bool
  by_version_id none _ = none
  by_version_id (some a) none = none
  by_version_id (some a) (some b) = some (text_lt a b)

  -- Whether the version is pushed before the delete marker.
  unfoldable pub version_first : Entity → Entity → Option Bool
  unfolding decode_vid by_version_id
  version_first v d =
      if not (v.key == d.key)
      then some (text_lt v.key d.key)
      else if ltb d.last_modified v.last_modified
      then some true
      else if ltb v.last_modified d.last_modified
      then some false
      else if v.version_id == "null" || d.version_id == "null"
      then some true
      else by_version_id (decode_vid v.version_id) (decode_vid d.version_id)

  -- `_mergeSortedVersionsAndDeleteMarkers`
  unfoldable pub merge_sorted : List Entity → List Entity → Option (List Entity)
  merge_sorted [] markers = some markers
  merge_sorted (v ∷ versions) [] = some (v ∷ versions)
  merge_sorted (v ∷ versions) (d ∷ markers) = elim (version_first v d) [
    | none ↦ none
    | some true ↦ Option.map (v ∷◌) (merge_sorted versions (d ∷ markers))
    | some false ↦ Option.map (d ∷◌) (merge_sorted (v ∷ versions) markers)
  ]

-- `details` of a bucket entry, from the listing before.
pub record BucketDetails : Type 0 where
  pub key_marker : Option String
  pub prev_date : Option ℕ

pub stale_date_of : BucketDetails → Option Entity → Entity → Option ℕ
stale_date_of details none e =
    if opt_beq details.key_marker (some e.key) then details.prev_date else none
stale_date_of details (some before) e = some before.last_modified

-- `_addStaleDateToVersions`, after an entity of the list or at its start.
unfoldable pub add_stale_dates_after : BucketDetails → Option Entity → List Entity → List Entity
unfolding stale_date_of
add_stale_dates_after details before [] = []
add_stale_dates_after details before (e ∷ es) =
    record e { stale_date = if e.is_latest then none else stale_date_of details before e }
    ∷ add_stale_dates_after details (some e) es

unfoldable pub add_stale_date_to_versions : BucketDetails → List Entity → List Entity
unfolding add_stale_dates_after
add_stale_date_to_versions details es = add_stale_dates_after details none es
