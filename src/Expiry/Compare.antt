-- ===== src/Expiry/Compare.antt =====
-- The comparison of an entity with the rules that apply to it, in LifecycleTask.js and LifecycleTaskV2.js
-- of extensions/lifecycle/tasks.
mod Cases
pub mod Safety
pub mod Deleted
pub mod Newest
use backbeat.Base.{
  ℕ, Bool, true, false, not, ◌&&◌, String, Option, none, some, List, [], ◌∷◌, if◌then◌else◌, ◌==◌,
  string_eq,
}
use backbeat.Retention.{MinHeap, Heaps}
use backbeat.Expiry.{
  Rules, Expiration, Transition, NoncurrentVersionExpiration, NoncurrentVersionTransition, Entity,
  Target, DeleteObject, TransitionParams, LifecycleDateTime, is_delete_marker, eodm_with, eodm_v2,
  check_and_apply_expiration_rule, check_and_apply_ncv_expiration_rule, transition_params,
  check_and_apply_ncv_transition_rule,
}

-- What a comparison leads to: an entry is sent that deletes something, a transition is applied, or the
-- callback gets an error.
pub data Outcome : Type 0 where
  nothing fails : Outcome
  deletes : DeleteObject → Outcome
  transitions : TransitionParams → Outcome

pub data ListType : Type 0 where
  current noncurrent orphan : ListType

unfoldable pub or_else : Option DeleteObject → Outcome → Outcome
or_else none rest = rest
or_else (some action) _ = deletes action

unfoldable pub transition_outcome : Option TransitionParams → Outcome
transition_outcome none = nothing
transition_outcome (some params) = transitions params

last : List Entity → Option Entity
last [] = none
last (x ∷ []) = some x
last (x ∷ y ∷ xs) = last (y ∷ xs)

-- `obj` is the last of the versions.
pub is_last : Entity → List Entity → Bool
unfolding last
is_last obj versions = elim (last versions) [
  | none ↦ false
  | some v ↦ v.key == obj.key && v.version_id == obj.version_id
]

module _ (clock : LifecycleDateTime) (target : Target) where
  unfoldable pub expiration_of : Entity → Option Expiration → Option DeleteObject
  expiration_of obj none = none
  expiration_of obj (some rule) = check_and_apply_expiration_rule clock target obj rule

  unfoldable pub transition_of : Entity → Option Transition → Outcome
  unfolding transition_params
  transition_of obj none = nothing
  transition_of obj (some rule) = transitions (
      transition_params clock target obj rule.storage_class
        (clock.get_transition_timestamp rule.timing obj.last_modified))

  -- `_compareCurrent`
  unfoldable pub compare_current : Entity → Rules → Outcome
  unfolding expiration_of transition_of or_else
  compare_current obj rules =
      or_else (expiration_of obj rules.expiration) (transition_of obj rules.transition)

  -- `_compareObject`, from the answer to `headObject`. The transition is of no version.
  unfoldable pub compare_object : Entity → Rules → Option ℕ → Outcome
  unfolding expiration_of transition_of or_else
  compare_object obj rules none = fails
  compare_object obj rules (some last_modified) =
      or_else (expiration_of (record obj { last_modified = last_modified }) rules.expiration)
        (transition_of (record obj { version_id = "" }) rules.transition)

  -- `_checkAndApplyEODMRule` of LifecycleTask.js: a marker that is the last of the list is looked up again
  -- by its key, which may fail.
  unfoldable pub compare_marker : Entity → List Entity → Rules → Option (List Entity) → Outcome
  unfolding is_last or_else
  compare_marker marker versions rules found =
      if is_last marker versions
      then elim found [
        | none ↦ fails
        | some all ↦ or_else (eodm_with clock target marker all rules.expiration) nothing
      ]
      else or_else (eodm_with clock target marker versions rules.expiration) nothing

  -- `_compareIsLatestVersion`
  unfoldable pub compare_is_latest_version :
      Entity → List Entity → Rules → Option (List Entity) → Outcome
  unfolding compare_marker expiration_of transition_of or_else
  compare_is_latest_version version versions rules found =
      if is_delete_marker version
      then compare_marker version versions rules found
      else or_else (expiration_of version rules.expiration) (transition_of version rules.transition)

module _ {H : Type 0} (heap : MinHeap H) (clock : LifecycleDateTime) (target : Target) where
  unfoldable pub ncv_expiration_of :
      Heaps H → Entity → ℕ → Option NoncurrentVersionExpiration → Heaps H × Option DeleteObject
  ncv_expiration_of heaps version stale none = (heaps, none)
  ncv_expiration_of heaps version stale (some rule) =
      check_and_apply_ncv_expiration_rule heap clock target heaps version stale rule

  unfoldable pub ncv_transition_of : Entity → ℕ → Option NoncurrentVersionTransition → Outcome
  unfolding transition_outcome
  ncv_transition_of version stale none = nothing
  ncv_transition_of version stale (some rule) =
      transition_outcome (check_and_apply_ncv_transition_rule clock target version stale rule)

  unfoldable pub compare_dated : Heaps H → Entity → Rules → Option ℕ → Heaps H × Outcome
  unfolding ncv_expiration_of ncv_transition_of or_else
  compare_dated heaps version rules none = (heaps, fails)
  compare_dated heaps version rules (some stale) =
      let (heaps', action) =
        ncv_expiration_of heaps version stale rules.noncurrent_version_expiration in
      (heaps', or_else action (ncv_transition_of version stale rules.noncurrent_version_transition))

  -- `_compareNonCurrent`
  unfoldable pub compare_noncurrent : Heaps H → Entity → Rules → Heaps H × Outcome
  unfolding compare_dated
  compare_noncurrent heaps version rules = compare_dated heaps version rules version.stale_date

  -- `_compareVersion`
  unfoldable pub compare_version :
      Heaps H → Entity → List Entity → Rules → Option (List Entity) → Heaps H × Outcome
  unfolding compare_is_latest_version ncv_expiration_of ncv_transition_of or_else
  compare_version heaps version versions rules found =
      if version.is_latest
      then (heaps, compare_is_latest_version clock target version versions rules found)
      else elim version.stale_date [
        | none ↦ (heaps, fails)
        | some stale ↦
            let (heaps', action) =
              ncv_expiration_of heaps version stale rules.noncurrent_version_expiration in
            (
              heaps',
              or_else action (ncv_transition_of version stale rules.noncurrent_version_transition),
            )
      ]

  -- `_compare` of LifecycleTaskV2.js, by the type of the listing.
  unfoldable pub compare : Heaps H → Entity → Option ListType → Rules → Heaps H × Outcome
  unfolding compare_current compare_noncurrent or_else
  compare heaps obj none rules = (heaps, fails)
  compare heaps obj (some current) rules = (heaps, compare_current clock target obj rules)
  compare heaps obj (some noncurrent) rules = compare_noncurrent heaps obj rules
  compare heaps obj (some orphan) rules =
      (heaps, or_else (eodm_v2 clock target obj rules.expiration) nothing)
