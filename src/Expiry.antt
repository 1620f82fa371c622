-- ===== src/Expiry.antt =====
-- extensions/lifecycle/tasks/LifecycleTask.js: what the rules that apply to an object, a version or a
-- delete marker make of it. The dates and days of arsenal's LifecycleDateTime are a parameter. A text that
-- is missing is the empty one.
pub mod Data
pub mod Compare
pub mod Merge
pub mod Apply
pub mod Tests
pub use Data.*
use backbeat.Base.{
  ℕ, Bool, true, false, not, ◌&&◌, ◌||◌, String, Option, none, some, List, [], ◌∷◌, leb, ltb,
  if◌then◌else◌, ◌==◌, nat_eq, string_eq, filter_by,
}
use backbeat.Retention.{Version, NcvExpiration, MinHeap, Heaps, ncv_heap_add}

abbrev has : {A : Type 0} → Option A → Bool
has none = false
has (some _) = true

-- `_isDeleteMarker`
unfoldable pub is_delete_marker : Entity → Bool
is_delete_marker e = not (has e.etag) && not (has e.size) && not (has e.storage_class)

text_of : Option String → String
text_of none = ""
text_of (some s) = s

unfoldable pub days_passed : Option ℕ → ℕ → Bool
days_passed none since = false
days_passed (some days) since = leb days since

date_passed : Option ℕ → ℕ → Bool
date_passed none now = false
date_passed (some date) now = ltb date now

unfoldable pub noncurrent_of : String → List Entity → List Entity
noncurrent_of key = filter_by λ v. v.key == key && not v.is_latest

pub is_empty : {A : Type 0} → List A → Bool
is_empty [] = true
is_empty (_ ∷ _) = false

after_days : Option ℕ → Timing
after_days days = record { days = days; date = none }

unfoldable pub to_version : Entity → ℕ → Version
unfolding text_of
to_version e stale = record {
  key = e.key;
  version_id = e.version_id;
  stale_date = stale;
  storage_class = text_of e.storage_class;
}

module _ (clock : LifecycleDateTime) (target : Target) where
  delete_current : Entity → Expiration → DeleteObject
  unfolding text_of
  delete_current obj rule = record {
    target = target;
    key = obj.key;
    version = none;
    last_modified = some obj.last_modified;
    data_store_name = some (text_of obj.storage_class);
    transition_time = clock.get_transition_timestamp rule.timing obj.last_modified;
  }

  -- `_checkAndApplyExpirationRule`: the entry that is sent, if the rule applies.
  unfoldable pub check_and_apply_expiration_rule : Entity → Expiration → Option DeleteObject
  unfolding delete_current date_passed days_passed
  check_and_apply_expiration_rule obj rule =
      if date_passed rule.timing.date clock.current_date
      then some (delete_current obj rule)
      else if days_passed rule.timing.days (clock.find_days_since obj.last_modified)
      then some (delete_current obj rule)
      else none

  -- The condition that `_checkAndApplyEODMRule` of both tasks has on the rule.
  unfoldable pub eodm_applies : Entity → Expiration → Bool
  unfolding date_passed days_passed
  eodm_applies marker rule =
      days_passed rule.timing.days (clock.find_days_since marker.last_modified)
      || date_passed rule.timing.date clock.now
      || elim rule.expired_object_delete_marker [ none ↦ false | some b ↦ b ]

  delete_marker : Entity → Timing → DeleteObject
  delete_marker marker timing = record {
    target = target;
    key = marker.key;
    version = some marker.version_id;
    last_modified = none;
    data_store_name = none;
    transition_time = clock.get_transition_timestamp timing marker.last_modified;
  }

  -- `_checkAndApplyEODMRule` of LifecycleTask.js, from the versions that it looks at.
  unfoldable pub eodm_with : Entity → List Entity → Option Expiration → Option DeleteObject
  unfolding noncurrent_of is_empty eodm_applies delete_marker
  eodm_with marker versions none = none
  eodm_with marker versions (some rule) =
      if is_empty (noncurrent_of marker.key versions) && eodm_applies marker rule
      then some (delete_marker marker rule.timing)
      else none

  -- `_checkAndApplyEODMRule` of LifecycleTaskV2.js, which hands a Boolean on where the other hands on the
  -- rule, and so no timing.
  unfoldable pub eodm_v2 : Entity → Option Expiration → Option DeleteObject
  unfolding eodm_applies delete_marker
  eodm_v2 marker none = none
  eodm_v2 marker (some rule) =
      if eodm_applies marker rule
      then some (delete_marker marker (record { days = none; date = none }))
      else none

  transition_params : Entity → String → Option ℕ → TransitionParams
  transition_params obj site time = record {
    target = target;
    object_key = obj.key;
    version_id = obj.version_id;
    etag = obj.etag;
    last_modified = obj.last_modified;
    site = site;
    transition_time = time;
  }

  -- `_checkAndApplyNCVTransitionRule`, for a version with a stale date.
  unfoldable pub check_and_apply_ncv_transition_rule :
      Entity → ℕ → NoncurrentVersionTransition → Option TransitionParams
  unfolding days_passed transition_params after_days
  check_and_apply_ncv_transition_rule version stale rule =
      if days_passed rule.noncurrent_days (clock.find_days_since stale)
      then some (
          transition_params version rule.storage_class
            (clock.get_transition_timestamp (after_days rule.noncurrent_days) stale))
      else none

  unfoldable pub delete_noncurrent : Version → Option ℕ → ℕ → DeleteObject
  unfolding after_days
  delete_noncurrent v days stale = record {
    target = target;
    key = v.key;
    version = some v.version_id;
    last_modified = none;
    data_store_name = some v.storage_class;
    transition_time = clock.get_transition_timestamp (after_days days) stale;
  }

unfoldable pub has_number : Option ℕ → Bool
has_number none = false
has_number (some n) = not (n == 0)

unfoldable pub deletion : (Version → DeleteObject) → Option Version → Option DeleteObject
deletion f none = none
deletion f (some v) = some (f v)

-- `_checkAndApplyNCVExpirationRule`, for a version with a stale date: with `NewerNoncurrentVersions` the
-- heap says which version expires.
unfoldable pub check_and_apply_ncv_expiration_rule :
    {H : Type 0}
    → MinHeap H
    → LifecycleDateTime
    → Target
    → Heaps H
    → Entity
    → ℕ
    → NoncurrentVersionExpiration
    → Heaps H × Option DeleteObject
unfolding days_passed has_number to_version delete_noncurrent deletion
check_and_apply_ncv_expiration_rule heap clock target heaps version stale rule =
    let delete = λ (v : Version). delete_noncurrent clock target v rule.noncurrent_days stale in
    if not (days_passed rule.noncurrent_days (clock.find_days_since stale))
    then (heaps, none)
    else if has_number rule.newer.newer_noncurrent_versions
    then (let (heaps', expired) =
          ncv_heap_add heap heaps target.bucket (some rule.newer) (to_version version stale) in
        (heaps', deletion delete expired))
    else (heaps, some (delete (to_version version stale)))
