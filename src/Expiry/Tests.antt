-- ===== src/Expiry/Tests.antt =====
-- Entities of a small bucket, and the theorems at them.
use backbeat.Base.{
  ℕ, ◌+◌, ◌-◌, ◌≤◌, ◌≡◌, ◌≢◌, ◌⊎◌, refl, Bool, true, false, String, Option, none, some, List, [],
  ◌∷◌, ◌++◌, map, arith, length, All, ◌==◌, string_eq, contains,
}
use backbeat.Base.TextOrder.{text_lt_irrefl}
use backbeat.Base.Permutation.{Permutation}
use backbeat.Retention.{Version, heap_of}
use backbeat.Base.Assoc.{get}
use backbeat.Retention.Tests.{bags}
use backbeat.Expiry.{
  Timing, NoncurrentVersionExpiration, Rules, Entity, Target, LifecycleDateTime, TransitionParams,
}
use backbeat.Expiry.Compare.{compare_version}
use backbeat.Expiry.Compare.Safety.{IsSafe, looked_at, latest-IsSafe}
use backbeat.Expiry.Compare.Deleted.{deleted, id_of, old_enough}
use backbeat.Expiry.Compare.Newest.{newest_kept}
use backbeat.Expiry.Merge.{merge_sorted, decode_vid, version_first, BucketDetails}
use backbeat.Expiry.Merge.Order.{Merges, merge_sorts}
use backbeat.Expiry.Apply.{
  Answers, Locations, World, apply_transition_rule, refused, can_unconditionally_garbage_collect,
}
use backbeat.Expiry.Apply.Once.{Applies, apply-Applies, apply_once}

-- Dates are days here, and it is day 100.
abbrev clock : LifecycleDateTime
clock = record {
  find_days_since = λ date. 100 - date;
  current_date = 100;
  now = 100;
  get_transition_timestamp =
      λ timing date. elim timing.days [ none ↦ timing.date | some days ↦ some (date + days) ];
}

abbrev target : Target
target = record { owner = "o"; bucket = "b"; account_id = "a" }

abbrev object : String → Bool → ℕ → Option ℕ → Entity
object id latest date stale = record {
  key = "k";
  version_id = id;
  is_latest = latest;
  last_modified = date;
  stale_date = stale;
  etag = some "e";
  size = some 1;
  storage_class = some "here";
}

abbrev marker : String → Bool → ℕ → Entity
marker id latest date = record {
  key = "k";
  version_id = id;
  is_latest = latest;
  last_modified = date;
  stale_date = none;
  etag = none;
  size = none;
  storage_class = none;
}

abbrev keep_two : NoncurrentVersionExpiration
keep_two = record {
  noncurrent_days = some 30;
  newer = record { id = "r"; newer_noncurrent_versions = some 2 };
}

abbrev after_a_month : Timing
after_a_month = record { days = some 30; date = none }

abbrev rules : Rules
rules = record {
  expiration = some (record { timing = after_a_month; expired_object_delete_marker = none });
  transition = none;
  noncurrent_version_expiration = some keep_two;
  noncurrent_version_transition = none;
}

abbrev alone : Entity
alone = marker "m" true 10

latest-IsSafe_example :
    IsSafe alone
      (looked_at alone (alone ∷ []) (some (alone ∷ object "v" false 5 (some 10) ∷ [])))
      (compare_version bags clock target [] alone
        (alone ∷ [])
        rules
        (some (alone ∷ object "v" false 5 (some 10) ∷ []))).1
latest-IsSafe_example =
    latest-IsSafe clock target bags [] alone (alone ∷ []) rules
      (some (alone ∷ object "v" false 5 (some 10) ∷ [])) refl

abbrev four_versions : List Entity
four_versions =
    object "a" false 1 (some 3)
    ∷ object "b" false 2 (some 9)
    ∷ object "c" false 0 (some 1)
    ∷ object "d" false 80 (some 90)
    ∷ []

newest_kept_example :
    (gone : List Version) × (kept : List Version) × (deleted bags clock target rules [] []
        four_versions
      ≡ map id_of gone)
    × Permutation (gone ++ kept) (old_enough clock (some 30) four_versions)
    × (length kept ≤ 2)
    × ((gone ≡ []) ⊎ (length kept ≡ 2))
    × All (λ g. All (λ v. g.stale_date ≤ v.stale_date) kept) gone
unfolding heap_of get
newest_kept_example =
    newest_kept bags clock target rules keep_two "r" 1 "k" refl refl [] four_versions
      (refl, (refl, (refl, (refl, tt)))) refl

abbrev decoded : String → Option String
decoded id = some id

abbrev two_objects : List Entity
two_objects = object "1" true 20 none ∷ object "2" false 10 none ∷ []

abbrev one_marker : List Entity
one_marker = marker "3" false 15 ∷ []

abbrev all_three : List Entity
all_three = object "1" true 20 none ∷ marker "3" false 15 ∷ object "2" false 10 none ∷ []

merged_three : merge_sorted decoded two_objects one_marker ≡ some all_three
unfolding merge_sorted version_first
merged_three = refl

merge_sorts_example :
    Merges decoded two_objects one_marker (merge_sorted decoded two_objects one_marker)
unfolding decode_vid
merge_sorts_example =
    merge_sorts decoded two_objects one_marker
      (((text_lt_irrefl "k", λ _. omega arith), tt), (tt, tt)) (tt, tt)
      (("1", refl), (("2", refl), tt)) (("3", refl), tt)

abbrev from_start : BucketDetails
from_start = record { key_marker = none; prev_date = none }

abbrev locations : Locations
locations = record {
  paused = "closed" ∷ [];
  is_cold = λ s. s == "ice";
  is_bootstrap = λ s. s == "cloud";
}

abbrev at_rest : World
at_rest = record {
  md = record {
    replication_status = "";
    data_store_name = "here";
    data_store_version_id = none;
    transition_in_progress = false;
    transition_time = none;
    restore_completed = false;
  };
  sent = [];
}

abbrev all_well : Answers
all_well = record {
  get_ok = true;
  head_ok = true;
  send_ok = true;
  change = λ md. md;
  refresh_ok = true;
  put_ok = true;
}

abbrev to_ice : TransitionParams
to_ice = record {
  target = target;
  object_key = "k";
  version_id = "1";
  etag = some "e";
  last_modified = 20;
  site = "ice";
  transition_time = some 50;
}

apply-Applies_example :
    Applies locations at_rest to_ice (apply_transition_rule locations all_well at_rest to_ice)
apply-Applies_example = apply-Applies locations all_well at_rest to_ice

apply_once_example :
    (let first = (apply_transition_rule locations all_well at_rest to_ice).0 in
      let second = apply_transition_rule locations all_well first to_ice in
      (first.sent ≡ to_ice ∷ []) × (second.0 ≡ first) × (second.1 ≢ none))
unfolding apply_transition_rule refused can_unconditionally_garbage_collect contains
apply_once_example = apply_once locations all_well all_well at_rest to_ice to_ice refl
