-- ===== src/Expiry/Apply.antt =====
-- _applyTransitionRule of extensions/lifecycle/tasks/LifecycleTask.js, with _getTransitionActionEntry and
-- _canUnconditionallyGarbageCollect: the data of an object is to be copied to another location, and its
-- metadata notes this. The calls of the metadata service, of the storage and of Kafka answer with success
-- or not. The configuration of the locations is a parameter; the attempt that the user metadata counts is
-- left out.
pub mod Once
use backbeat.Base.{
  ℕ, suc, ◌+◌, ◌≡◌, ◌≢◌, ◌∙◌, ◌⊎◌, inl, inr, refl, ap, sym, Bool, true, false, not, ◌&&◌, ◌||◌,
  String, Option, none, some, List, [], ◌∷◌, arith, if◌then◌else◌, ◌==◌, string_eq, contains,
  Bool-cases, Option-cases, if_true, if_false,
}
use backbeat.Expiry.{TransitionParams}

-- What the task reads and writes of the metadata of an object.
pub record ObjectMd : Type 0 where
  pub replication_status : String
  pub data_store_name : String
  pub data_store_version_id : Option String
  pub transition_in_progress : Bool
  pub transition_time : Option ℕ
  pub restore_completed : Bool

pub data Error : Type 0 where
  location_paused get_failed replication_in_progress cold_object transition_under_way : Error
  temporarily_restored head_failed send_failed put_failed : Error

-- The answers of the services. `change` is what others do to the metadata meanwhile.
pub record Answers : Type 0 where
  pub get_ok : Bool
  pub head_ok : Bool
  pub send_ok : Bool
  pub change : ObjectMd → ObjectMd
  pub refresh_ok : Bool
  pub put_ok : Bool

pub record Locations : Type 0 where
  pub paused : List String
  pub is_cold : String → Bool
  pub is_bootstrap : String → Bool

-- The metadata of one object, and the copies that were asked for.
pub record World : Type 0 where
  pub md : ObjectMd
  pub sent : List TransitionParams

-- Why there is to be no transition, by the metadata.
unfoldable pub refused : Locations → ObjectMd → Option Error
refused locations md =
    if md.replication_status == "PENDING"
      || md.replication_status == "PROCESSING"
      || md.replication_status == "FAILED"
    then some replication_in_progress
    else if locations.is_cold md.data_store_name
    then some cold_object
    else if md.transition_in_progress
    then some transition_under_way
    else if md.restore_completed
    then some temporarily_restored
    else none

-- `_canUnconditionallyGarbageCollect`
unfoldable pub can_unconditionally_garbage_collect : Locations → ObjectMd → Bool
can_unconditionally_garbage_collect locations md =
    not (locations.is_bootstrap md.data_store_name)
    || elim md.data_store_version_id [ none ↦ false | some id ↦ not (id == "") ]

-- From the refresh of the metadata on.
pub note_transition : Answers → World → TransitionParams → World × Option Error
note_transition a w params =
    let md = a.change w.md in
    if not a.refresh_ok
    then (record w { md = md }, some get_failed)
    else if not a.put_ok
    then (record w { md = md }, some put_failed)
    else (
      record w {
        md = record md { transition_in_progress = true; transition_time = params.transition_time };
      },
      none,
    )

-- From the entry for the copy on.
pub send_action : Locations → Answers → World → TransitionParams → World × Option Error
unfolding note_transition
send_action locations a w params =
    if not (can_unconditionally_garbage_collect locations w.md) && not a.head_ok
    then (w, some head_failed)
    else if not a.send_ok
    then (w, some send_failed)
    else note_transition a (record w { sent = params ∷ w.sent }) params

pub if_not_refused : Option Error → World → World × Option Error → World × Option Error
if_not_refused none w next = next
if_not_refused (some error) w next = (w, some error)

unfoldable pub apply_transition_rule :
    Locations → Answers → World → TransitionParams → World × Option Error
unfolding send_action if_not_refused
apply_transition_rule locations a w params =
    if contains locations.paused params.site
    then (w, some location_paused)
    else if not a.get_ok
    then (w, some get_failed)
    else if_not_refused (refused locations w.md) w (send_action locations a w params)
