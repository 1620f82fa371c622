-- ===== src/Location/Manager.antt =====
-- lib/util/LocationStatusManager.js: pause, resume and scheduled resume of a service at locations. A
-- change and the update of its document in MongoDB are one step, which is told whether the update
-- succeeds. Dates are their texts.
use backbeat.Base.{
  ℕ, Bool, true, false, not, String, Option, none, some, List, [], ◌∷◌, ◌++◌, if◌then◌else◌,
  string_eq, ◌==◌, nat_eq,
}
use backbeat.Base.Assoc.{Assoc, get, put, remove}
use backbeat.Location.{
  Service, service_name, LocationStatus, is_paused, set_service_resume_schedule, pause_service,
  resume_service,
}

-- One location: its entry of `_locationStatusStore`, its document in MongoDB, and its entries of
-- `_scheduledResumeJobs` that are still to come, by service.
pub record Place : Type 0 where
  pub status : LocationStatus
  pub document : LocationStatus
  pub jobs : Assoc String String

-- `_updateServiceStatusForLocation`
unfoldable pub update_document : Bool → Place → Place
update_document succeeds p = if succeeds then record p { document = p.status } else p

-- `_deleteResumeJob`
unfoldable pub delete_resume_job : Place → Service → Place
delete_resume_job p svc = record p { jobs = remove p.jobs (service_name svc) }

-- `triggerResume`; after a failure it is tried again at the date `retry`.
unfoldable pub trigger_resume : Place → Service → Bool → String → Place
unfolding update_document
trigger_resume p svc succeeds retry =
    let p' = update_document succeeds (record p { status = resume_service none p.status svc }) in
    if succeeds then p' else record p' { jobs = put p'.jobs (service_name svc) retry }

-- `_scheduleResumeJob`; a date that has passed is served at once.
unfoldable pub schedule_resume_job : Place → Service → String → Bool → Bool → String → Place
unfolding delete_resume_job trigger_resume
schedule_resume_job p svc date has_passed succeeds retry =
    let p' = delete_resume_job p svc in
    if has_passed
    then trigger_resume p' svc succeeds retry
    else record p' { jobs = put p'.jobs (service_name svc) date }

-- A job runs when its time has come; it is then no longer to come.
unfoldable pub fire : Place → Service → Bool → String → Place
unfolding trigger_resume
fire p svc succeeds retry = elim (get p.jobs (service_name svc)) [
  | none ↦ p
  | some date ↦
      trigger_resume (record p { jobs = remove p.jobs (service_name svc) }) svc succeeds retry
]

-- What `deleteScheduledResumeService`, `pauseService` and `resumeService` do at one location whose
-- state is in MongoDB. The date of a resume is in the future.
unfoldable pub delete_schedule_place : Bool → Service → Place → Place
unfolding delete_resume_job update_document
delete_schedule_place succeeds svc p =
    if is_paused p.status svc
    then (let p' = delete_resume_job p svc in
        update_document succeeds
          (record p' { status = set_service_resume_schedule p'.status svc none }))
    else p

unfoldable pub pause_place : Bool → Service → Place → Place
unfolding update_document
pause_place succeeds svc p =
    if is_paused p.status svc
    then p
    else update_document succeeds (record p { status = pause_service p.status svc })

unfoldable pub resume_place : Option String → Bool → String → Service → Place → Place
unfolding schedule_resume_job update_document
resume_place schedule succeeds retry svc p =
    if is_paused p.status svc
    then (let p' = record p { status = resume_service schedule p.status svc } in
        update_document succeeds (elim schedule [
          | none ↦ p'
          | some date ↦ schedule_resume_job p' svc date false succeeds retry
        ]))
    else p

-- All locations, and the messages that were published through Redis.
pub record RedisMessage : Type 0 where
  pub service : String
  pub location : String
  pub action : String
  pub date : Option String

pub record Manager : Type 0 where
  pub places : Assoc String Place
  pub messages : List RedisMessage

-- `isMongo` of a service's configuration, if the service has one.
abbrev pub Services : Type 0
Services = Service → Option Bool

abbrev pub uses_redis : Services → Service → Bool
uses_redis config svc = elim (config svc) [ none ↦ false | some is_mongo ↦ not is_mongo ]

-- `_pushActionToRedis`
unfoldable pub push_action_to_redis : Manager → Service → String → String → Option String → Manager
push_action_to_redis m svc location action date = record m {
  messages =
      m.messages
      ++ record { service = service_name svc; location = location; action = action; date = date }
        ∷ [];
}

-- `none`: the TypeError on a location that is not in the store.
unfoldable pub at_location : Manager → String → (Place → Place) → Option Manager
at_location m location f = elim (get m.places location) [
  | none ↦ none
  | some p ↦ some (record m { places = put m.places location (f p) })
]

each_location : (Manager → String → Option Manager) → Manager → List String → Option Manager
each_location f m [] = some m
each_location f m (l ∷ ls) = elim (f m l) [ none ↦ none | some m' ↦ each_location f m' ls ]

module _ (config : Services) (succeeds : String → Bool) (svc : Service) where
  unfoldable pub delete_scheduled_resume_service : Manager → List String → Option Manager
  unfolding each_location push_action_to_redis at_location
  delete_scheduled_resume_service = each_location (λ m l.
      if uses_redis config svc
      then some (push_action_to_redis m svc l "deleteScheduledResumeService" none)
      else at_location m l (delete_schedule_place (succeeds l) svc))

  unfoldable pub pause_service_for : Manager → List String → Option Manager
  unfolding each_location push_action_to_redis at_location
  pause_service_for = each_location (λ m l.
      if uses_redis config svc
      then some (push_action_to_redis m svc l "pauseService" none)
      else at_location m l (pause_place (succeeds l) svc))

  unfoldable pub resume_service_for :
      Option String → String → Manager → List String → Option Manager
  unfolding each_location push_action_to_redis at_location
  resume_service_for schedule retry = each_location (λ m l.
      if uses_redis config svc
      then some (push_action_to_redis m svc l "resumeService" schedule)
      else at_location m l (resume_place schedule (succeeds l) retry svc))

-- The body of a request: `hours` is missing or falsy, is not a positive number, or has this integer
-- part.
pub data Hours : Type 0 where
  missing invalid : Hours
  amount : ℕ → Hours

pub data Body : Type 0 where
  empty malformed : Body
  parsed : Hours → Body

-- `_parseScheduleResumeBody`; `none` is an error.
unfoldable pub parse_schedule_resume_body : Body → Option ℕ
parse_schedule_resume_body empty = some 6
parse_schedule_resume_body malformed = none
parse_schedule_resume_body (parsed missing) = some 6
parse_schedule_resume_body (parsed invalid) = none
parse_schedule_resume_body (parsed (amount n)) = if n == 0 then none else some n

-- The beginning of `resumeService`: an error, a resume at once, or one after some hours.
pub data ResumeKind : Type 0 where
  route_not_found malformed_body at_once : ResumeKind
  after : ℕ → ResumeKind

unfoldable pub resume_kind : Option Bool → Body → ResumeKind
unfolding parse_schedule_resume_body
resume_kind none body = at_once
resume_kind (some false) body = route_not_found
resume_kind (some true) body = elim (parse_schedule_resume_body body) [
  | none ↦ malformed_body
  | some hours ↦ after hours
]
