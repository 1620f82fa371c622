-- ===== src/Location.antt =====
-- lib/models/LocationStatus.js: whether each service of a location is paused, and until when. The
-- constructor gives one object to all services, so the objects are cells and a service refers to
-- one by its index.
pub mod Manager
pub mod Separate
pub mod Jobs
pub mod Shared
pub mod Tests
use backbeat.Base.{
  ℕ, zero, suc, Bool, true, false, not, ◌&&◌, ◌||◌, String, Option, none, some, List, [], ◌∷◌, ◌++◌,
  length, get_elem?, if◌then◌else◌, ◌==◌, nat_eq, string_eq, contains,
}

pub record ServiceStatus : Type 0 where
  pub paused : Bool
  pub scheduled_resume : Option String

abbrev pub unpaused : ServiceStatus
unpaused = record { paused = false; scheduled_resume = none }

-- The names of services: the three keys of `_data`, and any other text.
pub data Service : Type 0 where
  crr ingestion lifecycle : Service
  other : String → Service

abbrev pub service_name : Service → String
service_name crr = "crr"
service_name ingestion = "ingestion"
service_name lifecycle = "lifecycle"
service_name (other s) = s

-- `_data`, each value a reference or null, and the objects.
pub record LocationStatus : Type 0 where
  pub cells : List ServiceStatus
  pub crr_ref : Option ℕ
  pub ingestion_ref : Option ℕ
  pub lifecycle_ref : Option ℕ

abbrev pub ref : LocationStatus → Service → Option ℕ
ref d crr = d.crr_ref
ref d ingestion = d.ingestion_ref
ref d lifecycle = d.lifecycle_ref
ref d (other s) = none

-- `_initStatus`: the services share one object.
unfoldable pub init_status : List String → LocationStatus
init_status services = record {
  cells = unpaused ∷ [];
  crr_ref = if contains services "crr" then some 0 else none;
  ingestion_ref = if contains services "ingestion" then some 0 else none;
  lifecycle_ref = if contains services "lifecycle" then some 0 else none;
}

-- A stored value: what it has for each service, if anything.
pub record Stored : Type 0 where
  pub crr_value : Option ServiceStatus
  pub ingestion_value : Option ServiceStatus
  pub lifecycle_value : Option ServiceStatus

-- The copy of one service's value; an empty date counts as none.
copy_status : Option ServiceStatus → ServiceStatus
copy_status none = unpaused
copy_status (some v) = record {
  paused = v.paused;
  scheduled_resume = elim v.scheduled_resume [
    | none ↦ none
    | some d ↦ if d == "" then none else some d
  ];
}

-- The constructor: from stored values each service, supported or not, gets an object of its own.
unfoldable pub new_status : List String → Option Stored → LocationStatus
unfolding init_status copy_status
new_status services none = init_status services
new_status services (some v) = record {
  cells =
      copy_status v.crr_value ∷ copy_status v.ingestion_value ∷ copy_status v.lifecycle_value ∷ [];
  crr_ref = some 0;
  ingestion_ref = some 1;
  lifecycle_ref = some 2;
}

read_cell : List ServiceStatus → Option ℕ → Option ServiceStatus
read_cell cells none = none
read_cell cells (some i) = get_elem? cells i

-- `getService`
unfoldable pub get_service : LocationStatus → Service → Option ServiceStatus
unfolding read_cell
get_service d svc = read_cell d.cells (ref d svc)

write_cell : List ServiceStatus → ℕ → ServiceStatus → List ServiceStatus
write_cell [] i v = []
write_cell (c ∷ cs) zero v = v ∷ cs
write_cell (c ∷ cs) (suc i) v = c ∷ write_cell cs i v

-- An assignment to a field of the object referred to.
set_at : LocationStatus → Option ℕ → (ServiceStatus → ServiceStatus) → LocationStatus
unfolding write_cell
set_at d none f = d
set_at d (some i) f = elim (get_elem? d.cells i) [
  | none ↦ d
  | some v ↦ record d { cells = write_cell d.cells i (f v) }
]

unfoldable pub set_service :
    LocationStatus → Service → (ServiceStatus → ServiceStatus) → LocationStatus
unfolding set_at
set_service d svc f = set_at d (ref d svc) f

-- `_initService`: a new object.
unfoldable pub init_service : LocationStatus → Service → LocationStatus
init_service d crr = record d { cells = d.cells ++ unpaused ∷ []; crr_ref = some (length d.cells) }
init_service d ingestion = record d {
  cells = d.cells ++ unpaused ∷ [];
  ingestion_ref = some (length d.cells);
}
init_service d lifecycle = record d {
  cells = d.cells ++ unpaused ∷ [];
  lifecycle_ref = some (length d.cells);
}
init_service d (other s) = d

with_service : LocationStatus → Service → LocationStatus
unfolding init_service get_service
with_service d svc = elim (get_service d svc) [ none ↦ init_service d svc | some _ ↦ d ]

-- `setServicePauseStatus`, which does nothing for other names.
unfoldable pub set_service_pause_status : LocationStatus → Service → Bool → LocationStatus
unfolding with_service set_service
set_service_pause_status d svc paused =
    set_service (with_service d svc) svc (λ v. record v { paused = paused })

-- `getServicePauseStatus`
unfoldable pub get_service_pause_status : LocationStatus → Service → Option Bool
unfolding get_service
get_service_pause_status d svc = elim (get_service d svc) [ none ↦ none | some v ↦ some v.paused ]

-- `null` counts as false.
unfoldable pub is_paused : LocationStatus → Service → Bool
unfolding get_service_pause_status
is_paused d svc = elim (get_service_pause_status d svc) [ none ↦ false | some p ↦ p ]

-- `setServiceResumeSchedule`
unfoldable pub set_service_resume_schedule :
    LocationStatus → Service → Option String → LocationStatus
unfolding set_service
set_service_resume_schedule d svc date =
    set_service d svc (λ v. record v { scheduled_resume = date })

-- `getServiceResumeSchedule`, an empty date counting as none.
unfoldable pub get_service_resume_schedule : LocationStatus → Service → Option String
unfolding get_service
get_service_resume_schedule d svc = elim (get_service d svc) [
  | none ↦ none
  | some v ↦ elim v.scheduled_resume [ none ↦ none | some t ↦ if t == "" then none else some t ]
]

-- One round of `pauseLocation` and of `resumeLocation`.
unfoldable pub pause_service : LocationStatus → Service → LocationStatus
unfolding is_paused set_service_pause_status
pause_service d svc = if is_paused d svc then d else set_service_pause_status d svc true

abbrev pub is_given : Option String → Bool
is_given none = false
is_given (some _) = true

unfoldable pub resume_service : Option String → LocationStatus → Service → LocationStatus
unfolding is_paused set_service_pause_status set_service_resume_schedule
resume_service schedule d svc =
    if is_paused d svc
    then set_service_resume_schedule (set_service_pause_status d svc (is_given schedule)) svc
        schedule
    else d

unfoldable pub pause_location : LocationStatus → List Service → LocationStatus
unfolding pause_service
pause_location d [] = d
pause_location d (svc ∷ rest) = pause_location (pause_service d svc) rest

unfoldable pub resume_location : LocationStatus → List Service → Option String → LocationStatus
unfolding resume_service
resume_location d [] schedule = d
resume_location d (svc ∷ rest) schedule =
    resume_location (resume_service schedule d svc) rest schedule
