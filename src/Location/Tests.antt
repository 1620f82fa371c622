-- ===== src/Location/Tests.antt =====
-- Locations, new and stored, and the theorems at them.
use backbeat.Base.{◌≡◌, refl, true, none, some, [], ◌∷◌, contains, string_eq}
use backbeat.Location.{
  ServiceStatus, is_paused, unpaused, crr, ingestion, lifecycle, LocationStatus, new_status,
  get_service, get_service_pause_status, pause_location,
}
use backbeat.Base.Assoc.{get}
use backbeat.Location.Manager.{Place, fire, pause_place, resume_place}
use backbeat.Location.Jobs.{stale_job_resumes}
use backbeat.Location.Shared.{pause_location-shared}

abbrev paused : ServiceStatus
paused = record { paused = true; scheduled_resume = some "noon" }

abbrev stored : LocationStatus
stored = record {
  cells = unpaused ∷ paused ∷ unpaused ∷ [];
  crr_ref = some 0;
  ingestion_ref = some 1;
  lifecycle_ref = some 2;
}

stored-eq :
    new_status []
      (some (record { crr_value = none; ingestion_value = some paused; lifecycle_value = none }))
    ≡ stored
unfolding new_status
stored-eq = refl

pause_location-shared_example :
    get_service_pause_status
      (pause_location (new_status ("crr" ∷ "lifecycle" ∷ []) none) (crr ∷ []))
      lifecycle
    ≡ some true
unfolding contains
pause_location-shared_example =
    pause_location-shared ("crr" ∷ "lifecycle" ∷ []) crr lifecycle refl refl refl refl

abbrev place : Place
place = record { status = stored; document = stored; jobs = [] }

abbrev later : Place
later = resume_place (some "noon") true "retry" ingestion place

ingestion_there : get_service place.status ingestion ≡ some paused
unfolding get_service
ingestion_there = refl

-- The place is one at which nothing is scheduled yet, and another service is not paused.
crr_not_resumed : resume_place (some "noon") true "retry" crr place ≡ place
unfolding resume_place is_paused
crr_not_resumed = refl

abbrev again : Place
again = pause_place true ingestion (resume_place none true "retry" ingestion later)

stale_job_resumes_example :
    (get_service again.status ingestion ≡ some (record { paused = true; scheduled_resume = none }))
    × (get again.jobs "ingestion" ≡ some "noon")
    × (get_service (fire again ingestion true "retry").status ingestion ≡ some unpaused)
stale_job_resumes_example =
    stale_job_resumes place ingestion paused "noon" "retry" ingestion_there refl
