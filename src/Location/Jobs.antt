-- ===== src/Location/Jobs.antt =====
-- Scheduled resumes: the job that is to come, and the state of the service.
use backbeat.Base.{◌≡◌, refl, true, false, String, Option, none, some, string_eq, beq_self}
use backbeat.Base.Assoc.{get, put, remove, get-remove, get-put_self}
use backbeat.Location.{
  ServiceStatus, unpaused, Service, service_name, LocationStatus, get_service, is_given,
  set_service, set_service_resume_schedule, pause_service, resume_service,
}
use backbeat.Location.Manager.{
  Place, update_document, delete_resume_job, trigger_resume, schedule_resume_job, fire,
  delete_schedule_place, pause_place, resume_place,
}
use backbeat.Location.Separate.{
  set_paused, set_schedule, set_service-same, is_paused-there, pause-there, resume-there,
}

abbrev pub resumed : Option String → ServiceStatus
resumed date = record { paused = is_given date; scheduled_resume = date }

module _ (d : LocationStatus) (svc : Service) (v : ServiceStatus)
    (there : get_service d svc ≡ some v) where
  resume-paused :
      (date : Option String)
      → v.paused ≡ true
      → get_service (resume_service date d svc) svc ≡ some (resumed date)
  resume-paused date is =
      rw (resume-there d svc v there date, is)
        (set_service-same (set_service d svc (set_paused (is_given date))) svc (set_schedule date)
          svc (record v { paused = is_given date }) refl
          (set_service-same d svc (set_paused (is_given date)) svc v refl there))

  pause-unpaused :
      v.paused ≡ false → get_service (pause_service d svc) svc ≡ some (record v { paused = true })
  pause-unpaused is =
      rw (pause-there d svc v there, is) (set_service-same d svc (set_paused true) svc v refl there)

  unschedule-there :
      get_service (set_service_resume_schedule d svc none) svc
      ≡ some (record v { scheduled_resume = none })
  unfolding set_service_resume_schedule
  unschedule-there = set_service-same d svc (set_schedule none) svc v refl there

module _ (p : Place) (svc : Service) (v : ServiceStatus)
    (there : get_service p.status svc ≡ some v) where
  -- What a resume at a later date leaves.
  module _ (date retry : String) (is : v.paused ≡ true) where
    scheduled-eq : resume_place (some date) true retry svc p ≡ record {
      status = resume_service (some date) p.status svc;
      document = resume_service (some date) p.status svc;
      jobs = put (remove p.jobs (service_name svc)) (service_name svc) date;
    }
    unfolding resume_place schedule_resume_job update_document delete_resume_job
    scheduled-eq = rw (is_paused-there p.status svc v there, is) refl

fire-there :
    (q : Place) (svc : Service) (date retry : String)
    → get q.jobs (service_name svc) ≡ some date
    → fire q svc true retry ≡ record {
      status = resume_service none q.status svc;
      document = resume_service none q.status svc;
      jobs = remove q.jobs (service_name svc);
    }
unfolding fire trigger_resume update_document
fire-there q svc date retry h = rw (h, fire) refl

get-remove_self :
    (p : Place) (svc : Service) → get (remove p.jobs (service_name svc)) (service_name svc) ≡ none
get-remove_self p svc = simp (get-remove, beq_self)

module _ (p : Place) (svc : Service) (v : ServiceStatus) (date retry : String)
    (there : get_service p.status svc ≡ some v) (is : v.paused ≡ true) where
  abbrev pub scheduled : Place
  scheduled = resume_place (some date) true retry svc p

  get-scheduled : get scheduled.jobs (service_name svc) ≡ some date
  get-scheduled =
      rw (scheduled-eq p svc v there date retry is)
        (get-put_self (remove p.jobs (service_name svc)) (service_name svc) date)

  status-scheduled : get_service scheduled.status svc ≡ some (resumed (some date))
  status-scheduled =
      rw (scheduled-eq p svc v there date retry is)
        (resume-paused p.status svc v there (some date) is)

  abbrev pub fired : Place → Place
  fired q = fire q svc true retry

  -- Let a paused service be resumed at a later date, with updates of MongoDB that succeed. A job for this
  -- date is to come, and the service shows it and stays paused. When the job runs the service goes on
  -- without a date, the document of the location is its state, and the job is gone.
  pub scheduled_lem :
      (get scheduled.jobs (service_name svc) ≡ some date)
      × (get_service scheduled.status svc ≡ some (resumed (some date)))
      × (get_service (fired scheduled).status svc ≡ some unpaused)
      × ((fired scheduled).document ≡ (fired scheduled).status)
      × (get (fired scheduled).jobs (service_name svc) ≡ none)
  scheduled_lem = (
    get-scheduled,
    status-scheduled,
    rw (fire-there scheduled svc date retry get-scheduled)
        (resume-paused scheduled.status svc (resumed (some date)) status-scheduled none refl),
    rw (fire-there scheduled svc date retry get-scheduled) refl,
    rw (fire-there scheduled svc date retry get-scheduled) (get-remove_self scheduled svc),
  )

  -- Let a paused service be resumed at a later date, and this be taken back. No job is to come, and the
  -- service stays paused, without a date.
  pub delete_schedule_lem :
      (let q = delete_schedule_place true svc scheduled in
        (get q.jobs (service_name svc) ≡ none)
        × (get_service q.status svc ≡ some (record { paused = true; scheduled_resume = none }))
        × (q.document ≡ q.status))
  unfolding delete_schedule_place delete_resume_job update_document
  delete_schedule_lem =
      rw (is_paused-there scheduled.status svc (resumed (some date)) status-scheduled) (
        get-remove_self scheduled svc,
        unschedule-there scheduled.status svc (resumed (some date)) status-scheduled,
        refl,
      )

  -- The service is resumed at once after all, and later paused again.
  abbrev pub paused_again : Place
  paused_again = pause_place true svc (resume_place none true retry svc scheduled)

  -- Let a paused service be resumed at a later date, then be resumed at once after all, and be paused
  -- again. The job for the date is still to come, although the service shows no date, and when it
  -- runs it resumes the service.
  pub stale_job_resumes :
      (get_service paused_again.status svc
        ≡ some (record { paused = true; scheduled_resume = none }))
      × (get paused_again.jobs (service_name svc) ≡ some date)
      × (get_service (fired paused_again).status svc ≡ some unpaused)
  unfolding resume_place pause_place update_document
  stale_job_resumes =
      let now : LocationStatus = resume_service none scheduled.status svc in
      let on : get_service now svc ≡ some unpaused =
        resume-paused scheduled.status svc (resumed (some date)) status-scheduled none refl in
      let off : get_service (pause_service now svc) svc ≡ some (set_paused true unpaused) =
        pause-unpaused now svc unpaused on refl in
      let eq : paused_again ≡ record {
        status = pause_service now svc;
        document = pause_service now svc;
        jobs = scheduled.jobs;
      } =
        rw
          (
            is_paused-there scheduled.status svc (resumed (some date)) status-scheduled,
            is_paused-there now svc unpaused on,
          )
          refl in
      rw eq (
        off,
        get-scheduled,
        rw
            (fire-there
              (record {
                status = pause_service now svc;
                document = pause_service now svc;
                jobs = scheduled.jobs;
              })
              svc date retry get-scheduled)
            (resume-paused (pause_service now svc) svc (set_paused true unpaused) off none refl),
      )
