-- ===== src/Location/Separate.antt =====
-- Pausing and resuming a service whose object no other service refers to.
use backbeat.Base.{
  ℕ, zero, suc, ◌≡◌, ◌≢◌, ◌∙◌, refl, sym, ap, inl, inr, Bool, true, Option, none, some, List, [],
  ◌∷◌, arith, if◌then◌else◌, Option-cases, Bool-cases, get_elem?, ◌==◌, nat_eq, nat_beq_iff, String,
}
use mathlib.Core.Path.{subst₂}
use backbeat.Location.{
  ServiceStatus, Service, crr, ingestion, lifecycle, other, LocationStatus, ref, Stored, new_status,
  read_cell, get_service, write_cell, set_service, set_at, get_service_pause_status, is_paused,
  with_service, set_service_pause_status, set_service_resume_schedule, pause_service, is_given,
  resume_service,
}

-- Two references that are not to the same object.
abbrev pub Apart : Option ℕ → Option ℕ → Type 0
Apart (some i) (some j) = i ≢ j
Apart _ _ = Unit

get_elem?-write_cell :
    (cs : List ServiceStatus) (i j : ℕ) (v : ServiceStatus)
    → get_elem? (write_cell cs i v) j
      ≡ (if j == i then elim (get_elem? cs j) [ none ↦ none | some _ ↦ some v ] else get_elem? cs j)
unfolding write_cell
get_elem?-write_cell [] i j v = ground arith
get_elem?-write_cell (c ∷ cs) zero zero v = ground arith
get_elem?-write_cell (c ∷ cs) zero (suc j) v = ground arith
get_elem?-write_cell (c ∷ cs) (suc i) zero v = ground arith
get_elem?-write_cell (c ∷ cs) (suc i) (suc j) v = get_elem?-write_cell cs i j v ∙ ground arith

module _ (d : LocationStatus) (f : ServiceStatus → ServiceStatus) where
  ref-set_at : (r : Option ℕ) (t : Service) → ref (set_at d r f) t ≡ ref d t
  unfolding set_at
  ref-set_at none t = refl
  ref-set_at (some i) crr = ground arith
  ref-set_at (some i) ingestion = ground arith
  ref-set_at (some i) lifecycle = ground arith
  ref-set_at (some i) (other s) = refl

  read-set_at-Apart :
      (r s : Option ℕ) → Apart r s → read_cell (set_at d r f).cells s ≡ read_cell d.cells s
  unfolding set_at read_cell
  read-set_at-Apart none s h = refl
  read-set_at-Apart (some i) none h = refl
  read-set_at-Apart (some i) (some j) h = elim (Option-cases (get_elem? d.cells i)) [
    | inl e ↦ ground (arith, e)
    | inr (v, e) ↦ (ground (arith, h, get_elem?-write_cell d.cells i j (f v), nat_beq_iff j i))
  ]

  read-set_at_self :
      (r : Option ℕ) (v : ServiceStatus)
      → read_cell d.cells r ≡ some v
      → read_cell (set_at d r f).cells r ≡ some (f v)
  unfolding set_at read_cell
  read-set_at_self none v h = absurd (ground arith)
  read-set_at_self (some i) v h =
      ground (arith, h, get_elem?-write_cell d.cells i i (f v), nat_beq_iff i i)

module _ (d : LocationStatus) (svc : Service) (f : ServiceStatus → ServiceStatus) where
  set_service-Apart :
      (t : Service)
      → Apart (ref d svc) (ref d t)
      → get_service (set_service d svc f) t ≡ get_service d t
  unfolding set_service get_service
  set_service-Apart t h =
      ap (read_cell (set_at d (ref d svc) f).cells) (ref-set_at d f (ref d svc) t)
      ∙ read-set_at-Apart d f (ref d svc) (ref d t) h

  pub set_service-same :
      (t : Service) (v : ServiceStatus)
      → ref d t ≡ ref d svc
      → get_service d svc ≡ some v
      → get_service (set_service d svc f) t ≡ some (f v)
  unfolding set_service get_service
  set_service-same t v same h =
      ap (read_cell (set_at d (ref d svc) f).cells) (ref-set_at d f (ref d svc) t ∙ same)
      ∙ read-set_at_self d f (ref d svc) v h

  ref-set_service : (t : Service) → ref (set_service d svc f) t ≡ ref d t
  unfolding set_service
  ref-set_service t = ref-set_at d f (ref d svc) t

abbrev pub set_paused : Bool → ServiceStatus → ServiceStatus
set_paused paused v = record v { paused = paused }

abbrev pub set_schedule : Option String → ServiceStatus → ServiceStatus
set_schedule date v = record v { scheduled_resume = date }

module _ (d : LocationStatus) (svc : Service) (v : ServiceStatus)
    (there : get_service d svc ≡ some v) where
  pub is_paused-there : is_paused d svc ≡ v.paused
  unfolding is_paused get_service_pause_status
  is_paused-there = ground (arith, there)

  pub set_pause-there :
      (paused : Bool)
      → set_service_pause_status d svc paused ≡ set_service d svc (set_paused paused)
  unfolding set_service_pause_status with_service
  set_pause-there paused = rw (there, with_service) refl

  pub pause-there :
      pause_service d svc ≡ (if v.paused then d else set_service d svc (set_paused true))
  unfolding pause_service
  pause-there = rw (is_paused-there, set_pause-there true) refl

  pub resume-there :
      (date : Option String)
      → resume_service date d svc ≡ (
          if v.paused
          then set_service (set_service d svc (set_paused (is_given date))) svc (set_schedule date)
          else d)
  unfolding resume_service set_service_resume_schedule
  resume-there date = rw (is_paused-there, set_pause-there (is_given date)) refl

  -- A service that is known is paused after `pauseLocation`, and its schedule stays; what another
  -- service shows, with an object of its own, does not change.
  pub pause_service_lem :
      (t : Service)
      → Apart (ref d svc) (ref d t)
      → (get_service (pause_service d svc) svc ≡ some (record v { paused = true }))
        × (get_service (pause_service d svc) t ≡ get_service d t)
  pause_service_lem t h = elim (Bool-cases v.paused) [
    | inl e ↦ rw (pause-there, e) (ground (arith, there, e), refl)
    | inr e ↦
        rw (pause-there, e)
          (
            set_service-same d svc (set_paused true) svc v refl there,
            set_service-Apart d svc (set_paused true) t h,
          )
  ]

  abbrev resumed : Option String → ServiceStatus
  resumed date = record { paused = is_given date; scheduled_resume = date }

  -- `resumeLocation` on a service that is paused: without a date it goes on at once, with a date it
  -- stays paused until then. One that is not paused keeps its state, and so do services with objects
  -- of their own.
  pub resume_service_lem :
      (date : Option String) (t : Service)
      → Apart (ref d svc) (ref d t)
      → (get_service (resume_service date d svc) svc
          ≡ (if v.paused then some (resumed date) else some v))
        × (get_service (resume_service date d svc) t ≡ get_service d t)
  resume_service_lem date t h = elim (Bool-cases v.paused) [
    | inr e ↦ simp (resume-there, e) (there, refl)
    | inl e ↦
        let first = set_service-same d svc (set_paused (is_given date)) svc v refl there in
        rw (resume-there, e)
          (
            set_service-same (set_service d svc (set_paused (is_given date))) svc
                (set_schedule date) svc (record v { paused = is_given date }) refl first,
            set_service-Apart (set_service d svc (set_paused (is_given date))) svc
                  (set_schedule date) t
                  (subst₂ Apart (sym (ref-set_service d svc (set_paused (is_given date)) svc))
                    (sym (ref-set_service d svc (set_paused (is_given date)) t)) h)
                ∙ set_service-Apart d svc (set_paused (is_given date)) t h,
          )
  ]

-- The three services of a status that was made from stored values have objects of their own.
pub new_status-Apart :
    (services : List String) (v : Stored) (a b : Service)
    → a ≢ b
    → Apart (ref (new_status services (some v)) a) (ref (new_status services (some v)) b)
unfolding new_status
new_status-Apart services v crr crr ne = absurd (ne refl)
new_status-Apart services v crr ingestion ne = omega arith
new_status-Apart services v crr lifecycle ne = omega arith
new_status-Apart services v ingestion crr ne = omega arith
new_status-Apart services v ingestion ingestion ne = absurd (ne refl)
new_status-Apart services v ingestion lifecycle ne = omega arith
new_status-Apart services v lifecycle crr ne = omega arith
new_status-Apart services v lifecycle ingestion ne = omega arith
new_status-Apart services v lifecycle lifecycle ne = absurd (ne refl)
new_status-Apart services v (other s) b ne = tt
new_status-Apart services v a (other s) ne = tt
