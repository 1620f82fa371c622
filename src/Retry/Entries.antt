-- ===== src/Retry/Entries.antt =====
-- _retryEntry of extensions/lifecycle/tasks/LifecycleTask.js: the entries of a task are retried each up
-- to a number of times, and together up to another, as the answers for them come in any order.
use backbeat.Base.{
  ℕ, ◌+◌, ◌*◌, ◌≤◌, ◌<◌, ◌≡◌, Bool, true, false, ◌&&◌, none, some, List, [], ◌∷◌, arith, ltb,
  if◌then◌else◌, Bool-cases, inl, inr, refl, ◌==◌, nat_eq,
}
use backbeat.Retry.{
  RetryParams, Failure, Answer, success, failed, Retry, Step, Outcome, again, begin, handle_res,
  done_once, on_failure, give_up, mark_retryable,
}

abbrev pub max_retries : ℕ
max_retries = 4

abbrev concurrency_default : ℕ
concurrency_default = 10

abbrev pub max_retries_total : ℕ
max_retries_total = concurrency_default * max_retries * 10

-- `shouldRetryFunc`: a property that is undefined is no `true`.
unfoldable pub should_retry_entry : ℕ → Failure → Bool
should_retry_entry total_retries err = elim err.retryable [
  | none ↦ false
  | some retryable ↦ retryable && ltb total_retries max_retries_total
]

-- `onRetryFunc`
unfoldable pub count_retry : ℕ → Failure → ℕ
count_retry total_retries err = total_retries + 1

unfoldable pub retry_entry : RetryParams → ℕ → Retry
unfolding begin
retry_entry params now =
    begin params (record { no_timeout = false; max_retries = some max_retries }) now

-- A task with `_totalRetries` and the calls of `retry` for its entries.
pub record Task : Type 0 where
  pub total_retries : ℕ
  pub entries : ℕ → Retry

-- The answer for an entry, at a time.
pub record Event (R : Type 0) : Type 0 where
  pub entry : ℕ
  pub now : ℕ
  pub answer : Answer R

unfoldable pub retries_of : {R : Type 0} → Outcome R → ℕ
retries_of again = 1
retries_of _ = 0

less_of_retry :
    (total : ℕ) (err : Failure) → should_retry_entry total err ≡ true → total < max_retries_total
unfolding should_retry_entry
less_of_retry total err h = ground arith

module _ {R : Type 0} where
  unfoldable pub handle : ℕ → Retry → Event R → Step ℕ R
  handle total r e = handle_res should_retry_entry count_retry total r e.now e.answer

  unfoldable pub act : Task → Event R → Task
  unfolding handle
  act t e =
      let step = handle t.total_retries (t.entries e.entry) e in
      record {
        total_retries = step.shared;
        entries = λ i. if i == e.entry then step.retry else t.entries i;
      }

  abbrev pub acts : Task → List (Event R) → Task
  acts t [] = t
  acts t (e ∷ rest) = acts (act t e) rest

  -- How many retries are scheduled.
  abbrev pub retries : Task → List (Event R) → ℕ
  retries t [] = 0
  retries t (e ∷ rest) =
      retries_of (handle t.total_retries (t.entries e.entry) e).outcome + retries (act t e) rest

module _ {R : Type 0} where
  IsCounted : ℕ → Step ℕ R → Type 0
  IsCounted total step =
      (step.shared ≡ total + retries_of step.outcome)
      × (total ≤ max_retries_total → step.shared ≤ max_retries_total)

  stop-IsCounted : (total : ℕ) (r : Retry) (a : Answer R) → IsCounted total (done_once total r a)
  unfolding IsCounted done_once retries_of
  stop-IsCounted total r a = elim (Bool-cases r.cb_called) [
    | inl e ↦ rw (e, done_once) (omega arith, λ h. h)
    | inr e ↦ rw (e, done_once) (omega arith, λ h. h)
  ]

failure-IsCounted :
    (R : Type 0) (total : ℕ) (r : Retry) (now : ℕ) (err : Failure)
    → IsCounted total (on_failure {R = R} should_retry_entry count_retry total r now err)
unfolding IsCounted on_failure retries_of count_retry
failure-IsCounted R total r now err = elim (Bool-cases (should_retry_entry total err)) [
  | inr e ↦ rw (e, on_failure) (stop-IsCounted total r (failed err))
  | inl e ↦ elim (Bool-cases (give_up r now)) [
    | inl g ↦ rw (e, g, on_failure) (stop-IsCounted total r (failed err))
    | inr g ↦ rw (e, g, on_failure) (refl, λ h. omega (arith, less_of_retry total err e))
  ]
]

module _ {R : Type 0} where
  handle_res-IsCounted :
      (total : ℕ) (r : Retry) (now : ℕ) (a : Answer R)
      → IsCounted total (handle_res should_retry_entry count_retry total r now a)
  unfolding handle_res
  handle_res-IsCounted total r now (success x) = stop-IsCounted total r (success x)
  handle_res-IsCounted total r now (failed err) =
      failure-IsCounted R total r now (mark_retryable err)

  -- Whatever the answers for the entries of a task, and in whatever order they come: `_totalRetries`
  -- counts the retries, and these are never more than `MAX_RETRIES_TOTAL`, if they were not before.
  pub total_bounded :
      (t : Task) (run : List (Event R))
      → t.total_retries ≤ max_retries_total
      → ((acts t run).total_retries ≡ t.total_retries + retries t run)
        × ((acts t run).total_retries ≤ max_retries_total)
  unfolding act handle IsCounted
  total_bounded t [] h = (omega arith, h)
  total_bounded t (e ∷ rest) h =
      let (counted, within) =
        handle_res-IsCounted t.total_retries (t.entries e.entry) e.now e.answer in
      let (sum, few) = total_bounded (act t e) rest (within h) in (omega (arith, sum, counted), few)
