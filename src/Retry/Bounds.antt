-- ===== src/Retry/Bounds.antt =====
-- Answers and timers in any order, also more answers than calls, which the S3 client may give.
use backbeat.Base.{
  ℕ, zero, suc, ◌+◌, ◌≤◌, ◌<◌, refl, ◌≡◌, Bool, false, some, List, [], ◌∷◌, arith, length,
  if◌then◌else◌, Bool-cases, inl, inr,
}
use backbeat.Retry.{
  RetryParams, Args, begin, Failure, Answer, success, failed, Retry, Step, Outcome, called, ignored,
  again, handle_res, done_once, on_failure, give_up, retries_maxed_out, mark_retryable,
}

-- A call of `retry`: `runs` counts the calls of the action, `timers` those that are to come, and `calls`
-- holds what `done` was called with.
pub record World (S R : Type 0) : Type 0 where
  pub shared : S
  pub retry : Retry
  pub runs : ℕ
  pub timers : ℕ
  pub calls : List (Answer R)

-- A call of `retry` that has just called the action.
abbrev pub started : {S R : Type 0} → S → RetryParams → Args → ℕ → World S R
started s params args now = record {
  shared = s;
  retry = begin params args now;
  runs = 1;
  timers = 0;
  calls = [];
}

pub data Action (R : Type 0) : Type 0 where
  answered : ℕ → Answer R → Action R
  fired : Action R

pub lt_of_going_on :
    (r : Retry) (now m : ℕ) → r.max_retries ≡ some m → give_up r now ≡ false → r.nb_retries < m
unfolding give_up retries_maxed_out
lt_of_going_on r now m e g = ground (arith, rw (e, retries_maxed_out) at g)

module _ {S R : Type 0} (should_retry : S → Failure → Bool) (on_retry : S → Failure → S) where
  after_outcome : World S R → Step S R → Outcome R → World S R
  after_outcome w step (called answer) = record w {
    shared = step.shared;
    retry = step.retry;
    calls = answer ∷ w.calls;
  }
  after_outcome w step ignored = record w { shared = step.shared; retry = step.retry }
  after_outcome w step again = record w {
    shared = step.shared;
    retry = step.retry;
    timers = w.timers + 1;
  }

  unfire : World S R → ℕ → World S R
  unfire w zero = w
  unfire w (suc n) = record w { timers = n; runs = w.runs + 1 }

  unfoldable pub act : World S R → Action R → World S R
  unfolding after_outcome unfire
  act w (answered now answer) =
      let step = handle_res should_retry on_retry w.shared w.retry now answer in
      after_outcome w step step.outcome
  act w fired = unfire w w.timers

  abbrev pub acts : World S R → List (Action R) → World S R
  acts w [] = w
  acts w (a ∷ rest) = acts (act w a) rest

  -- The action has been called once, and once more for each retry that is not still to come.
  pub record IsBounded (m : ℕ) (w : World S R) : Type 0 where
    pub maximum : w.retry.max_retries ≡ some m
    pub counted : w.runs + w.timers ≡ w.retry.nb_retries + 1
    pub within : w.retry.nb_retries ≤ m
    pub once : length w.calls ≡ (if w.retry.cb_called then 1 else 0)

  stop-IsBounded :
      (m : ℕ) (w : World S R) (answer : Answer R)
      → IsBounded m w
      → (let step = done_once w.shared w.retry answer in
          IsBounded m (after_outcome w step step.outcome))
  unfolding done_once after_outcome
  stop-IsBounded m w answer h = elim (Bool-cases w.retry.cb_called) [
    | inl e ↦ rw (e, done_once) (ground arith)
    | inr e ↦ rw (e, done_once) (ground arith)
  ]

  failure-IsBounded :
      (m : ℕ) (w : World S R) (now : ℕ) (err : Failure)
      → IsBounded m w
      → (let step = on_failure should_retry on_retry w.shared w.retry now err in
          IsBounded m (after_outcome w step step.outcome))
  unfolding on_failure after_outcome
  failure-IsBounded m w now err h = elim (Bool-cases (should_retry w.shared err)) [
    | inr e ↦ rw (e, on_failure) (stop-IsBounded m w (failed err) h)
    | inl e ↦ elim (Bool-cases (give_up w.retry now)) [
      | inl g ↦ rw (e, g, on_failure) (stop-IsBounded m w (failed err) h)
      | inr g ↦
          let less : w.retry.nb_retries < m = lt_of_going_on w.retry now m h.maximum g in
          rw (e, g, on_failure) (ground arith)
    ]
  ]

  unfire-IsBounded :
      (m : ℕ) (w : World S R) (n : ℕ) → w.timers ≡ n → IsBounded m w → IsBounded m (unfire w n)
  unfolding unfire
  unfire-IsBounded m w zero e h = h
  unfire-IsBounded m w (suc n) e h = ground arith

  act-IsBounded : (m : ℕ) (w : World S R) (a : Action R) → IsBounded m w → IsBounded m (act w a)
  unfolding act handle_res
  act-IsBounded m w (answered now (success x)) h = stop-IsBounded m w (success x) h
  act-IsBounded m w (answered now (failed err)) h = failure-IsBounded m w now (mark_retryable err) h
  act-IsBounded m w fired h = unfire-IsBounded m w w.timers refl h

  acts-IsBounded :
      (m : ℕ) (w : World S R) (run : List (Action R)) → IsBounded m w → IsBounded m (acts w run)
  acts-IsBounded m w [] h = h
  acts-IsBounded m w (a ∷ rest) h = acts-IsBounded m (act w a) rest (act-IsBounded m w a h)

  -- Let the arguments of a call of `retry` say a number of retries that is not 0. Whatever the action
  -- answers, and however often it answers each of its calls, it is called at most once more than this
  -- number, and `done` is called at most once.
  pub acts_bounds :
      (s : S) (params : RetryParams) (args : Args) (now m : ℕ) (run : List (Action R))
      → args.max_retries ≡ some (suc m)
      → (let w = acts (started s params args now) run in
          (w.runs ≤ suc m + 1) × (length w.calls ≤ 1))
  unfolding begin
  acts_bounds s params args now m run e =
      let h = acts-IsBounded (suc m) (started s params args now) run (record {
        maximum = rw (e, begin) refl;
        counted = refl;
        within = omega arith;
        once = refl;
      }) in
      (omega (arith, h.counted, h.within), ground (arith, h.once))
