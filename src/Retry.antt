-- ===== src/Retry.antt =====
-- lib/tasks/BackbeatTask.js: an action is retried after a delay while it fails with errors that allow it.
-- The delays of the library backo are a parameter, and what the caller decides about an error as well.
pub mod Bounds
pub mod Ends
pub mod Entries
pub mod Tests
use backbeat.Base.{
  ℕ, zero, suc, ◌+◌, ◌*◌, Bool, true, false, not, ◌&&◌, ◌||◌, String, Option, none, some, leb, ltb,
  if◌then◌else◌, ◌==◌, nat_eq, string_eq,
}

-- An error with its property `retryable`, which may be undefined, and its code.
pub record Failure : Type 0 where
  pub retryable : Option Bool
  pub code : String

-- The arguments that the action calls back with.
pub data Answer (R : Type 0) : Type 0 where
  success : R → Answer R
  failed : Failure → Answer R

-- `retryParams` of a task, without those of the back-off.
pub record RetryParams : Type 0 where
  pub timeout_s : ℕ
  pub max_retries : Option ℕ

pub record Args : Type 0 where
  pub no_timeout : Bool
  pub max_retries : Option ℕ

-- The variables of a call of `retry`.
pub record Retry : Type 0 where
  pub nb_retries : ℕ
  pub start_time : Option ℕ
  pub max_retries : Option ℕ
  pub timeout_s : ℕ
  pub cb_called : Bool

-- `args.maxRetries || this.retryParams.maxRetries`
or_param : Option ℕ → Option ℕ → Option ℕ
or_param none param = param
or_param (some zero) param = param
or_param (some (suc n)) param = some (suc n)

unfoldable pub begin : RetryParams → Args → ℕ → Retry
unfolding or_param
begin params args now = record {
  nb_retries = 0;
  start_time = if args.no_timeout then none else some now;
  max_retries = or_param args.max_retries params.max_retries;
  timeout_s = params.timeout_s;
  cb_called = false;
}

-- Errors of the network may be retried, although they are not marked.
unfoldable pub mark_retryable : Failure → Failure
mark_retryable err = elim err.retryable [
  | some _ ↦ err
  | none ↦
      if err.code == "ECONNRESET" || err.code == "EPIPE" || err.code == "ETIMEDOUT"
      then record err { retryable = some true }
      else err
]

-- A number of retries that is undefined is never reached.
unfoldable pub retries_maxed_out : Retry → Bool
retries_maxed_out r = elim r.max_retries [ none ↦ false | some m ↦ leb m r.nb_retries ]

unfoldable pub timeout_reached : Retry → ℕ → Bool
timeout_reached r now = elim r.start_time [
  | none ↦ false
  | some start ↦ leb (start + r.timeout_s * 1000) now
]

-- What comes of an answer: `done` is called with it, or it is too late for that, or the action is to run
-- again after a delay.
pub data Outcome (R : Type 0) : Type 0 where
  called : Answer R → Outcome R
  ignored : Outcome R
  again : Outcome R

unfoldable pub give_up : Retry → ℕ → Bool
unfolding retries_maxed_out timeout_reached
give_up r now = retries_maxed_out r || (timeout_reached r now && ltb 0 r.nb_retries)

-- `S` is what `shouldRetryFunc` reads and `onRetryFunc` writes.
pub record Step (S R : Type 0) : Type 0 where
  pub shared : S
  pub retry : Retry
  pub outcome : Outcome R

module _ {S R : Type 0} where
  -- `doneOnce`
  unfoldable pub done_once : S → Retry → Answer R → Step S R
  done_once s r answer =
      if r.cb_called
      then record { shared = s; retry = r; outcome = ignored }
      else record { shared = s; retry = record r { cb_called = true }; outcome = called answer }

module _ {S R : Type 0} (should_retry : S → Failure → Bool) (on_retry : S → Failure → S) where
  unfoldable pub on_failure : S → Retry → ℕ → Failure → Step S R
  unfolding give_up done_once
  on_failure s r now err =
      if not (should_retry s err)
      then done_once s r (failed err)
      else if give_up r now
      then done_once s r (failed err)
      else record {
        shared = on_retry s err;
        retry = record r { nb_retries = r.nb_retries + 1 };
        outcome = again;
      }

  -- `_handleRes`, at a time
  unfoldable pub handle_res : S → Retry → ℕ → Answer R → Step S R
  unfolding mark_retryable on_failure
  handle_res s r now (success x) = done_once s r (success x)
  handle_res s r now (failed err) = on_failure s r now (mark_retryable err)
