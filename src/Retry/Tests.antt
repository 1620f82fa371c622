-- ===== src/Retry/Tests.antt =====
-- A retry of an action that fails twice, and the theorems at it.
use backbeat.Base.{
  ℕ, ◌+◌, ◌≤◌, ◌≡◌, refl, Bool, true, false, none, some, List, [], ◌∷◌, arith, ltb, if◌then◌else◌,
}
use backbeat.Retry.{RetryParams, Args, Failure, Answer, success, failed, begin, handle_res}
use backbeat.Retry.Bounds.{Action, answered, fired}
use backbeat.Retry.Ends.{run_from, EndsBy, max_ends}
use backbeat.Retry.Entries.{
  Task, Event, acts as acts_of_task, retries, retry_entry, count_retry, retries_of,
  should_retry_entry, max_retries_total, total_bounded, handle, act as act_of_task,
}

abbrev params : RetryParams
params = record { timeout_s = 300; max_retries = none }

abbrev twice : Args
twice = record { no_timeout = false; max_retries = some 2 }

abbrev no_number : Args
no_number = record { no_timeout = false; max_retries = none }

abbrev reset : Failure
reset = record { retryable = none; code = "ECONNRESET" }

abbrev denied : Failure
denied = record { retryable = none; code = "AccessDenied" }

abbrev if_marked : Unit {0} → Failure → Bool
if_marked s err = elim err.retryable [ none ↦ false | some b ↦ b ]

abbrev no_note : Unit {0} → Failure → Unit {0}
no_note s err = tt

-- Two errors of the network, then a result.
abbrev third_time : ℕ → Answer ℕ
third_time k = if ltb k 2 then failed reset else success 7

abbrev a_second : ℕ → ℕ
a_second k = 1000

abbrev always_reset : ℕ → Answer ℕ
always_reset k = failed reset

abbrev always_denied : ℕ → Answer ℕ
always_denied k = failed denied

ends_well :
    run_from if_marked no_note third_time a_second a_second 3 tt (begin params twice 0) 0
    ≡ some (record { answer = success 7; retries = 2 })
unfolding run_from begin handle_res
ends_well = refl

not_retried :
    run_from if_marked no_note always_denied a_second a_second 3 tt (begin params twice 0) 0
    ≡ some (record { answer = failed denied; retries = 0 })
unfolding run_from begin handle_res
not_retried = refl

max_ends_example :
    EndsBy if_marked no_note third_time a_second a_second 2 0
      (run_from if_marked no_note third_time a_second a_second 3 tt (begin params twice 0) 0)
max_ends_example = max_ends if_marked no_note third_time a_second a_second tt params twice 0 1 refl

-- The first call answers twice.
abbrev two_answers : List (Action ℕ)
two_answers =
    answered 10 (failed reset) ∷ answered 11 (success 5) ∷ fired ∷ answered 12 (success 6) ∷ []

abbrev busy : Task
busy = record { total_retries = 399; entries = λ i. retry_entry params 0 }

abbrev slow_down : Failure
slow_down = record { retryable = some true; code = "SlowDown" }

-- Only one more retry is made in the task.
abbrev two_failures : List (Event ℕ)
two_failures =
    record { entry = 1; now = 5; answer = failed slow_down }
    ∷ record { entry = 2; now = 6; answer = failed slow_down }
    ∷ []

one_retry : retries busy two_failures ≡ 1
unfolding handle act_of_task handle_res retry_entry should_retry_entry count_retry retries_of
one_retry = refl

total_bounded_example :
    ((acts_of_task busy two_failures).total_retries ≡ 399 + retries busy two_failures)
    × ((acts_of_task busy two_failures).total_retries ≤ max_retries_total)
total_bounded_example = total_bounded busy two_failures (omega arith)
