-- ===== src/Consumer/Tests.antt =====
-- A consumer of two messages at a time, and the theorems at it.
use backbeat.Base.{
  ℕ, ◌+◌, ◌-◌, ◌≤◌, ◌<◌, ◌≡◌, refl, true, false, some, List, [], ◌∷◌, arith, ltb, if◌then◌else◌,
  All, filter_by, nat_eq, string_eq,
}
use backbeat.Base.Assoc.{get, put}
use backbeat.Ledger.{fresh, partition_offsets, on_offset_processed, on_offset_consumed}
use backbeat.Ledger.Safety.{was_processed, IsContiguous}
use backbeat.Consumer.{
  Entry, Message, Queue, World, Action, tried, received, act, acts, remove_at, try_consume,
  get_available_slots_in_pipeline, on_consumed, start_entry, on_entry_processing_done,
  on_entry_committable,
}
use backbeat.Consumer.Flow.{sum, IsBounded, AllFit, acts-IsBounded}
use backbeat.Consumer.Commits.{is_of, events}
use backbeat.Consumer.Stored.{stored-was_processed}
use backbeat.Consumer.Rebalance.{
  Happening, commit, unassign, emitted, disconnect, timeout, queue_drained, time_over, published,
  happens, on_revoke, on_revoke-effects,
}

-- Tasks running and waiting, two at a time.
record Tasks : Type 0 where
  running : ℕ
  waiting : ℕ

push_task : Tasks → Message → Tasks
push_task q m =
    if ltb q.running 2
    then record q { running = q.running + 1 }
    else record q { waiting = q.waiting + 1 }

finish_task : Tasks → Message → Tasks
finish_task q m =
    if ltb 0 q.waiting
    then record q { waiting = q.waiting - 1 }
    else record q { running = q.running - 1 }

push-load :
    (q : Tasks) (m : Message)
    → (push_task q m).running + (push_task q m).waiting ≤ q.running + q.waiting + 1
unfolding push_task
push-load q m = ground arith

finish-load :
    (q : Tasks) (m : Message)
    → (finish_task q m).running + (finish_task q m).waiting ≤ q.running + q.waiting
unfolding finish_task
finish-load q m = ground arith

abbrev tasks : Queue Tasks
tasks = record {
  running = λ q. q.running;
  waiting = λ q. q.waiting;
  push = push_task;
  finish = finish_task;
  load-push = push-load;
  load-finish = finish-load;
}

abbrev new : World Tasks
new = record {
  consumer = record {
    concurrency = 2;
    processing_queue = record { running = 0; waiting = 0 };
    consume_pending_requests = 0;
    offset_ledger = [];
    messages_consumed = 0;
    try_consumed_timeout = false;
    stored = [];
  };
  requests = [];
}

abbrev entry : ℕ → Entry
entry o = record { topic = some "t"; partition = some 0; offset = some o }

abbrev message : ℕ → Message
message o = record { topic = "t"; partition = 0; offset = o }

-- Offsets 4 and 5 come; 5 ends first, then 4.
abbrev history : List Action
history =
    tried true
    ∷ received 0 (some (entry 4 ∷ entry 5 ∷ []))
    ∷ Action.done true false (message 5)
    ∷ Action.done true false (message 4)
    ∷ []

stored_in_order : (acts tasks new history).consumer.stored ≡ message 6 ∷ message 4 ∷ []
unfolding acts act try_consume get_available_slots_in_pipeline on_consumed start_entry
    on_entry_processing_done on_entry_committable remove_at push_task finish_task
    on_offset_processed filter_by get on_offset_consumed put
stored_in_order = refl

fits : AllFit tasks new history
unfolding acts act try_consume get_available_slots_in_pipeline on_consumed start_entry
    on_entry_processing_done on_entry_committable remove_at push_task finish_task
    on_offset_processed filter_by get on_offset_consumed put
fits = (tt, ((λ n h. ground (arith, h)), (tt, (tt, tt))))

acts-IsBounded_example : IsBounded tasks (acts tasks new history)
unfolding sum
acts-IsBounded_example =
    acts-IsBounded tasks new history (record { counted = refl; bounded = omega arith }) fits

gapless : IsContiguous 4 fresh (events "t" 0 tasks new history)
unfolding acts act try_consume get_available_slots_in_pipeline on_consumed start_entry
    on_entry_processing_done on_entry_committable remove_at push_task finish_task
    on_offset_processed filter_by get on_offset_consumed put
gapless = (omega arith, omega arith, (omega arith, omega arith, tt))

stored-was_processed_example :
    All
      (λ m.
        is_of "t" 0 m ≡ true
        → (o : ℕ) → 4 ≤ o
        → o < m.offset
        → was_processed (events "t" 0 tasks new history) o ≡ true)
      (acts tasks new history).consumer.stored
unfolding partition_offsets get
stored-was_processed_example = stored-was_processed "t" 0 4 tasks new history refl refl gapless

abbrev slow : List Happening
slow = time_over ∷ queue_drained ∷ published ∷ []

on_revoke-effects_example :
    (happens true (on_revoke true false) slow).effects
    ≡ commit ∷ disconnect ∷ unassign ∷ emitted timeout ∷ []
on_revoke-effects_example = on_revoke-effects true false slow
