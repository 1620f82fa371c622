-- ===== src/LogReader/Tests.antt =====
-- A log of three records, a crash, and the theorem at them.
use backbeat.Base.{ℕ, ◌≡◌, refl, Bool, true, false, none, some, List, [], ◌∷◌, string_eq}
use backbeat.Base.Assoc.{get, put}
use backbeat.LogReader.{
  LogRecord, Extension, Batch, publish_all, process_publish_entries, to_filter, process_log_entries,
  read_log_offset, setup, start_of, process_filter_entries, process_save_log_offset, records_from,
}
use backbeat.LogReader.Delivery.Batches.{DeliveredBetween}
use backbeat.LogReader.Delivery.Runs.{Event, batch, started, act, acts, fresh, saved-was_delivered}

-- Each entry goes to one topic.
abbrev copies : Extension
copies e = some (record { topic = "copies"; key = e.key; message = e.value } ∷ [])

abbrev pub log : ℕ → LogRecord
log i = record {
  db = "b";
  timestamp = none;
  entries = record { type = "put"; key = "k"; value = some "v"; timestamp = none } ∷ [];
}

abbrev two_records : Bool → Batch
two_records well = record {
  read_ok = true;
  tailable = true;
  starts = true;
  count = 2;
  stream_ok = true;
  sent = λ t. well;
  listing_done = true;
  save_ok = true;
}

-- The second batch is not sent, and is read again after the restart.
abbrev pub with_crash : List Event
with_crash =
    started 1
    ∷ batch (two_records true)
    ∷ batch (two_records false)
    ∷ started 9
    ∷ batch (two_records true)
    ∷ []

saved_five : (acts (λ k. k) (λ k. k) (copies ∷ []) log (fresh []) with_crash).stores.saved ≡ some 5
unfolding act records_from process_log_entries read_log_offset setup start_of process_filter_entries
    process_publish_entries process_save_log_offset publish_all to_filter get put
saved_five = refl

saved-was_delivered_example :
    DeliveredBetween
      (λ k. k)
      (λ k. k)
      (copies ∷ [])
      log
      (acts (λ k. k) (λ k. k) (copies ∷ []) log (fresh []) with_crash).stores.kafka
      (acts (λ k. k) (λ k. k) (copies ∷ []) log (fresh []) with_crash).base
      5
saved-was_delivered_example =
    saved-was_delivered (λ k. k) (λ k. k) (copies ∷ []) log [] with_crash 5 saved_five
