-- ===== src/Replication/Populator/Tests.antt =====
-- The populator at a log of pending objects, with a crash.
use mathlib.Core.Option.{none-ne-some}
use backbeat.Base.{
  ◌≤◌, ◌≡◌, refl, sym, inl, false, none, some, List, [], ◌∷◌, arith, subst, ◌==◌, string_eq,
}
use backbeat.Base.Assoc.{get, put}
use backbeat.LogReader.{
  Entry, Extension, publish_all, process_publish_entries, to_filter, process_log_entries,
  read_log_offset, setup, start_of, process_filter_entries, process_save_log_offset, records_from,
  Topics,
}
use backbeat.LogReader.Delivery.Runs.{act, acts, fresh}
use backbeat.LogReader.Tests.{log, with_crash}
use backbeat.Replication.{pending}
use backbeat.Replication.Populator.{
  ObjectValue, Populator, is_pending, has_version, entry_can_be_replicated, is_object_cold, filter,
}
use backbeat.Replication.Populator.Sent.{IsToReplicate, HasMessage, replications_sent}

abbrev waiting : ObjectValue
waiting = record {
  is_nfs = false;
  version_id = some "1";
  is_null = false;
  replication_status = pending;
  data_store_name = none;
}

abbrev populator : Populator
populator = record {
  topic = "replication";
  users_bucket = "users";
  is_mpu_bucket = λ key. false;
  is_master_key = λ key. key == "master";
  object_key = λ key. key;
  read_value = λ text. some waiting;
  is_cold = λ name. name == "cold";
  stringify = λ e. e.key;
}

abbrev extensions : List Extension
extensions = filter populator ∷ []

abbrev kafka_after : Topics
kafka_after = (acts (λ k. k) (λ k. k) extensions log (fresh []) with_crash).stores.kafka

saved_after : (acts (λ k. k) (λ k. k) extensions log (fresh []) with_crash).stores.saved ≡ some 5
unfolding act records_from process_log_entries read_log_offset setup start_of process_filter_entries
    process_publish_entries process_save_log_offset publish_all to_filter get put filter
    entry_can_be_replicated has_version is_pending is_object_cold
saved_after = refl

base_after : (acts (λ k. k) (λ k. k) extensions log (fresh []) with_crash).base ≡ 1
unfolding act records_from process_log_entries read_log_offset setup start_of process_filter_entries
    process_publish_entries process_save_log_offset publish_all to_filter get put filter
    entry_can_be_replicated has_version is_pending is_object_cold
base_after = refl

abbrev entry : Entry
entry = record { type = "put"; key = "k"; value = some "v"; timestamp = none }

replicable : IsToReplicate populator (λ k. k) (log 3) entry "v" waiting
replicable = record {
  of_object = λ e. cc;
  is_put = refl;
  has_value = refl;
  reads = refl;
  if_master = λ e. cc;
  waits = refl;
  warm = λ name e. absurd (none-ne-some _ e);
}

replications_sent_example : HasMessage kafka_after "replication" "b/k" "k"
replications_sent_example =
    replications_sent (λ k. k) (λ k. k) populator extensions log (inl refl) [] with_crash 5
      saved_after 3 (subst (λ b. b ≤ 3) (sym base_after) (omega arith)) (omega arith) entry
      (inl refl) "v" waiting replicable
