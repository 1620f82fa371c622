-- ===== src/Ledger/Tests.antt =====
-- Runs of the ledger, and its theorems at concrete inputs.
use backbeat.Base.{
  ℕ, ◌+◌, ◌≡◌, ◌≢◌, refl, true, String, none, some, List, [], ◌∷◌, arith, contains, filter_by, map,
  nat_eq, string_eq,
}
use backbeat.Ledger.{
  PartitionOffsets, fresh, committable, consume, process, Event, consumed, processed, run,
  partition_offsets, get_processing_count, on_offset_consumed, invalid,
}
use backbeat.Ledger.Order.{IsOrdered, IsOrdered-fresh, run-IsOrdered}
use backbeat.Ledger.Safety.{was_processed, committable-was_processed}
use backbeat.Ledger.Progress.{committable-process_all}
use backbeat.Ledger.Table.{calls, on_partition, partition_offsets-calls}
use backbeat.Ledger.Table

abbrev session : List Event
session = consumed 5 ∷ consumed 6 ∷ consumed 7 ∷ processed 6 ∷ processed 5 ∷ []

abbrev after_session : PartitionOffsets
after_session = record { processing = 7 ∷ []; latest_consumed = some 7 }

run-session : run fresh session ≡ after_session
unfolding consume process filter_by
run-session = refl

replay_drops_later : (run fresh (consumed 5 ∷ consumed 6 ∷ consumed 5 ∷ [])).processing ≡ 5 ∷ []
unfolding consume filter_by
replay_drops_later = refl

invalid_offset_fails : on_offset_consumed [] "t" 0 invalid ≡ none
unfolding on_offset_consumed
invalid_offset_fails = refl

count_of_unknown_partition : get_processing_count [] none (some 3) ≡ some 0
unfolding get_processing_count
count_of_unknown_partition = refl

committable-was_processed_example : was_processed session 6 ≡ true
unfolding consume process filter_by
committable-was_processed_example =
    committable-was_processed 5 session 7 6 (omega arith) (unfold committable in refl) (omega arith)
      (omega arith)

run-IsOrdered_example : IsOrdered (run fresh session)
run-IsOrdered_example = run-IsOrdered fresh session IsOrdered-fresh

two_left : PartitionOffsets
two_left = record { processing = 3 ∷ 8 ∷ []; latest_consumed = some 8 }

committable-process_all_example :
    committable (run two_left (map processed (8 ∷ 3 ∷ []))) ≡ some (8 + 1)
unfolding two_left contains
committable-process_all_example =
    committable-process_all two_left (8 ∷ 3 ∷ []) 8 refl (λ o h. ground (arith, h))

same_members : (o : ℕ) → contains (3 ∷ 8 ∷ []) o ≡ contains (8 ∷ 3 ∷ 8 ∷ []) o
unfolding contains
same_members o = ground arith

abbrev traffic : List Table.Call
traffic =
    Table.consumed "t" 0 5
    ∷ Table.consumed "u" 0 1
    ∷ Table.asked "t" 1
    ∷ Table.processed "t" 0 5
    ∷ []

partition_offsets-calls_example :
    partition_offsets (calls [] traffic) "t" 0
    ≡ run (partition_offsets [] "t" 0) (on_partition "t" 0 traffic)
partition_offsets-calls_example = partition_offsets-calls [] traffic "t" 0

topic_named : ◌≢◌ {A = String} "t" ""
topic_named e = cc ((string_eq.beq_iff "t" "").1 e)
