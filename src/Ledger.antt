-- ===== src/Ledger.antt =====
-- lib/OffsetLedger.js: which Kafka offsets of a topic and partition may be committed, when messages
-- end their processing out of order. The proofs are in the modules below.
pub mod Order
pub mod Safety
pub mod Progress
pub mod Table
pub mod Counts
pub mod Tests
use backbeat.Base.{
  ℕ, suc, ◌+◌, ◌≡◌, Bool, true, false, String, Option, none, some, List, [], ◌∷◌, ◌++◌, foldl, ltb,
  not, if◌then◌else◌, filter_by, length, ◌==◌, nat_eq, string_eq,
}
use backbeat.Base.Assoc.{Assoc, get, put}

-- The state of one partition; `null` is `none`.
pub record PartitionOffsets : Type 0 where
  pub processing : List ℕ
  pub latest_consumed : Option ℕ

abbrev pub fresh : PartitionOffsets
fresh = record { processing = []; latest_consumed = none }

-- `_getPartitionCommittableOffset`
unfoldable pub committable : PartitionOffsets → Option ℕ
committable p = elim p.processing [
  | o ∷ _ ↦ some o
  | [] ↦ elim p.latest_consumed [ some l ↦ some (l + 1) | none ↦ none ]
]

-- The test for a replay: a message was consumed before, and this one does not follow it.
unfoldable pub is_replay : PartitionOffsets → ℕ → Bool
is_replay p offset = elim p.latest_consumed [ none ↦ false | some l ↦ not (offset == l + 1) ]

-- The part of `onOffsetConsumed` that works on the partition's object.
unfoldable pub consume : PartitionOffsets → ℕ → PartitionOffsets
unfolding is_replay
consume p offset =
    let kept =
      (if is_replay p offset then filter_by (λ o. ltb o offset) p.processing else p.processing) in
    record { processing = kept ++ offset ∷ []; latest_consumed = some offset }

-- The part of `onOffsetProcessed` that works on the partition's object.
unfoldable pub process : PartitionOffsets → ℕ → PartitionOffsets
process p offset = record p { processing = filter_by (λ o. not (o == offset)) p.processing }

-- `this._ledger`: partitions by topic and number.
abbrev pub Ledger : Type 0
Ledger = Assoc String (Assoc ℕ PartitionOffsets)

-- An argument that should be an offset: a non-negative integer, or any other value.
pub data Offset : Type 0 where
  whole : ℕ → Offset
  invalid : Offset

-- The object's partitions, empty for a missing topic, and a partition's state, new for a missing one.
unfoldable pub topic_offsets : Ledger → String → Assoc ℕ PartitionOffsets
topic_offsets l topic = elim (get l topic) [ none ↦ [] | some ps ↦ ps ]

unfoldable pub partition_offsets : Ledger → String → ℕ → PartitionOffsets
unfolding topic_offsets
partition_offsets l topic partition = elim (get (topic_offsets l topic) partition) [
  | none ↦ fresh
  | some p ↦ p
]

-- The assignments through the objects that `_getPartitionOffsets` returned and, where they were
-- missing, had put into the ledger.
unfoldable pub write : Ledger → String → ℕ → PartitionOffsets → Ledger
unfolding topic_offsets
write l topic partition p = put l topic (put (topic_offsets l topic) partition p)

-- `none`: the assertion on the offset has failed.
unfoldable pub on_offset_consumed : Ledger → String → ℕ → Offset → Option Ledger
unfolding write partition_offsets consume
on_offset_consumed l topic partition invalid = none
on_offset_consumed l topic partition (whole offset) =
    some (write l topic partition (consume (partition_offsets l topic partition) offset))

unfoldable pub on_offset_processed : Ledger → String → ℕ → ℕ → Ledger × Option ℕ
unfolding write partition_offsets process committable
on_offset_processed l topic partition offset =
    let p = process (partition_offsets l topic partition) offset in
    (write l topic partition p, committable p)

-- The reading creates the partition's object if it is missing.
unfoldable pub get_committable_offset : Ledger → String → ℕ → Ledger × Option ℕ
unfolding write partition_offsets committable
get_committable_offset l topic partition =
    let p = partition_offsets l topic partition in (write l topic partition p, committable p)

unfoldable pub count_partitions : Assoc ℕ PartitionOffsets → ℕ
count_partitions [] = 0
count_partitions ((_, p) ∷ ps) = length p.processing + count_partitions ps

-- One round of the loop over topics; `none` is the TypeError on a partition that is missing.
unfoldable pub count_topic : Option ℕ → Assoc ℕ PartitionOffsets → Option ℕ
unfolding count_partitions
count_topic none ps = some (count_partitions ps)
count_topic (some p) ps = elim (get ps p) [ none ↦ none | some o ↦ some (length o.processing) ]

add_counts : Option ℕ → Option ℕ → Option ℕ
add_counts (some a) (some b) = some (a + b)
add_counts _ _ = none

unfoldable pub count_topics : Option ℕ → Ledger → Option ℕ
unfolding count_topic add_counts
count_topics partition [] = some 0
count_topics partition ((_, ps) ∷ l) =
    add_counts (count_topic partition ps) (count_topics partition l)

-- The two early returns, for a topic that is given.
count_known : Option ℕ → Option (Assoc ℕ PartitionOffsets) → Option ℕ
unfolding count_topic
count_known partition none = some 0
count_known none (some ps) = count_topic none ps
count_known (some p) (some ps) = elim (get ps p) [
  | none ↦ some 0
  | some _ ↦ count_topic (some p) ps
]

-- An empty topic is as good as none.
unfoldable pub get_processing_count : Ledger → Option String → Option ℕ → Option ℕ
unfolding count_known count_topics
get_processing_count l none partition = count_topics partition l
get_processing_count l (some topic) partition =
    if topic == "" then count_topics partition l else count_known partition (get l topic)

-- What happens to one partition, in order.
pub data Event : Type 0 where
  consumed processed : ℕ → Event

abbrev pub apply : PartitionOffsets → Event → PartitionOffsets
apply p (consumed o) = consume p o
apply p (processed o) = process p o

abbrev pub run : PartitionOffsets → List Event → PartitionOffsets
run p [] = p
run p (e ∷ es) = run (apply p e) es
