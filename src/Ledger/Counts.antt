-- ===== src/Ledger/Counts.antt =====
-- The counts of messages being processed, for a partition, a topic or all topics.
use backbeat.Base.{ℕ, ◌+◌, ◌≡◌, ◌≢◌, String, none, some, [], ◌∷◌, arith, length, nat_eq, string_eq}
use backbeat.Base.Assoc.{Assoc, get, put, get-put_self}
use backbeat.Ledger.{
  PartitionOffsets, Ledger, topic_offsets, partition_offsets, write, count_partitions,
  get_processing_count,
}

-- The count of a partition that is named, of a topic that is not the empty text, is the number of its messages being processed, whether or
-- not the ledger has met the partition.
pub get_processing_count-partition :
    (l : Ledger) (t : String) (k : ℕ)
    → t ≢ ""
    → get_processing_count l (some t) (some k) ≡ some (length (partition_offsets l t k).processing)
unfolding get_processing_count partition_offsets get
get_processing_count-partition l t k ne = ground (arith, string_eq.beq_iff t "")

sum_over : Assoc ℕ PartitionOffsets → ℕ → ℕ
sum_over ps k = elim (get ps k) [ none ↦ 0 | some p ↦ length p.processing ]

count_partitions-put :
    (ps : Assoc ℕ PartitionOffsets) (k : ℕ) (p : PartitionOffsets)
    → count_partitions (put ps k p) + sum_over ps k ≡ count_partitions ps + length p.processing
unfolding count_partitions put get sum_over
count_partitions-put [] k p = omega arith
count_partitions-put ((j, q) ∷ ps) k p = ground (arith, count_partitions-put ps k p)

-- The count of a topic that is not the empty text moves by as much as the count of the partition that a call writes.
pub get_processing_count-write :
    (l : Ledger) (t : String) (k n : ℕ) (p : PartitionOffsets)
    → t ≢ ""
    → get_processing_count l (some t) none ≡ some n
    → (m : ℕ) × (get_processing_count (write l t k p) (some t) none ≡ some m)
      × (m + length (partition_offsets l t k).processing ≡ n + length p.processing)
unfolding get_processing_count partition_offsets write sum_over topic_offsets
get_processing_count-write l t k n p ne h = (
  count_partitions (put (topic_offsets l t) k p),
  ground (arith, string_eq.beq_iff t "", get-put_self l t (put (topic_offsets l t) k p)),
  ground (arith, string_eq.beq_iff t "", count_partitions-put (topic_offsets l t) k p),
)
