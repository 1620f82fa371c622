-- ===== src/Ledger/Table.antt =====
-- lib/OffsetLedger.js: the ledger as a table of partitions.
use backbeat.Base.{
  ℕ, ◌≡◌, ◌∙◌, refl, ap, Bool, true, false, ◌&&◌, String, none, some, List, [], ◌∷◌, arith,
  if◌then◌else◌, ◌==◌, nat_eq, string_eq, nat_beq_iff, if_same,
}
use backbeat.Base.Assoc.{get, put, get-put}
use backbeat.Ledger.{
  PartitionOffsets, Ledger, whole, fresh, committable, consume, process, Event, apply, run,
  topic_offsets, partition_offsets, write, on_offset_consumed, on_offset_processed,
  get_committable_offset,
}

module _ (l : Ledger) (t : String) (k : ℕ) (p : PartitionOffsets) where
  -- What is read after a write.
  pub partition_offsets-write :
      (t' : String) (k' : ℕ)
      → partition_offsets (write l t k p) t' k'
        ≡ (if (t == t') && (k == k') then p else partition_offsets l t' k')
  unfolding partition_offsets write topic_offsets
  partition_offsets-write t' k' = ground (
    arith,
    get-put l t t' (put (topic_offsets l t) k p),
    get-put (topic_offsets l t) k k' p,
    string_eq.beq_iff t t',
  )

-- The calls that a client makes, on any topic and partition.
pub data Call : Type 0 where
  consumed processed : String → ℕ → ℕ → Call
  asked : String → ℕ → Call

-- `none` never occurs: these offsets satisfy the assertion.
abbrev pub call : Ledger → Call → Ledger
call l (consumed t k o) = elim (on_offset_consumed l t k (whole o)) [ none ↦ l | some l' ↦ l' ]
call l (processed t k o) = (on_offset_processed l t k o).0
call l (asked t k) = (get_committable_offset l t k).0

abbrev pub calls : Ledger → List Call → Ledger
calls l [] = l
calls l (c ∷ cs) = calls (call l c) cs

-- The calls about one partition, as events of it.
abbrev pub on_partition : String → ℕ → List Call → List Event
on_partition t k [] = []
on_partition t k (consumed t' k' o ∷ cs) =
    let rest = on_partition t k cs in
    if (t' == t) && (k' == k) then Event.consumed o ∷ rest else rest
on_partition t k (processed t' k' o ∷ cs) =
    let rest = on_partition t k cs in
    if (t' == t) && (k' == k) then Event.processed o ∷ rest else rest
on_partition t k (asked t' k' ∷ cs) = on_partition t k cs

run-if :
    (b : Bool) (p : PartitionOffsets) (e : Event) (es : List Event)
    → run (if b then apply p e else p) es ≡ run p (if b then e ∷ es else es)
run-if true p e es = refl
run-if false p e es = refl

same_partition :
    (l : Ledger) (t t' : String) (k k' : ℕ) (f : PartitionOffsets → PartitionOffsets)
    → (if (t == t') && (k == k') then f (partition_offsets l t k) else partition_offsets l t' k')
      ≡ (if (t == t') && (k == k')
          then f (partition_offsets l t' k')
          else partition_offsets l t' k')
same_partition l t t' k k' f = ground (arith, string_eq.beq_iff t t', nat_beq_iff k k')

-- Each partition of the ledger goes its own way: after any calls on any topics and partitions, its
-- state is what the calls about it alone make of it, and questions about it change nothing.
pub partition_offsets-calls :
    (l : Ledger) (cs : List Call) (t : String) (k : ℕ)
    → partition_offsets (calls l cs) t k ≡ run (partition_offsets l t k) (on_partition t k cs)
unfolding on_offset_consumed on_offset_processed get_committable_offset
partition_offsets-calls l [] t k = refl
partition_offsets-calls l (consumed t' k' o ∷ cs) t k =
    partition_offsets-calls (call l (consumed t' k' o)) cs t k
    ∙ ap (λ p. run p (on_partition t k cs))
        (partition_offsets-write l t' k' _ t k ∙ same_partition l t' t k' k (λ p. consume p o))
    ∙ run-if ((t' == t) && (k' == k)) (partition_offsets l t k) (Event.consumed o)
        (on_partition t k cs)
partition_offsets-calls l (processed t' k' o ∷ cs) t k =
    partition_offsets-calls (call l (processed t' k' o)) cs t k
    ∙ ap (λ p. run p (on_partition t k cs))
        (partition_offsets-write l t' k' _ t k ∙ same_partition l t' t k' k (λ p. process p o))
    ∙ run-if ((t' == t) && (k' == k)) (partition_offsets l t k) (Event.processed o)
        (on_partition t k cs)
partition_offsets-calls l (asked t' k' ∷ cs) t k =
    partition_offsets-calls (call l (asked t' k')) cs t k
    ∙ ap (λ p. run p (on_partition t k cs))
        (partition_offsets-write l t' k' _ t k
          ∙ same_partition l t' t k' k (λ p. p)
          ∙ if_same ((t' == t) && (k' == k)) (partition_offsets l t k))

-- What a client is told by `getCommittableOffset`, and by `onOffsetProcessed` at its end.
pub answer_of_calls :
    (cs : List Call) (t : String) (k : ℕ)
    → (get_committable_offset (calls [] cs) t k).1 ≡ committable (run fresh (on_partition t k cs))
unfolding get_committable_offset get
answer_of_calls cs t k = ap committable (partition_offsets-calls [] cs t k)
