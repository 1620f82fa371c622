-- ===== src/Ledger/Order.antt =====
-- lib/OffsetLedger.js: the order of the offsets being processed.
use backbeat.Base.{
  ℕ, ◌+◌, ◌≤◌, ◌≡◌, inl, inr, refl, true, false, Option, none, some, List, [], ◌∷◌, arith, ltb,
  if◌then◌else◌, Bool-cases, filter_by, contains, nat_eq, nat_beq_iff, All-filter_by, All-append,
}
use backbeat.Base.Increasing.{
  AllBelow, IsIncreasing, AllBelow-mono, IsIncreasing-append, IsIncreasing-filter_by,
  AllBelow-filter_by, above_of_contains,
}
use backbeat.Ledger.{
  PartitionOffsets, fresh, committable, is_replay, consume, process, Event, consumed, processed,
  apply, run,
}

-- The offset after the latest one consumed, or `base` where none was.
abbrev pub next : ℕ → Option ℕ → ℕ
next base none = base
next base (some l) = l + 1

pub record IsOrdered (p : PartitionOffsets) : Type 0 where
  pub increasing : IsIncreasing p.processing
  pub bounded : AllBelow (next 0 p.latest_consumed) p.processing

pub IsOrdered-fresh : IsOrdered fresh
IsOrdered-fresh = record { increasing = tt; bounded = tt }

-- An offset that is no replay comes after every one consumed.
follows-next : (p : PartitionOffsets) (o : ℕ) → is_replay p o ≡ false → next 0 p.latest_consumed ≤ o
unfolding is_replay
follows-next p o r = ground arith

abbrev kept : PartitionOffsets → ℕ → List ℕ
kept p o = if is_replay p o then filter_by (λ x. ltb x o) p.processing else p.processing

-- What `consume` keeps lies below the new offset, in order.
kept-AllBelow : (p : PartitionOffsets) (o : ℕ) → IsOrdered p → AllBelow o (kept p o)
kept-AllBelow p o v = elim (Bool-cases (is_replay p o)) [
  | inl r ↦ rw r (AllBelow-filter_by o p.processing)
  | inr r ↦ rw r (AllBelow-mono _ o p.processing (follows-next p o r) v.bounded)
]

kept-IsIncreasing : (p : PartitionOffsets) (o : ℕ) → IsOrdered p → IsIncreasing (kept p o)
kept-IsIncreasing p o v = elim (Bool-cases (is_replay p o)) [
  | inl r ↦ rw r (IsIncreasing-filter_by _ p.processing v.increasing)
  | inr r ↦ rw r v.increasing
]

consume-IsOrdered : (p : PartitionOffsets) (o : ℕ) → IsOrdered p → IsOrdered (consume p o)
unfolding consume
consume-IsOrdered p o v = record {
  increasing = IsIncreasing-append o (kept p o) (kept-IsIncreasing p o v) (kept-AllBelow p o v);
  bounded =
      All-append _ (kept p o) (o ∷ [])
        (AllBelow-mono o (o + 1) (kept p o) (omega arith) (kept-AllBelow p o v)) (omega arith, tt);
}

process-IsOrdered : (p : PartitionOffsets) (o : ℕ) → IsOrdered p → IsOrdered (process p o)
unfolding process
process-IsOrdered p o v = record {
  increasing = IsIncreasing-filter_by _ p.processing v.increasing;
  bounded = All-filter_by _ _ p.processing v.bounded;
}

pub apply-IsOrdered : (p : PartitionOffsets) (e : Event) → IsOrdered p → IsOrdered (apply p e)
apply-IsOrdered p (consumed o) = consume-IsOrdered p o
apply-IsOrdered p (processed o) = process-IsOrdered p o

-- Whatever messages are consumed and end their processing, in whatever order, replays included: if the
-- offsets being processed stand in strictly increasing order and none is beyond the latest consumed,
-- this is so afterwards.
pub run-IsOrdered : (p : PartitionOffsets) (es : List Event) → IsOrdered p → IsOrdered (run p es)
run-IsOrdered p [] v = v
run-IsOrdered p (e ∷ es) v = run-IsOrdered (apply p e) es (apply-IsOrdered p e v)

head_least :
    (xs : List ℕ) (l : Option ℕ) (o : ℕ)
    → IsIncreasing xs
    → contains xs o ≡ true
    → (c : ℕ) × (committable (record { processing = xs; latest_consumed = l }) ≡ some c)
      × (c ≤ o)
      × (contains xs c ≡ true)
unfolding contains committable
head_least [] l o i h = absurd (ground arith)
head_least (x ∷ xs) l o i h = (
  x,
  refl,
  ground (arith, above_of_contains x xs o i.0, nat_beq_iff o x),
  ground (arith, nat_beq_iff x x),
)

-- While some offset is being processed, and those that are stand in increasing order, the committable offset is one that is being processed, and
-- no offset being processed is below it.
pub committable-least :
    (p : PartitionOffsets) (o : ℕ)
    → IsOrdered p
    → contains p.processing o ≡ true
    → (c : ℕ) × (committable p ≡ some c) × (c ≤ o) × (contains p.processing c ≡ true)
committable-least p o v h = head_least p.processing p.latest_consumed o v.increasing h
