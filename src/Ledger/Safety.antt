-- ===== src/Ledger/Safety.antt =====
-- lib/OffsetLedger.js: what is below a committable offset.
use backbeat.Base.{
  ℕ, ◌≤◌, ◌<◌, ◌≡◌, inl, inr, refl, Bool, true, false, ◌||◌, ◌&&◌, some, List, [], ◌∷◌, arith, ltb,
  not, if◌then◌else◌, Bool-cases, contains, ◌==◌, nat_eq, nat_beq_iff,
}
use backbeat.Base.Increasing.{contains-filter_by, contains-append_one}
use backbeat.Ledger.{
  PartitionOffsets, fresh, committable, is_replay, consume, process, Event, consumed, processed,
  run,
}
use backbeat.Ledger.Order.{next, IsOrdered, IsOrdered-fresh, run-IsOrdered, committable-least}

-- Which offsets are being processed after a message was consumed.
pub contains-consume :
    (p : PartitionOffsets) (x o : ℕ)
    → contains (consume p x).processing o ≡ (
        if o == x
        then true
        else if is_replay p x && not (ltb o x)
        then false
        else contains p.processing o)
unfolding consume
contains-consume p x o = elim (Bool-cases (is_replay p x)) [
  | inl r ↦ rw (r, contains-append_one, contains-filter_by) (ground arith)
  | inr r ↦ rw (r, contains-append_one) (ground arith)
]

pub contains-process :
    (p : PartitionOffsets) (x o : ℕ)
    → contains (process p x).processing o ≡ (if o == x then false else contains p.processing o)
unfolding process
contains-process p x o = rw contains-filter_by (ground arith)

abbrev pub was_processed : List Event → ℕ → Bool
was_processed [] o = false
was_processed (consumed x ∷ es) o = was_processed es o
was_processed (processed x ∷ es) o = o == x || was_processed es o

-- Messages are consumed from `base` on without a gap, but the consumer may go back at any time.
abbrev pub IsContiguous : ℕ → PartitionOffsets → List Event → Type 0
IsContiguous base p [] = Unit
IsContiguous base p (consumed x ∷ es) =
    (base ≤ x) × (x ≤ next base p.latest_consumed) × IsContiguous base (consume p x) es
IsContiguous base p (processed x ∷ es) = IsContiguous base (process p x) es

-- Every offset from `base` up to the latest consumed is being processed, or satisfies `d`.
abbrev Covered : ℕ → PartitionOffsets → (ℕ → Bool) → Type 0
Covered base p d =
    (o : ℕ) → base ≤ o → o < next base p.latest_consumed → (contains p.processing o || d o) ≡ true

latest-consume : (p : PartitionOffsets) (x : ℕ) → (consume p x).latest_consumed ≡ some x
unfolding consume
latest-consume p x = refl

latest-process : (p : PartitionOffsets) (x : ℕ) → (process p x).latest_consumed ≡ p.latest_consumed
unfolding process
latest-process p x = refl

consume-Covered :
    (base : ℕ) (p : PartitionOffsets) (d : ℕ → Bool) (x : ℕ)
    → x ≤ next base p.latest_consumed
    → Covered base p d
    → Covered base (consume p x) d
consume-Covered base p d x near c o from upto =
    rw contains-consume (ground (arith, c o, latest-consume p x, nat_beq_iff o x))

process-Covered :
    (base : ℕ) (p : PartitionOffsets) (d : ℕ → Bool) (x : ℕ)
    → Covered base p d
    → Covered base (process p x) (λ o. o == x || d o)
process-Covered base p d x c o from upto =
    rw contains-process (ground (arith, c o, latest-process p x, nat_beq_iff o x))

or_assoc : (a b c : Bool) → ((a || b) || c) ≡ (a || (b || c))
or_assoc a b c = ground arith

or-rotate : (a b c : Bool) → ((a || b) || c) ≡ (b || (a || c))
or-rotate a b c = ground arith

run-Covered :
    (base : ℕ) (p : PartitionOffsets) (d : ℕ → Bool) (es : List Event)
    → IsContiguous base p es
    → Covered base p d
    → (o : ℕ) → base ≤ o
    → o < next base (run p es).latest_consumed
    → (contains (run p es).processing o || (was_processed es o || d o)) ≡ true
run-Covered base p d [] h c o from upto = c o from upto
run-Covered base p d (consumed x ∷ es) h c o from upto =
    run-Covered base (consume p x) d es h.2 (consume-Covered base p d x h.1 c) o from upto
run-Covered base p d (processed x ∷ es) h c o from upto = rw or-rotate (
    run-Covered base (process p x) (λ o. o == x || d o) es h (process-Covered base p d x c) o from
      upto)

pub IsOrdered-run-fresh : (es : List Event) → IsOrdered (run fresh es)
IsOrdered-run-fresh es = run-IsOrdered fresh es IsOrdered-fresh

committable-le-next :
    (base : ℕ) (p : PartitionOffsets) (c : ℕ)
    → IsOrdered p
    → committable p ≡ some c
    → c ≤ next base p.latest_consumed
unfolding committable
committable-le-next base p c v h = ground (arith, v.bounded)

-- At-least-once delivery. Let messages be consumed from `base` on without a gap, with replays at
-- any time, and let their processing end in any order. Then every offset from `base` up to the
-- committable offset, which is not itself included, has ended its processing.
pub committable-was_processed :
    (base : ℕ) (es : List Event) (c o : ℕ)
    → IsContiguous base fresh es
    → committable (run fresh es) ≡ some c
    → base ≤ o
    → o < c
    → was_processed es o ≡ true
committable-was_processed base es c o h commit from below = ground (
  arith,
  run-Covered base fresh (λ _. false) es h (λ o p q. absurd (omega arith)) o from,
  committable-le-next base (run fresh es) c (IsOrdered-run-fresh es) commit,
  committable-least (run fresh es) o (IsOrdered-run-fresh es),
)
