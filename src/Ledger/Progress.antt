-- ===== src/Ledger/Progress.antt =====
-- lib/OffsetLedger.js: how completions make offsets committable.
use backbeat.Base.{
  ℕ, ◌+◌, ◌≤◌, ◌<◌, ◌≡◌, ◌∙◌, refl, sym, ap, inl, inr, Bool, true, false, Option, none, some, List,
  [], ◌∷◌, map, arith, not, Bool-cases, filter_by, filter_by-filter_by, filter_by-ext,
  filter_by-true, contains, nat_eq, nat_beq_iff,
}
use backbeat.Ledger.{PartitionOffsets, committable, consume, process, processed, run}
use backbeat.Ledger.Order.{next, IsOrdered}
use backbeat.Base.Increasing.{IsIncreasing, AllBelow, AllAbove}

-- Where a message was consumed before, consuming the next one in line does not change what may be
-- committed.
pub committable-consume_next :
    (p : PartitionOffsets) (l : ℕ)
    → p.latest_consumed ≡ some l
    → committable (consume p (l + 1)) ≡ committable p
unfolding committable consume
committable-consume_next p l h = ground arith

abbrev offsets : List ℕ → Option ℕ → PartitionOffsets
offsets xs l = record { processing = xs; latest_consumed = l }

-- Without its first offset a partition can commit further.
committable-tail :
    (x : ℕ) (xs : List ℕ) (l : Option ℕ)
    → AllAbove x xs
    → x < next 0 l
    → (d : ℕ) × (committable (offsets xs l) ≡ some d) × (x ≤ d)
unfolding committable
committable-tail x (y ∷ xs) l above bound = (y, refl, omega arith)
committable-tail x [] (some l) above bound = (l + 1, refl, omega arith)
committable-tail x [] none above bound = absurd (omega arith)

-- Nor does it commit less with any of its offsets gone.
committable-filter_by :
    (q : ℕ → Bool) (xs : List ℕ) (l : Option ℕ) (c : ℕ)
    → IsIncreasing xs
    → AllBelow (next 0 l) xs
    → committable (offsets xs l) ≡ some c
    → (d : ℕ) × (committable (offsets (filter_by q xs) l) ≡ some d) × (c ≤ d)
unfolding filter_by committable
committable-filter_by q [] l c i b h = (c, h, omega arith)
committable-filter_by q (x ∷ xs) l c i b h = elim (Bool-cases (q x)) [
  | inl e ↦ rw e (c, h, omega arith)
  | inr e ↦
      let (y, at, le) = committable-tail x xs l i.0 b.0 in
      let (d, dat, dle) = committable-filter_by q xs l y i.1 b.1 at in rw e (d, dat, ground arith)
]

-- The end of a message's processing never lowers the committable offset, nor makes it unknown, when
-- the offsets being processed stand in increasing order and none is beyond the latest consumed.
pub committable-process_mono :
    (p : PartitionOffsets) (o c : ℕ)
    → IsOrdered p
    → committable p ≡ some c
    → (d : ℕ) × (committable (process p o) ≡ some d) × (c ≤ d)
unfolding process
committable-process_mono p o c v h =
    committable-filter_by _ p.processing p.latest_consumed c v.increasing v.bounded h

process_all-eq :
    (p : PartitionOffsets) (xs : List ℕ)
    → run p (map processed xs)
      ≡ record p { processing = filter_by (λ o. not (contains xs o)) p.processing }
unfolding process contains
process_all-eq p [] = ap (λ ys. record p { processing = ys }) (sym (filter_by-true p.processing))
process_all-eq p (x ∷ xs) =
    process_all-eq (process p x) xs
    ∙ ap (λ ys. record p { processing = ys })
        (filter_by-filter_by _ _ p.processing ∙ filter_by-ext _ _ p.processing (λ o. ground arith))

-- The order in which messages end their processing, and repeated notices of it, make no difference.
pub process_all-ext :
    (p : PartitionOffsets) (xs ys : List ℕ)
    → ((o : ℕ) → contains xs o ≡ contains ys o)
    → run p (map processed xs) ≡ run p (map processed ys)
process_all-ext p xs ys h =
    process_all-eq p xs
    ∙ ap (λ zs. record p { processing = zs }) (filter_by-ext _ _ p.processing (λ o. ap not (h o)))
    ∙ sym (process_all-eq p ys)

filter_by-none :
    (q : ℕ → Bool) (xs : List ℕ)
    → ((o : ℕ) → contains xs o ≡ true → q o ≡ false)
    → filter_by q xs ≡ []
unfolding filter_by contains
filter_by-none q [] h = refl
filter_by-none q (x ∷ xs) h =
    rw (h x (ground (arith, nat_beq_iff x x))) (filter_by-none q xs (λ o c. h o (ground arith)))

-- Once every offset that was being processed has ended, in any order, the offset after the latest consumed may be
-- committed.
pub committable-process_all :
    (p : PartitionOffsets) (xs : List ℕ) (l : ℕ)
    → p.latest_consumed ≡ some l
    → ((o : ℕ) → contains p.processing o ≡ true → contains xs o ≡ true)
    → committable (run p (map processed xs)) ≡ some (l + 1)
unfolding committable
committable-process_all p xs l latest all =
    rw (process_all-eq p xs, filter_by-none _ p.processing (λ o c. ap not (all o c)), latest) refl
