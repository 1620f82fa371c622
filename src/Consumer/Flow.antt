-- ===== src/Consumer/Flow.antt =====
-- lib/BackbeatConsumer.js: flow control, from the messages asked for to their end.
use backbeat.Base.{
  ℕ, ◌+◌, ◌-◌, ◌≤◌, ◌≡◌, ◌∙◌, refl, subst, inl, inr, Bool, true, false, Option, none, some, List,
  [], ◌∷◌, arith, length, foldl, get_elem?, Option-cases, zero, suc, nat_eq,
}
use mathlib.Core.Option.{some-injective}
use backbeat.Ledger.{on_offset_consumed, on_offset_processed}
use backbeat.Consumer.{
  Entry, Message, Queue, Consumer, World, Action, tried, received, done, committed, defined,
  get_available_slots_in_pipeline, try_consume, start_message, start_entry, on_consumed,
  on_entry_committable, on_entry_processing_done, remove_at, act, acts,
}

unfoldable pub sum : List ℕ → ℕ
sum [] = 0
sum (n ∷ ns) = n + sum ns

sum-remove_at :
    (ns : List ℕ) (i n : ℕ) → get_elem? ns i ≡ some n → sum (remove_at i ns) + n ≡ sum ns
unfolding remove_at sum
sum-remove_at [] i n h = absurd (ground arith)
sum-remove_at (x ∷ xs) zero n h = ground (arith, h)
sum-remove_at (x ∷ xs) (suc i) n h = omega (arith, sum-remove_at xs i n h)

module _ {Q : Type 0} (queue : Queue Q) where
  abbrev pub load : Consumer Q → ℕ
  load s = queue.running s.processing_queue + queue.waiting s.processing_queue

  -- What may change between two states while `k` messages come in.
  record Grows (k : ℕ) (s t : Consumer Q) : Type 0 where
    same_concurrency : t.concurrency ≡ s.concurrency
    same_requests : t.consume_pending_requests ≡ s.consume_pending_requests
    loaded : load t ≤ load s + k

  start_entry-Grows : (s : Consumer Q) (e : Entry) → Grows 1 s (start_entry queue s e)
  unfolding start_entry start_message on_offset_consumed
  start_entry-Grows s e = elim (Option-cases (defined e)) [
    | inl h ↦
        rw (h, start_entry)
          (record { same_concurrency = refl; same_requests = refl; loaded = omega arith })
    | inr (m, h) ↦
        rw (h, start_entry)
          (record {
            same_concurrency = refl;
            same_requests = refl;
            loaded = queue.load-push s.processing_queue m;
          })
  ]

  foldl-Grows :
      (es : List Entry) (s : Consumer Q) → Grows (length es) s (foldl (start_entry queue) s es)
  foldl-Grows [] s = record { same_concurrency = refl; same_requests = refl; loaded = omega arith }
  foldl-Grows (e ∷ es) s =
      let first = start_entry-Grows s e in
      let rest = foldl-Grows es (start_entry queue s e) in
      record {
        same_concurrency = rest.same_concurrency ∙ first.same_concurrency;
        same_requests = rest.same_requests ∙ first.same_requests;
        loaded = omega (arith, first.loaded, rest.loaded);
      }

  -- The requests under way are those that are counted, and the pipeline is not overfull.
  pub record IsBounded (w : World Q) : Type 0 where
    pub counted : w.consumer.consume_pending_requests ≡ sum w.requests
    pub bounded : load w.consumer + w.consumer.consume_pending_requests ≤ w.consumer.concurrency

  -- An answer brings at most the messages that were asked for.
  abbrev pub Fits : World Q → Action → Type 0
  Fits w (received i (some entries)) =
      (n : ℕ) → get_elem? w.requests i ≡ some n → length entries ≤ n
  Fits w _ = Unit

  abbrev pub AllFit : World Q → List Action → Type 0
  AllFit w [] = Unit
  AllFit w (a ∷ rest) = Fits w a × AllFit (act queue w a) rest

  on_consumed-bounded :
      (s : Consumer Q) (n r : ℕ) (answer : Option (List Entry))
      → s.consume_pending_requests ≡ r + n
      → load s + s.consume_pending_requests ≤ s.concurrency
      → ((entries : List Entry) → answer ≡ some entries → length entries ≤ n)
      → let t = on_consumed queue s n answer in
        (t.consume_pending_requests ≡ r)
        × (load t + t.consume_pending_requests ≤ t.concurrency)
        × (t.concurrency ≡ s.concurrency)
  unfolding on_consumed
  on_consumed-bounded s n r none pending fits few =
      (omega arith, omega (arith, fits, pending), refl)
  on_consumed-bounded s n r (some entries) pending fits few =
      let g =
        foldl-Grows entries
          (record s { consume_pending_requests = s.consume_pending_requests - n }) in
      (
        omega (arith, g.same_requests, pending),
        omega
            (arith, g.same_requests, g.loaded, g.same_concurrency, fits, pending, few entries refl),
        g.same_concurrency,
      )

  committable-Grows :
      (s : Consumer Q) (paused : Bool) (m : Message)
      → Grows 0 s (on_entry_committable queue s paused m)
  unfolding on_entry_committable
  committable-Grows s true m =
      elim (Option-cases (on_offset_processed s.offset_ledger m.topic m.partition m.offset).1) [
        | inl h ↦
            rw (h, on_entry_committable)
              (record { same_concurrency = refl; same_requests = refl; loaded = omega arith })
        | inr (c, h) ↦
            rw (h, on_entry_committable)
              (record { same_concurrency = refl; same_requests = refl; loaded = omega arith })
      ]
  committable-Grows s false m =
      elim (Option-cases (on_offset_processed s.offset_ledger m.topic m.partition m.offset).1) [
        | inl h ↦
            rw (h, on_entry_committable)
              (record { same_concurrency = refl; same_requests = refl; loaded = omega arith })
        | inr (c, h) ↦
            rw (h, on_entry_committable)
              (record { same_concurrency = refl; same_requests = refl; loaded = omega arith })
      ]

  keeps_bound :
      (w : World Q) (t : Consumer Q)
      → Grows 0 w.consumer t
      → IsBounded w
      → IsBounded (record w { consumer = t })
  keeps_bound w t g h = record {
    counted = g.same_requests ∙ h.counted;
    bounded = omega (arith, g.same_requests, g.same_concurrency, g.loaded, h.bounded);
  }

  done-Grows :
      (s : Consumer Q) (committable paused : Bool) (m : Message)
      → Grows 0 s (on_entry_processing_done queue s committable paused m)
  unfolding on_entry_processing_done
  done-Grows s true paused m =
      let g =
        committable-Grows (record s { processing_queue = queue.finish s.processing_queue m }) paused
          m in
      record {
        same_concurrency = g.same_concurrency;
        same_requests = g.same_requests;
        loaded = omega (arith, g.loaded, queue.load-finish s.processing_queue m);
      }
  done-Grows s false paused m = record {
    same_concurrency = refl;
    same_requests = refl;
    loaded = omega (arith, queue.load-finish s.processing_queue m);
  }

  tried-IsBounded :
      (w : World Q) (nominal : Bool) → IsBounded w → IsBounded (act queue w (tried nominal))
  unfolding act try_consume get_available_slots_in_pipeline sum
  tried-IsBounded w false h = record { counted = h.counted; bounded = h.bounded }
  tried-IsBounded w true h = ground (arith, h.counted, h.bounded)

  act-IsBounded : (w : World Q) (a : Action) → Fits w a → IsBounded w → IsBounded (act queue w a)
  unfolding act
  act-IsBounded w (tried nominal) fits h = tried-IsBounded w nominal h
  act-IsBounded w (done committable paused m) fits h =
      keeps_bound w _ (done-Grows w.consumer committable paused m) h
  act-IsBounded w (committed paused m) fits h =
      keeps_bound w _ (committable-Grows w.consumer paused m) h
  act-IsBounded w (received i none) fits h = elim (Option-cases (get_elem? w.requests i)) [
    | inl e ↦ rw (e, act) h
    | inr (n, e) ↦
        let after =
          on_consumed-bounded w.consumer n (sum (remove_at i w.requests)) none
            (omega (arith, sum-remove_at w.requests i n e, h.counted)) h.bounded
            (λ es bad. absurd (ground (arith, bad))) in
        rw (e, act) (record { counted = after.0; bounded = after.1 })
  ]
  act-IsBounded w (received i (some entries)) fits h =
      elim (Option-cases (get_elem? w.requests i)) [
        | inl e ↦ rw (e, act) h
        | inr (n, e) ↦
            let after =
              on_consumed-bounded w.consumer n (sum (remove_at i w.requests)) (some entries)
                (omega (arith, sum-remove_at w.requests i n e, h.counted)) h.bounded
                (λ es same. subst (λ x. length x ≤ n) (some-injective _ _ same) (fits n e)) in
            rw (e, act) (record { counted = after.0; bounded = after.1 })
      ]

  -- Flow control. Let no more messages be in the pipeline or asked for than may be processed at once,
  -- as in a new consumer, and let every answer of Kafka bring at most as many messages as its request
  -- asked for. Then this holds after any run in which requests are made, answered in any order, also
  -- by errors, and tasks end.
  pub acts-IsBounded :
      (w : World Q) (run : List Action) → IsBounded w → AllFit w run → IsBounded (acts queue w run)
  unfolding acts
  acts-IsBounded w [] h fits = h
  acts-IsBounded w (a ∷ rest) h fits =
      acts-IsBounded (act queue w a) rest (act-IsBounded w a fits.0 h) fits.1
