-- ===== src/Consumer/Stored.antt =====
-- lib/BackbeatConsumer.js: the offsets stored for the next commit over a run of the consumer.
use backbeat.Base.{
  ℕ, ◌-◌, ◌≤◌, ◌<◌, ◌≡◌, ◌∙◌, refl, sym, subst, ap, inl, inr, Bool, true, false, String, none, some,
  List, [], ◌∷◌, ◌++◌, All, All-map, arith, get_elem?, Option-cases, nat_eq, string_eq,
}
use backbeat.Ledger.{fresh, committable, Event, run, partition_offsets, on_offset_processed}
use backbeat.Ledger.Safety.{was_processed, IsContiguous, committable-was_processed}
use backbeat.Consumer.{
  Message, Queue, Consumer, World, Action, tried, received, done, committed, on_consumed,
  on_entry_committable, on_entry_processing_done, try_consume, act, acts,
}
use backbeat.Consumer.Commits.{
  is_of, events_of, events, processed_by, append-[], append_assoc, run-append, IsContiguous-append,
  IsBelow-append, IsSafe, committable-table, committable-answer, entries-IsSafe,
}

module _ (t : String) (k base : ℕ) {Q : Type 0} (queue : Queue Q) where
  committable-ledger :
      (s : Consumer Q) (paused : Bool) (m : Message)
      → (on_entry_committable queue s paused m).offset_ledger
        ≡ (on_offset_processed s.offset_ledger m.topic m.partition m.offset).0
  unfolding on_entry_committable
  committable-ledger s true m =
      elim (Option-cases (on_offset_processed s.offset_ledger m.topic m.partition m.offset).1) [
        | inl h ↦ rw (h, on_entry_committable) refl
        | inr (c, h) ↦ rw (h, on_entry_committable) refl
      ]
  committable-ledger s false m =
      elim (Option-cases (on_offset_processed s.offset_ledger m.topic m.partition m.offset).1) [
        | inl h ↦ rw (h, on_entry_committable) refl
        | inr (c, h) ↦ rw (h, on_entry_committable) refl
      ]

  -- A property of the messages stored before and of the one that the ledger makes committable.
  committable-stored :
      (P : Message → Type 0) (s : Consumer Q) (paused : Bool) (m : Message)
      → All P s.stored
      → ((c : ℕ)
          → (on_offset_processed s.offset_ledger m.topic m.partition m.offset).1 ≡ some c
          → P (record m { offset = c }))
      → All P (on_entry_committable queue s paused m).stored
  unfolding on_entry_committable
  committable-stored P s true m old new =
      elim (Option-cases (on_offset_processed s.offset_ledger m.topic m.partition m.offset).1) [
        | inl h ↦ rw (h, on_entry_committable) old
        | inr (c, h) ↦ rw (h, on_entry_committable) old
      ]
  committable-stored P s false m old new =
      elim (Option-cases (on_offset_processed s.offset_ledger m.topic m.partition m.offset).1) [
        | inl h ↦ rw (h, on_entry_committable) old
        | inr (c, h) ↦ rw (h, on_entry_committable) (new c h, old)
      ]

  committable-IsSafe :
      (es : List Event) (s : Consumer Q) (paused : Bool) (m : Message)
      → IsContiguous base fresh (es ++ processed_by t k m)
      → IsSafe t k base es s
      → IsSafe t k base (es ++ processed_by t k m) (on_entry_committable queue s paused m)
  committable-IsSafe es s paused m gapless h =
      let table : partition_offsets
            (on_offset_processed s.offset_ledger m.topic m.partition m.offset).0 t k
          ≡ run fresh (es ++ processed_by t k m) =
        committable-table t k base s.offset_ledger m ∙ rw (h.table, run-append) refl in
      record {
        table = rw committable-ledger table;
        safe =
            committable-stored _ s paused m
              (All-map _ _ s.stored (IsBelow-append t k base es (processed_by t k m)) h.safe)
              (λ c answer is o from below.
                committable-was_processed base (es ++ processed_by t k m) c o gapless
                  (sym (ap committable table)
                    ∙ sym (committable-answer t k base s.offset_ledger m is)
                    ∙ answer)
                  from below);
      }

  -- What concerns neither ledger nor commits.
  moved :
      (es : List Event) (s s' : Consumer Q)
      → s'.offset_ledger ≡ s.offset_ledger
      → s'.stored ≡ s.stored
      → IsSafe t k base es s
      → IsSafe t k base (es ++ []) s'
  moved es s s' ledger stored h =
      rw append-[] (record { table = rw ledger h.table; safe = rw stored h.safe })

  tried-same :
      (s : Consumer Q) (nominal : Bool)
      → ((try_consume queue s nominal).0.offset_ledger ≡ s.offset_ledger)
        × ((try_consume queue s nominal).0.stored ≡ s.stored)
  unfolding try_consume
  tried-same s false = (refl, refl)
  tried-same s true = ground arith

  act-IsSafe :
      (es : List Event) (w : World Q) (a : Action)
      → IsContiguous base fresh (es ++ events_of t k queue w a)
      → IsSafe t k base es w.consumer
      → IsSafe t k base (es ++ events_of t k queue w a) (act queue w a).consumer
  unfolding act on_entry_processing_done on_consumed
  act-IsSafe es w (tried nominal) gapless h =
      let same = tried-same w.consumer nominal in moved es w.consumer _ same.0 same.1 h
  act-IsSafe es w (received i none) gapless h = elim (Option-cases (get_elem? w.requests i)) [
    | inl e ↦ rw (e, act) (moved es w.consumer w.consumer refl refl h)
    | inr (n, e) ↦
        rw (e, act) (moved es w.consumer (on_consumed queue w.consumer n none) refl refl h)
  ]
  act-IsSafe es w (received i (some entries)) gapless h =
      elim (Option-cases (get_elem? w.requests i)) [
        | inl e ↦ rw (e, act, events_of) (moved es w.consumer w.consumer refl refl h)
        | inr (n, e) ↦
            let after =
              entries-IsSafe t k base queue entries es
                (record w.consumer {
                  consume_pending_requests = w.consumer.consume_pending_requests - n;
                })
                (record { table = h.table; safe = h.safe }) in
            rw (e, act, events_of) (record { table = after.table; safe = after.safe })
      ]
  act-IsSafe es w (done true paused m) gapless h =
      committable-IsSafe es
        (record w.consumer { processing_queue = queue.finish w.consumer.processing_queue m }) paused
        m gapless (record { table = h.table; safe = h.safe })
  act-IsSafe es w (done false paused m) gapless h = moved es w.consumer _ refl refl h
  act-IsSafe es w (committed paused m) gapless h =
      committable-IsSafe es w.consumer paused m gapless h

  run-IsSafe :
      (es : List Event) (w : World Q) (actions : List Action)
      → IsContiguous base fresh (es ++ events t k queue w actions)
      → IsSafe t k base es w.consumer
      → IsSafe t k base (es ++ events t k queue w actions) (acts queue w actions).consumer
  unfolding acts
  run-IsSafe es w [] gapless h = rw append-[] h
  run-IsSafe es w (a ∷ rest) gapless h =
      let now = events_of t k queue w a in
      let later = events t k queue (act queue w a) rest in
      let joined = append_assoc es now later in
      let gapless' = subst (IsContiguous base fresh) (sym joined) gapless in
      subst (λ xs. IsSafe t k base xs (acts queue (act queue w a) rest).consumer) joined
        (run-IsSafe (es ++ now) (act queue w a) rest gapless'
          (act-IsSafe es w a (IsContiguous-append base fresh (es ++ now) later gapless') h))

  -- At-least-once delivery by the consumer. Let it start with nothing known of the partition and
  -- nothing stored, and let Kafka give the messages of the partition from `base` on without a gap, with
  -- replays at any time. Whatever requests are made and answered, whatever the order in which tasks
  -- end, also those that are marked as committable only later: every offset of the partition that is
  -- stored for the next commit stands above processed messages only.
  pub stored-was_processed :
      (w : World Q) (actions : List Action)
      → partition_offsets w.consumer.offset_ledger t k ≡ fresh
      → w.consumer.stored ≡ []
      → IsContiguous base fresh (events t k queue w actions)
      → All
          (λ m.
            is_of t k m ≡ true
            → (o : ℕ) → base ≤ o
            → o < m.offset
            → was_processed (events t k queue w actions) o ≡ true)
          (acts queue w actions).consumer.stored
  stored-was_processed w actions unknown nothing gapless =
      (run-IsSafe [] w actions gapless (record { table = unknown; safe = rw nothing tt })).safe
