-- ===== src/Consumer/Commits.antt =====
-- lib/BackbeatConsumer.js: what is stored for the next commit, and what the consumer's ledger sees.
use backbeat.Base.{
  All, All-map, ℕ, ◌≤◌, ◌<◌, ◌≡◌, ◌∙◌, refl, sym, subst, ap, inl, inr, Bool, true, ◌||◌, ◌&&◌,
  String, none, some, List, [], ◌∷◌, ◌++◌, arith, if◌then◌else◌, foldl, get_elem?, Option-cases,
  Bool-cases, nat_eq, string_eq, ◌==◌,
}
use backbeat.Ledger.{
  Ledger, PartitionOffsets, fresh, committable, consume, process, Event, consumed, processed, run,
  apply, partition_offsets, on_offset_consumed, on_offset_processed,
}
use backbeat.Ledger.Table.{partition_offsets-write, partition_offsets-calls, Call}
use backbeat.Ledger.Safety.{was_processed, IsContiguous}
use backbeat.Consumer.{
  Entry, Message, Queue, Consumer, World, Action, tried, received, done, committed, defined,
  start_message, start_entry, act,
}

module _ (t : String) (k : ℕ) where
  abbrev pub is_of : Message → Bool
  is_of m = (m.topic == t) && (m.partition == k)

  -- The events of the partition in a list of consumed entries, in one action, and in a run.
  abbrev pub events_of_entries : List Entry → List Event
  events_of_entries [] = []
  events_of_entries (e ∷ es) =
      let rest = events_of_entries es in
      elim (defined e) [ none ↦ rest | some m ↦ if is_of m then consumed m.offset ∷ rest else rest ]

  abbrev pub processed_by : Message → List Event
  processed_by m = if is_of m then processed m.offset ∷ [] else []

  module _ {Q : Type 0} (queue : Queue Q) where
    abbrev pub events_of : World Q → Action → List Event
    events_of w (tried _) = []
    events_of w (received i none) = []
    events_of w (received i (some entries)) = elim (get_elem? w.requests i) [
      | none ↦ []
      | some n ↦ events_of_entries entries
    ]
    events_of w (done committable _ m) = if committable then processed_by m else []
    events_of w (committed _ m) = processed_by m

    abbrev pub events : World Q → List Action → List Event
    events w [] = []
    events w (a ∷ rest) = events_of w a ++ events (act queue w a) rest

pub run-append : (p : PartitionOffsets) (es fs : List Event) → run p (es ++ fs) ≡ run (run p es) fs
run-append p [] fs = refl
run-append p (e ∷ es) fs = run-append (apply p e) es fs

was_processed-append :
    (es fs : List Event) (o : ℕ)
    → was_processed (es ++ fs) o ≡ (was_processed es o || was_processed fs o)
was_processed-append [] fs o = refl
was_processed-append (consumed x ∷ es) fs o = was_processed-append es fs o
was_processed-append (processed x ∷ es) fs o = ground (arith, was_processed-append es fs o)

pub IsContiguous-append :
    (base : ℕ) (p : PartitionOffsets) (es fs : List Event)
    → IsContiguous base p (es ++ fs)
    → IsContiguous base p es
IsContiguous-append base p [] fs h = tt
IsContiguous-append base p (consumed x ∷ es) fs h =
    (h.0, h.1, IsContiguous-append base (consume p x) es fs h.2)
IsContiguous-append base p (processed x ∷ es) fs h = IsContiguous-append base (process p x) es fs h

pub append-[] : (es : List Event) → es ++ [] ≡ es
append-[] [] = refl
append-[] (e ∷ es) = ap (λ xs. e ∷ xs) (append-[] es)

pub append_assoc : (xs ys zs : List Event) → (xs ++ ys) ++ zs ≡ xs ++ (ys ++ zs)
append_assoc [] ys zs = refl
append_assoc (x ∷ xs) ys zs = ap (λ es. x ∷ es) (append_assoc xs ys zs)

module _ (t : String) (k base : ℕ) where
  -- Every offset below a stored one was processed before it was stored.
  abbrev pub IsBelow : List Event → Message → Type 0
  IsBelow es m = is_of t k m ≡ true → (o : ℕ) → base ≤ o → o < m.offset → was_processed es o ≡ true

  pub record IsSafe {Q : Type 0} (es : List Event) (s : Consumer Q) : Type 0 where
    pub table : partition_offsets s.offset_ledger t k ≡ run fresh es
    pub safe : All (IsBelow es) s.stored

  pub IsBelow-append : (es fs : List Event) (m : Message) → IsBelow es m → IsBelow (es ++ fs) m
  IsBelow-append es fs m h is o from below =
      rw was_processed-append (ground (arith, h is o from below))

  start_message-table :
      {Q : Type 0}
      → (queue : Queue Q) (s : Consumer Q) (m : Message)
      → (partition_offsets (start_message queue s m).offset_ledger t k
          ≡ run
              (partition_offsets s.offset_ledger t k)
              (if is_of t k m then consumed m.offset ∷ [] else []))
        × ((start_message queue s m).stored ≡ s.stored)
  unfolding start_message on_offset_consumed
  start_message-table queue s m = (
    partition_offsets-calls s.offset_ledger (Call.consumed m.topic m.partition m.offset ∷ []) t k,
    refl,
  )

  pub committable-table :
      (l : Ledger) (m : Message)
      → partition_offsets (on_offset_processed l m.topic m.partition m.offset).0 t k
        ≡ run (partition_offsets l t k) (processed_by t k m)
  unfolding on_offset_processed
  committable-table l m =
      partition_offsets-calls l (Call.processed m.topic m.partition m.offset ∷ []) t k

  pub committable-answer :
      (l : Ledger) (m : Message)
      → is_of t k m ≡ true
      → (on_offset_processed l m.topic m.partition m.offset).1
        ≡ committable (partition_offsets (on_offset_processed l m.topic m.partition m.offset).0 t k)
  unfolding on_offset_processed
  committable-answer l m h = ap committable (
      sym (
        partition_offsets-write l m.topic m.partition
          (process (partition_offsets l m.topic m.partition) m.offset) t k
        ∙ rw h refl))

  module _ {Q : Type 0} (queue : Queue Q) where
    pub entries-IsSafe :
        (entries : List Entry) (es : List Event) (s : Consumer Q)
        → IsSafe es s
        → IsSafe (es ++ events_of_entries t k entries) (foldl (start_entry queue) s entries)
    unfolding start_entry
    entries-IsSafe [] es s h = rw append-[] h
    entries-IsSafe (e ∷ rest) es s h = elim (Option-cases (defined e)) [
      | inl d ↦ rw (d, start_entry, events_of_entries) (entries-IsSafe rest es s h)
      | inr (m, d) ↦
          let (table, stored) = start_message-table queue s m in
          elim (Bool-cases (is_of t k m)) [
            | inl is ↦
                rw (d, is, start_entry, events_of_entries)
                  (subst
                    (λ xs. IsSafe xs (foldl (start_entry queue) (start_message queue s m) rest))
                    (append_assoc es (consumed m.offset ∷ []) (events_of_entries t k rest))
                    (entries-IsSafe rest (es ++ consumed m.offset ∷ []) (start_message queue s m)
                      (record {
                        table = table ∙ rw (is, h.table, run-append) refl;
                        safe = rw stored (
                            All-map _ _ s.stored (IsBelow-append es (consumed m.offset ∷ []))
                              h.safe);
                      })))
            | inr is ↦
                rw (d, is, start_entry, events_of_entries)
                  (entries-IsSafe rest es (start_message queue s m)
                    (record { table = table ∙ rw (is, h.table) refl; safe = rw stored h.safe }))
          ]
    ]
