-- ===== src/LogReader/Delivery/Batches.antt =====
-- lib/queuePopulator/LogReader.js: the invariant of the reader, and a batch.
use backbeat.Base.{
  ℕ, ◌+◌, ◌≤◌, ◌<◌, ◌≡◌, refl, sym, subst, inl, inr, Bool, true, false, not, ◌&&◌, ◌||◌, String,
  Option, none, some, List, [], arith, if◌then◌else◌, ◌==◌, nat_eq, ltb, Bool-cases, Option-cases,
}
use mathlib.Core.Option.{some-injective}
use backbeat.LogReader.{
  LogRecord, Extension, Topics, LogReader, Stores, Batch, Processed, records_from, start_of,
  process_filter_entries, process_publish_entries, process_save_log_offset, after_publish,
  after_filter, process_log_entries, is_open,
}
use backbeat.LogReader.Delivery.{Within, process_publish_entries-Within, publish_complete}
use backbeat.LogReader.Delivery.Filters.{
  Delivered, Delivered-mono, process_filter_entries-Delivered, records_from_has,
}

-- The process, if it runs, and the offset at which a reader started that found none.
pub record World : Type 0 where
  pub reader : Option LogReader
  pub stores : Stores
  pub base : ℕ

module _ (encode_uri_component transform_key : String → String) (extensions : List Extension)
    (log : ℕ → LogRecord) where
  -- The messages for the records between two positions are in the topics.
  abbrev pub DeliveredBetween : Topics → ℕ → ℕ → Type 0
  DeliveredBetween kafka from to =
      (i : ℕ)
      → from ≤ i
      → i < to
      → Delivered encode_uri_component transform_key extensions kafka (log i)

  pub record IsReaderAt (kafka : Topics) (base : ℕ) (reader : LogReader) : Type 0 where
    pub above : base ≤ reader.log_offset
    pub up_to_offset : DeliveredBetween kafka base reader.log_offset
    pub up_to_cursor :
        (position : ℕ)
        → reader.open_log ≡ some position
        → (base ≤ position) × DeliveredBetween kafka base position

  abbrev pub ReaderAt : Topics → ℕ → Option LogReader → Type 0
  ReaderAt kafka base none = Unit
  ReaderAt kafka base (some reader) = IsReaderAt kafka base reader

  pub record IsDelivering (w : World) : Type 0 where
    pub at : ReaderAt w.stores.kafka w.base w.reader
    pub saved :
        (offset : ℕ)
        → w.stores.saved ≡ some offset
        → (w.base ≤ offset) × DeliveredBetween w.stores.kafka w.base offset

  -- The outcome of a batch.
  abbrev pub Keeps : ℕ → Processed → Type 0
  Keeps base (reader, stores) =
      IsDelivering (record { reader = reader; stores = stores; base = base })

  saves :
      (b : Batch) (base next : ℕ) (reader : LogReader) (stores : Stores)
      → IsReaderAt stores.kafka base reader
      → ((offset : ℕ)
          → stores.saved ≡ some offset
          → (base ≤ offset) × DeliveredBetween stores.kafka base offset)
      → base ≤ next
      → DeliveredBetween stores.kafka base next
      → Keeps base (process_save_log_offset b reader stores next)
  unfolding process_save_log_offset
  saves b base next reader stores at saved above all =
      elim (Bool-cases (not (next == reader.log_offset) && b.listing_done)) [
        | inr e ↦ rw (e, process_save_log_offset) (record { at = at; saved = saved })
        | inl e ↦ elim (Bool-cases b.save_ok) [
          | inr f ↦ rw (e, f, process_save_log_offset) (record { at = tt; saved = saved })
          | inl f ↦
              rw (e, f, process_save_log_offset)
                (record {
                  at = record { above = above; up_to_offset = all; up_to_cursor = at.up_to_cursor };
                  saved = λ offset is.
                      subst (λ o. (base ≤ o) × DeliveredBetween stores.kafka base o)
                        (some-injective _ _ is) (above, all);
                })
        ]
      ]

  DeliveredBetween-mono :
      (a b : Topics) (from to : ℕ)
      → Within a b
      → DeliveredBetween a from to
      → DeliveredBetween b from to
  DeliveredBetween-mono a b from to more h i l r =
      Delivered-mono encode_uri_component transform_key extensions a b (log i) more (h i l r)

  -- What the offset in ZooKeeper stands for.
  abbrev pub SavedIn : ℕ → Stores → Topics → Type 0
  SavedIn base stores kafka =
      (offset : ℕ)
      → stores.saved ≡ some offset
      → (base ≤ offset) × DeliveredBetween kafka base offset

  -- After the entries of the batch were sent, all of them or not.
  publishes :
      (b : Batch) (base next : ℕ) (reader : LogReader) (opens : Bool) (stores : Stores)
      (x : Topics × Bool)
      → Within stores.kafka x.0
      → IsReaderAt stores.kafka base reader
      → SavedIn base stores stores.kafka
      → base ≤ next
      → (x.1 ≡ true → DeliveredBetween x.0 base next)
      → Keeps base (
          after_publish b
            (record reader { open_log = if opens then some next else none })
            stores
            next
            x)
  unfolding after_publish
  publishes b base next reader opens stores (kafka, false) more at saved above all = record {
    at = tt;
    saved = λ offset is.
        let (below, given) = saved offset is in
        (below, DeliveredBetween-mono stores.kafka kafka base offset more given);
  }
  publishes b base next reader opens stores (kafka, true) more at saved above all =
      saves b base next (record reader { open_log = if opens then some next else none })
        (record stores { kafka = kafka })
        (record {
          above = at.above;
          up_to_offset =
              DeliveredBetween-mono stores.kafka kafka base reader.log_offset more at.up_to_offset;
          up_to_cursor = λ position is.
              subst (λ o. (base ≤ o) × DeliveredBetween kafka base o) (ground (arith, is))
                (above, all refl);
        })
        (λ offset is.
          let (below, given) = saved offset is in
          (below, DeliveredBetween-mono stores.kafka kafka base offset more given))
        above (all refl)

  -- The records before the batch and those of the batch.
  both :
      (base start count : ℕ) (shares : Topics) (kafka : Topics)
      → DeliveredBetween kafka base start
      → process_filter_entries encode_uri_component transform_key extensions
          (records_from log start count)
          []
        ≡ some shares
      → Within shares kafka
      → DeliveredBetween kafka base (start + count)
  both base start count shares kafka before is within i l r = elim (Bool-cases (ltb i start)) [
    | inl e ↦ before i l (ground (arith, e))
    | inr e ↦
        Delivered-mono encode_uri_component transform_key extensions shares kafka (log i) within (
          process_filter_entries-Delivered encode_uri_component transform_key extensions
            (records_from log start count) [] shares is (log i)
            (records_from_has log start count i (ground (arith, e)) r))
  ]

  filters :
      (b : Batch) (base start : ℕ) (reader : LogReader) (opens : Bool) (stores : Stores)
      (filtered : Option Topics)
      → process_filter_entries encode_uri_component transform_key extensions
          (records_from log start b.count)
          []
        ≡ filtered
      → IsReaderAt stores.kafka base reader
      → SavedIn base stores stores.kafka
      → base ≤ start
      → DeliveredBetween stores.kafka base start
      → Keeps base (
          after_filter b
            (record reader { open_log = if opens then some (start + b.count) else none })
            stores
            (start + b.count)
            filtered)
  unfolding after_filter
  filters b base start reader opens stores none is at saved above before = record {
    at = tt;
    saved = saved;
  }
  filters b base start reader opens stores (some shares) is at saved above before =
      let sent = process_publish_entries b.sent shares stores.kafka in
      let more = process_publish_entries-Within b.sent shares stores.kafka in
      publishes b base (start + b.count) reader opens stores sent more at saved (omega arith)
        (λ well.
          both base start b.count shares sent.0
            (DeliveredBetween-mono stores.kafka sent.0 base start more before) is
            (publish_complete b.sent shares stores.kafka well))

  start_of_closed :
      (reader : LogReader) → reader.open_log ≡ none → start_of reader ≡ reader.log_offset
  unfolding start_of
  start_of_closed reader e = rw (e, start_of) refl

  start_of_open :
      (reader : LogReader) (position : ℕ)
      → reader.open_log ≡ some position
      → start_of reader ≡ position
  unfolding start_of
  start_of_open reader position e = rw (e, start_of) refl

  start_of-IsReaderAt :
      (kafka : Topics) (base : ℕ) (reader : LogReader)
      → IsReaderAt kafka base reader
      → (base ≤ start_of reader) × DeliveredBetween kafka base (start_of reader)
  start_of-IsReaderAt kafka base reader at = elim (Option-cases reader.open_log) [
    | inl e ↦
        subst (λ p. (base ≤ p) × DeliveredBetween kafka base p) (sym (start_of_closed reader e))
          (at.above, at.up_to_offset)
    | inr (position, e) ↦
        subst (λ p. (base ≤ p) × DeliveredBetween kafka base p)
          (sym (start_of_open reader position e)) (at.up_to_cursor position e)
  ]

  pub processes :
      (b : Batch) (base : ℕ) (reader : LogReader) (stores : Stores)
      → IsReaderAt stores.kafka base reader
      → SavedIn base stores stores.kafka
      → Keeps base
          (process_log_entries encode_uri_component transform_key extensions log b reader stores)
  unfolding process_log_entries
  processes b base reader stores at saved =
      elim (Bool-cases (not (is_open reader) && not b.read_ok)) [
        | inl e ↦ rw (e, process_log_entries) (record { at = tt; saved = saved })
        | inr e ↦ elim (Bool-cases b.starts) [
          | inr f ↦ rw (e, f, process_log_entries) (record { at = at; saved = saved })
          | inl f ↦ elim (Bool-cases b.stream_ok) [
            | inr g ↦ rw (e, f, g, process_log_entries) (record { at = tt; saved = saved })
            | inl g ↦
                let (below, given) = start_of-IsReaderAt stores.kafka base reader at in
                rw (e, f, g, process_log_entries)
                  (filters b base (start_of reader) reader (is_open reader || b.tailable) stores _
                    refl at saved below given)
          ]
        ]
      ]
