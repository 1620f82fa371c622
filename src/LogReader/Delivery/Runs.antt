-- ===== src/LogReader/Delivery/Runs.antt =====
-- Batches, crashes and restarts of a log reader, from lib/queuePopulator/LogReader.js, and what they deliver
-- since the last start that found no offset.
use backbeat.Base.{
  ℕ, ◌≤◌, ◌≡◌, refl, subst, String, Option, none, some, List, [], ◌∷◌, arith, nat_eq,
}
use mathlib.Core.Option.{none-ne-some}
use backbeat.LogReader.{
  LogRecord, Extension, Topics, LogReader, Batch, setup, or_initial, process_log_entries,
}
use backbeat.LogReader.Delivery.Batches.{
  World, DeliveredBetween, IsReaderAt, ReaderAt, IsDelivering, processes,
}

-- A batch, or the start of the process, which would start at an offset if it found none.
pub data Event : Type 0 where
  batch : Batch → Event
  started : ℕ → Event

abbrev pub fresh : Topics → World
fresh kafka = record { reader = none; stores = record { saved = none; kafka = kafka }; base = 0 }

base_after : Option ℕ → ℕ → ℕ → ℕ
base_after none base initial = initial
base_after (some _) base initial = base

module _ (encode_uri_component transform_key : String → String) (extensions : List Extension)
    (log : ℕ → LogRecord) where
  on_batch : World → Batch → Option LogReader → World
  on_batch w b none = w
  on_batch w b (some reader) =
      let (reader', stores') =
        process_log_entries encode_uri_component transform_key extensions log b reader w.stores in
      record w { reader = reader'; stores = stores' }

  -- The process ends at an error, and nothing happens until it is started again.
  on_start : World → ℕ → Option LogReader → World
  unfolding base_after
  on_start w initial (some reader) = w
  on_start w initial none = record w {
    reader = some (setup w.stores initial);
    base = base_after w.stores.saved w.base initial;
  }

  unfoldable pub act : World → Event → World
  unfolding on_batch on_start
  act w (batch b) = on_batch w b w.reader
  act w (started initial) = on_start w initial w.reader

  abbrev pub acts : World → List Event → World
  acts w [] = w
  acts w (e ∷ rest) = acts (act w e) rest

  batch-IsDelivering :
      (w : World) (b : Batch) (r : Option LogReader)
      → w.reader ≡ r
      → IsDelivering encode_uri_component transform_key extensions log w
      → IsDelivering encode_uri_component transform_key extensions log (on_batch w b r)
  unfolding on_batch
  batch-IsDelivering w b none is h = h
  batch-IsDelivering w b (some reader) is h =
      processes encode_uri_component transform_key extensions log b w.base reader w.stores
        (subst (ReaderAt encode_uri_component transform_key extensions log w.stores.kafka w.base) is
          h.at)
        h.saved

  begins :
      (saved : Option ℕ) (base initial : ℕ) (kafka : Topics)
      → ((offset : ℕ)
          → saved ≡ some offset
          → (base ≤ offset)
            × DeliveredBetween encode_uri_component transform_key extensions log kafka base offset)
      → IsReaderAt encode_uri_component transform_key extensions log kafka
          (base_after saved base initial)
          (record { log_offset = or_initial saved initial; open_log = none })
        × ((offset : ℕ)
            → saved ≡ some offset
            → (base_after saved base initial ≤ offset)
              × DeliveredBetween encode_uri_component transform_key extensions log kafka
                  (base_after saved base initial)
                  offset)
  unfolding base_after or_initial
  begins none base initial kafka given = (
    record {
      above = omega arith;
      up_to_offset = λ i l r. absurd (omega arith);
      up_to_cursor = λ position e. absurd (none-ne-some _ e);
    },
    λ offset e. absurd (none-ne-some _ e),
  )
  begins (some offset) base initial kafka given =
      let (below, all) = given offset refl in
      (
        record {
          above = below;
          up_to_offset = all;
          up_to_cursor = λ position e. absurd (none-ne-some _ e);
        },
        given,
      )

  start-IsDelivering :
      (w : World) (initial : ℕ) (r : Option LogReader)
      → IsDelivering encode_uri_component transform_key extensions log w
      → IsDelivering encode_uri_component transform_key extensions log (on_start w initial r)
  unfolding on_start setup
  start-IsDelivering w initial (some reader) h = h
  start-IsDelivering w initial none h =
      let (at, saved) = begins w.stores.saved w.base initial w.stores.kafka h.saved in
      record { at = at; saved = saved }

  act-IsDelivering :
      (w : World) (e : Event)
      → IsDelivering encode_uri_component transform_key extensions log w
      → IsDelivering encode_uri_component transform_key extensions log (act w e)
  unfolding act
  act-IsDelivering w (batch b) h = batch-IsDelivering w b w.reader refl h
  act-IsDelivering w (started initial) h = start-IsDelivering w initial w.reader h

  acts-IsDelivering :
      (w : World) (run : List Event)
      → IsDelivering encode_uri_component transform_key extensions log w
      → IsDelivering encode_uri_component transform_key extensions log (acts w run)
  acts-IsDelivering w [] h = h
  acts-IsDelivering w (e ∷ rest) h = acts-IsDelivering (act w e) rest (act-IsDelivering w e h)

  -- At-least-once delivery from the log. Let there be no reader and no offset in ZooKeeper at first. After
  -- any batches and restarts, where the process ends at each error of the log, of a filter, of Kafka or of
  -- ZooKeeper: all messages that the extensions make of the records below the offset in ZooKeeper, from
  -- where the last reader started that found none, are in the topics.
  pub saved-was_delivered :
      (kafka : Topics) (run : List Event) (offset : ℕ)
      → (acts (fresh kafka) run).stores.saved ≡ some offset
      → DeliveredBetween encode_uri_component transform_key extensions log
          (acts (fresh kafka) run).stores.kafka
          (acts (fresh kafka) run).base
          offset
  saved-was_delivered kafka run offset is =
      ((acts-IsDelivering (fresh kafka) run
          (record { at = tt; saved = λ o e. absurd (none-ne-some _ e) })).saved
        offset is).1
