-- ===== src/LogReader.antt =====
-- lib/queuePopulator/LogReader.js: batches of records of a log, which the extensions turn into messages for
-- topics of Kafka. A position in the log is the number of the record, and the offset that a log tells is
-- the position after the last record that it gave. What the extensions make of an entry is a parameter,
-- `none` for an error, with `publish` of lib/queuePopulator/QueuePopulatorExtension.js.
pub mod Delivery
pub mod Tests
use backbeat.Base.{
  ℕ, zero, suc, ◌+◌, Bool, true, false, not, ◌&&◌, ◌||◌, String, Option, none, some, List, [], ◌∷◌,
  ◌++◌, if◌then◌else◌, ◌==◌, nat_eq, string_eq,
}
use backbeat.Base.Assoc.{Assoc, get, put}

pub record Message : Type 0 where
  pub topic : String
  pub key : String
  pub message : String

pub record Entry : Type 0 where
  pub type : String
  pub key : String
  pub value : Option String
  pub timestamp : Option ℕ

-- A record of the log; it may have no entries.
pub record LogRecord : Type 0 where
  pub db : String
  pub timestamp : Option ℕ
  pub entries : List Entry

-- What an extension gets of an entry, and the messages that it publishes.
pub record EntryToFilter : Type 0 where
  pub type : String
  pub bucket : String
  pub key : String
  pub value : String
  pub commit_timestamp : Option ℕ
  pub op_timestamp : Option ℕ

abbrev pub Extension : Type 0
Extension = EntryToFilter → Option (List Message)

-- The entries of each topic, in a batch or in Kafka.
abbrev pub Topics : Type 0
Topics = Assoc String (List (String × String))

unfoldable pub entries_of : Topics → String → List (String × String)
entries_of m topic = elim (get m topic) [ none ↦ [] | some l ↦ l ]

-- `encode_uri_component` is that of the language.
module _ (encode_uri_component : String → String) where
  -- `publish` of an extension
  unfoldable pub publish : Topics → Message → Topics
  unfolding entries_of
  publish batch m =
      put batch m.topic (entries_of batch m.topic ++ (encode_uri_component m.key, m.message) ∷ [])

  unfoldable pub publish_all : Topics → List Message → Topics
  unfolding publish
  publish_all batch [] = batch
  publish_all batch (m ∷ ms) = publish_all (publish batch m) ms

-- `transform_key` strips the prefix of the metadata format, which arsenal knows.
module _ (encode_uri_component transform_key : String → String) (extensions : List Extension) where
  unfoldable pub to_filter : LogRecord → Entry → String → EntryToFilter
  to_filter r e value = record {
    type = e.type;
    bucket = r.db;
    key = transform_key e.key;
    value = value;
    commit_timestamp = r.timestamp;
    op_timestamp = e.timestamp;
  }

  apply_extensions : List Extension → EntryToFilter → Topics → Option Topics
  unfolding publish_all
  apply_extensions [] e batch = some batch
  apply_extensions (ext ∷ exts) e batch = elim (ext e) [
    | none ↦ none
    | some ms ↦ apply_extensions exts e (publish_all encode_uri_component batch ms)
  ]

  -- `_processLogEntry`
  unfoldable pub process_log_entry : LogRecord → Entry → Topics → Option Topics
  unfolding apply_extensions to_filter
  process_log_entry r e batch = elim e.value [
    | none ↦ some batch
    | some value ↦ apply_extensions extensions (to_filter r e value) batch
  ]

  -- `_filterEntries`
  unfoldable pub filter_entries : LogRecord → List Entry → Topics → Option Topics
  unfolding process_log_entry
  filter_entries r [] batch = some batch
  filter_entries r (e ∷ es) batch = elim (process_log_entry r e batch) [
    | none ↦ none
    | some batch' ↦ filter_entries r es batch'
  ]

  -- `_processFilterEntries`
  unfoldable pub process_filter_entries : List LogRecord → Topics → Option Topics
  unfolding filter_entries
  process_filter_entries [] batch = some batch
  process_filter_entries (r ∷ rs) batch = elim (filter_entries r r.entries batch) [
    | none ↦ none
    | some batch' ↦ process_filter_entries rs batch'
  ]

-- `_processPublishEntries`: the entries of all topics are sent, and some may fail. The topics of Kafka
-- afterwards, and whether all were sent.
unfoldable pub process_publish_entries :
    (String → Bool) → List (String × List (String × String)) → Topics → Topics × Bool
unfolding entries_of
process_publish_entries sent [] kafka = (kafka, true)
process_publish_entries sent ((topic, []) ∷ rest) kafka = process_publish_entries sent rest kafka
process_publish_entries sent ((topic, x ∷ xs) ∷ rest) kafka =
    let kafka' = if sent topic then put kafka topic (entries_of kafka topic ++ x ∷ xs) else kafka in
    let (after, well) = process_publish_entries sent rest kafka' in (after, sent topic && well)

-- A reader, with the position of its tailable cursor if it has one.
pub record LogReader : Type 0 where
  pub log_offset : ℕ
  pub open_log : Option ℕ

-- What is outside of the process: the offset in ZooKeeper and the topics.
pub record Stores : Type 0 where
  pub saved : Option ℕ
  pub kafka : Topics

-- How the log and the stores answer in a batch. `starts` is false for a log of Raft that has nothing from
-- the offset on, and `listing_done` is `reachedUnpublishedListing`, true if the log has no such thing.
pub record Batch : Type 0 where
  pub read_ok : Bool
  pub tailable : Bool
  pub starts : Bool
  pub count : ℕ
  pub stream_ok : Bool
  pub sent : String → Bool
  pub listing_done : Bool
  pub save_ok : Bool

-- `_readLogOffset` with `_initializeLogOffset`: `initial` is where a reader starts that finds no offset.
unfoldable pub or_initial : Option ℕ → ℕ → ℕ
or_initial none initial = initial
or_initial (some offset) initial = offset

unfoldable pub read_log_offset : Stores → ℕ → ℕ
unfolding or_initial
read_log_offset stores initial = or_initial stores.saved initial

unfoldable pub setup : Stores → ℕ → LogReader
unfolding read_log_offset
setup stores initial = record { log_offset = read_log_offset stores initial; open_log = none }

unfoldable pub records_from : (ℕ → LogRecord) → ℕ → ℕ → List LogRecord
records_from log start zero = []
records_from log start (suc n) = log start ∷ records_from log (start + 1) n

-- The reader afterwards, or none after an error, and the stores.
abbrev pub Processed : Type 0
Processed = Option LogReader × Stores

-- `_processSaveLogOffset`
unfoldable pub process_save_log_offset : Batch → LogReader → Stores → ℕ → Processed
process_save_log_offset b reader stores next =
    if not (next == reader.log_offset) && b.listing_done
    then if b.save_ok
      then (some (record reader { log_offset = next }), record stores { saved = some next })
      else (none, stores)
    else (some reader, stores)

after_publish : Batch → LogReader → Stores → ℕ → Topics × Bool → Processed
unfolding process_save_log_offset
after_publish b reader stores next (kafka, true) =
    process_save_log_offset b reader (record stores { kafka = kafka }) next
after_publish b reader stores next (kafka, false) = (none, record stores { kafka = kafka })

after_filter : Batch → LogReader → Stores → ℕ → Option Topics → Processed
unfolding after_publish process_publish_entries
after_filter b reader stores next none = (none, stores)
after_filter b reader stores next (some batch) =
    after_publish b reader stores next (process_publish_entries b.sent batch stores.kafka)

-- `_processReadRecords`: where the batch starts.
unfoldable pub start_of : LogReader → ℕ
start_of reader = elim reader.open_log [ none ↦ reader.log_offset | some position ↦ position ]

is_open : LogReader → Bool
is_open reader = elim reader.open_log [ none ↦ false | some _ ↦ true ]

-- `processLogEntries`; the cursor is past the records that were read.
module _ (encode_uri_component transform_key : String → String) (extensions : List Extension)
    (log : ℕ → LogRecord) where
  unfoldable pub process_log_entries : Batch → LogReader → Stores → Processed
  unfolding start_of is_open process_filter_entries after_filter
  process_log_entries b reader stores =
      let start = start_of reader in
      let next = start + b.count in
      let reader' = record reader {
        open_log = if is_open reader || b.tailable then some next else none;
      } in
      if not (is_open reader) && not b.read_ok
      then (none, stores)
      else if not b.starts
      then (some reader, stores)
      else if not b.stream_ok
      then (none, stores)
      else after_filter b reader' stores next (
          process_filter_entries encode_uri_component transform_key extensions
            (records_from log start b.count) [])
