-- ===== src/Replication/Populator/Sent.antt =====
-- The populator as an extension of a log reader: which objects have a message in the topic of the
-- replication.
use Prim.Native.String.{◌++◌ as concat}
use backbeat.Base.{
  ◌≤◌, ◌<◌, ◌≡◌, ◌≢◌, ◌⊎◌, ℕ, refl, inl, inr, true, false, String, Option, none, some, List, [],
  ◌∷◌, arith, string_eq, IsIn, beq_ne, Bool-cases, Option-cases,
}
use backbeat.Base.Assoc.{get}
use backbeat.LogReader.{Entry, LogRecord, EntryToFilter, Extension, Topics, to_filter, entries_of}
use backbeat.LogReader.Delivery.Runs.{Event, acts, fresh, saved-was_delivered}
use backbeat.Replication.{pending}
use backbeat.Replication.Populator.{
  ObjectValue, Populator, is_pending, has_version, entry_can_be_replicated, is_object_cold,
  object_message, filter_object, filter_key_op, filter,
}

-- An entry of a record puts an object whose replication is pending. If its key is a master key, then the
-- bucket is an NFS one, or the object has no version id or is a null version; and it is not in a cold
-- location.
pub record IsToReplicate (p : Populator) (transform_key : String → String) (r : LogRecord)
    (e : Entry) (text : String) (value : ObjectValue) : Type 0 where
  pub of_object : r.db ≢ p.users_bucket
  pub is_put : e.type ≡ "put"
  pub has_value : e.value ≡ some text
  pub reads : p.read_value text ≡ some value
  pub if_master :
      p.is_master_key (transform_key e.key) ≡ true
      → (value.is_nfs ≡ true) ⊎ ((value.version_id ≡ none) ⊎ (value.is_null ≡ true))
  pub waits : value.replication_status ≡ pending
  pub warm : (name : String) → value.data_store_name ≡ some name → p.is_cold name ≡ false

-- The entry as it is handed to the extensions.
abbrev pub handed : (String → String) → LogRecord → Entry → String → EntryToFilter
handed transform_key r e text = record {
  type = e.type;
  bucket = r.db;
  key = transform_key e.key;
  value = text;
  commit_timestamp = r.timestamp;
  op_timestamp = e.timestamp;
}

-- A topic has a message with a key.
abbrev pub HasMessage : Topics → String → String → String → Type 0
HasMessage kafka topic key message =
    (l : List (String × String)) × (get kafka topic ≡ some l) × IsIn (key, message) l

in_topic :
    (kafka : Topics) (topic key message : String)
    → IsIn (key, message) (entries_of kafka topic)
    → HasMessage kafka topic key message
unfolding entries_of
in_topic kafka topic key message i = elim (Option-cases (get kafka topic)) [
  | inl e ↦ absurd (rw (e, entries_of) at i)
  | inr (l, e) ↦ (l, e, rw (e, entries_of) at i)
]

no_version : (o : Option String) → o ≡ none → has_version o ≡ false
unfolding has_version
no_version o h = rw h refl

can_be :
    (p : Populator) (key : String) (value : ObjectValue)
    → (p.is_master_key key ≡ true
        → (value.is_nfs ≡ true) ⊎ ((value.version_id ≡ none) ⊎ (value.is_null ≡ true)))
    → entry_can_be_replicated p key value ≡ true
unfolding entry_can_be_replicated
can_be p key value h = elim (Bool-cases (p.is_master_key key)) [
  | inr e ↦ rw e refl
  | inl e ↦ elim (h e) [
    | inl nfs ↦ ground (arith, e, nfs)
    | inr (inl v) ↦ ground (arith, no_version value.version_id v)
    | inr (inr n) ↦ ground (arith, n)
  ]
]

is_warm :
    (p : Populator) (o : Option String)
    → ((name : String) → o ≡ some name → p.is_cold name ≡ false)
    → is_object_cold p o ≡ false
unfolding is_object_cold
is_warm p none h = refl
is_warm p (some name) h = h name refl

module _ (encode_uri_component transform_key : String → String) (p : Populator)
    (extensions : List Extension) where
  filtered :
      (r : LogRecord) (e : Entry) (text : String) (value : ObjectValue)
      → IsToReplicate p transform_key r e text value
      → filter p (to_filter encode_uri_component transform_key extensions r e text)
        ≡ some (
            record {
              topic = p.topic;
              key = concat r.db (concat "/" (p.object_key (transform_key e.key)));
              message = p.stringify (handed transform_key r e text);
            }
            ∷ [])
  unfolding filter filter_key_op filter_object object_message to_filter is_pending
  filtered r e text value h =
      rw
        (
          beq_ne r.db p.users_bucket h.of_object,
          (string_eq.beq_iff e.type "put").1 h.is_put,
          h.reads,
          can_be p (transform_key e.key) value h.if_master,
          h.waits,
          is_warm p value.data_store_name h.warm,
        )
        refl

  -- Let the populator be an extension of a log reader that finds no offset in ZooKeeper at first. After any
  -- batches, crashes and restarts: if a record below the saved offset, from where the last reader started
  -- that found none, is not of the bucket of users and has an entry that puts an object with metadata that
  -- can be read, whose replication is pending, which is not in a cold location and whose key is no master
  -- key but in an NFS bucket, without a version id or of a null version, then the topic of the replication
  -- has the text of this entry, with the bucket and the key of the object as its key.
  pub replications_sent :
      (log : ℕ → LogRecord)
      → IsIn (filter p) extensions
      → (kafka : Topics) (run : List Event) (offset : ℕ)
      → (acts encode_uri_component transform_key extensions log (fresh kafka) run).stores.saved
        ≡ some offset
      → (i : ℕ)
      → (acts encode_uri_component transform_key extensions log (fresh kafka) run).base ≤ i
      → i < offset
      → (e : Entry) → IsIn e (log i).entries
      → (text : String) (value : ObjectValue) → IsToReplicate p transform_key (log i) e text value
      → HasMessage
          (acts encode_uri_component transform_key extensions log (fresh kafka) run).stores.kafka
          p.topic
          (encode_uri_component
            (concat (log i).db (concat "/" (p.object_key (transform_key e.key)))))
          (p.stringify (handed transform_key (log i) e text))
  replications_sent log there kafka run offset saved i above below e has text value h =
      in_topic _ _ _ _ (
        saved-was_delivered encode_uri_component transform_key extensions log kafka run offset saved
          i above below e has text h.has_value (filter p) there _ (filtered (log i) e text value h)
          _ (inl refl))
