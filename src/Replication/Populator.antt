-- ===== src/Replication/Populator.antt =====
-- extensions/replication/ReplicationQueuePopulator.js: which entries of a log become messages for the
-- replication. It is an extension of LogReader. An entry has a key, and its bucket is a text.
pub mod Sent
pub mod Tests
use Prim.Native.String.{◌++◌ as concat}
use backbeat.Base.{
  Bool, true, false, not, ◌&&◌, ◌||◌, String, Option, none, some, List, [], ◌∷◌, if◌then◌else◌,
  ◌==◌, string_eq,
}
use backbeat.LogReader.{Message, EntryToFilter, Extension}
use backbeat.Replication.{Status, pending}

-- What is read of the metadata of an object.
pub record ObjectValue : Type 0 where
  pub is_nfs : Bool
  pub version_id : Option String
  pub is_null : Bool
  pub replication_status : Status
  pub data_store_name : Option String

-- What arsenal and the language make of keys and values, and the configuration. `read_value` is none where
-- JSON.parse throws.
pub record Populator : Type 0 where
  pub topic : String
  pub users_bucket : String
  pub is_mpu_bucket : String → Bool
  pub is_master_key : String → Bool
  pub object_key : String → String
  pub read_value : String → Option ObjectValue
  pub is_cold : String → Bool
  pub stringify : EntryToFilter → String

unfoldable pub is_pending : Status → Bool
is_pending pending = true
is_pending _ = false

unfoldable pub has_version : Option String → Bool
has_version none = false
has_version (some _) = true

module _ (p : Populator) where
  -- `_entryCanBeReplicated`
  unfoldable pub entry_can_be_replicated : String → ObjectValue → Bool
  unfolding has_version
  entry_can_be_replicated key value =
      not (
        p.is_master_key key
        && not value.is_nfs
        && has_version value.version_id
        && not value.is_null)

  unfoldable pub is_object_cold : Option String → Bool
  is_object_cold none = false
  is_object_cold (some name) = p.is_cold name

  unfoldable pub object_message : EntryToFilter → Message
  object_message e = record {
    topic = p.topic;
    key = concat e.bucket (concat "/" (p.object_key e.key));
    message = p.stringify e;
  }

  -- `_filterBucketOp`
  unfoldable pub filter_bucket_op : EntryToFilter → List Message
  filter_bucket_op e =
      if not (e.type == "put") || p.is_mpu_bucket e.key
      then []
      else record { topic = p.topic; key = e.bucket; message = p.stringify e } ∷ []

  unfoldable pub filter_object : EntryToFilter → ObjectValue → List Message
  unfolding entry_can_be_replicated is_pending is_object_cold object_message
  filter_object e value =
      if not (entry_can_be_replicated e.key value)
      then []
      else if not (is_pending value.replication_status)
      then []
      else if is_object_cold value.data_store_name
      then []
      else object_message e ∷ []

  -- `_filterKeyOp`, none where it throws
  unfoldable pub filter_key_op : EntryToFilter → Option (List Message)
  unfolding filter_object
  filter_key_op e =
      if not (e.type == "put")
      then some []
      else elim (p.read_value e.value) [ none ↦ none | some value ↦ some (filter_object e value) ]

  unfoldable pub filter : Extension
  unfolding filter_bucket_op filter_key_op
  filter e = if e.bucket == p.users_bucket then some (filter_bucket_op e) else filter_key_op e
