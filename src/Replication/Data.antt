-- ===== src/Replication/Data.antt =====
-- Backends, entries and messages of the replication, and the metadata as a parameter.
use backbeat.Base.{ℕ, Bool, String, Option, List}

pub data Status : Type 0 where
  completed failed pending processing replica : Status
  other : String → Status

pub record Backend : Type 0 where
  pub site : String
  pub status : Status
  pub data_store_version_id : Option String

-- The operations of ObjectMD of arsenal. `original_after m c` is how the entry m reads after its clone has
-- become c.
pub record ObjectMd (M : Type 0) : Type 0 where
  pub backends : M → List Backend
  pub site_status : M → String → Option Status
  pub replication_status : M → Status
  pub site_version_id : M → String → Option String
  pub is_nfs : M → Bool
  pub content_md5 : M → String
  pub same_tags : M → M → Bool
  pub data_store_name : M → String
  pub clone : M → M
  pub original_after : M → M → M
  pub set_backends : M → List Backend → M
  pub set_site_status : M → String → Status → M
  pub set_replication_status : M → Status → M
  pub set_storage_class : M → String → M
  pub set_site_version_id : M → String → Option String → M
  pub clear_origin_op : M → M

-- What a message tells: the object's metadata, a site, and how many replays there still are.
pub record Entry (M : Type 0) : Type 0 where
  pub md : M
  pub site : String
  pub replay_count : Option ℕ

-- What a message of a topic of replays tells; its site is that of the storage class.
pub record Replay (M : Type 0) : Type 0 where
  pub md : M
  pub replay_count : ℕ

-- What is sent: to the topic of failed entries, notifications, to a topic of replays, and the orders to
-- collect the data.
pub data Effect (M : Type 0) : Type 0 where
  failed_entry : Entry M → Effect M
  notification : Entry M → Effect M
  replayed : String → Replay M → Effect M
  collected : M → Effect M

pub record Config : Type 0 where
  pub replay_topics : Option (List String)
  pub producers : List String
  pub monitor_failures : Bool
  pub notifies : Bool
  pub is_transient : String → Bool
