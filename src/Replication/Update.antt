-- ===== src/Replication/Update.antt =====
-- `_updateReplicationStatus` of extensions/replication/tasks/UpdateReplicationStatus.js on the metadata of
-- an object, one message after the other, as the task scheduler orders them by object.
use backbeat.Base.{
  Bool, true, false, Option, none, some, List, [], ◌∷◌, ◌++◌, String, not, if◌then◌else◌,
}
use backbeat.Replication.{
  Status, completed, failed, pending, ObjectMd, Entry, Replay, Effect, collected, Config, Updated,
  is_completed, get_updated_source_entry, to_completed_entry, to_failed_entry,
}

-- The metadata that are stored, and all that was sent.
pub record World (M : Type 0) : Type 0 where
  pub stored : M
  pub sent : List (Effect M)

-- A message, and how the requests for the metadata and for their update are answered.
pub record Event (M : Type 0) : Type 0 where
  pub entry : Entry M
  pub get_ok : Bool
  pub put_ok : Bool

-- `_checkStatus`
unfoldable pub is_known : Option Status → Bool
is_known (some completed) = true
is_known (some failed) = true
is_known (some pending) = true
is_known _ = false

module _ {M : Type 0} (md : ObjectMd M) (config : Config) where
  -- `_handleGarbageCollection`
  unfoldable pub handle_garbage_collection : M → List (Effect M)
  handle_garbage_collection m =
      if config.is_transient (md.data_store_name m)
      then if is_completed (some (md.replication_status m)) then collected m ∷ [] else []
      else []

  unfoldable pub put_metadata : World M → Bool → Updated md → World M × Bool
  unfolding handle_garbage_collection
  put_metadata w ok (none, effects) = (record w { sent = effects ++ w.sent }, true)
  put_metadata w ok (some m, effects) =
      if ok
      then (record { stored = m; sent = handle_garbage_collection m ++ effects ++ w.sent }, true)
      else (record w { sent = effects ++ w.sent }, false)

  -- The world afterwards, and whether there was no error.
  unfoldable pub update_replication_status : World M → Event M → World M × Bool
  unfolding is_known get_updated_source_entry put_metadata
  update_replication_status w e =
      if not (is_known (md.site_status e.entry.md e.entry.site))
      then (w, false)
      else if not e.get_ok
      then (w, false)
      else put_metadata w e.put_ok (get_updated_source_entry md config e.entry w.stored)

  abbrev pub updates : World M → List (Event M) → World M
  updates w [] = w
  updates w (e ∷ rest) = updates (update_replication_status w e).0 rest

-- `_getUpdatedSourceEntry` of extensions/replication/tasks/ReplicateObject.js: the message to the status
-- topic about a replay at a site.
unfoldable pub status_entry : {M : Type 0} (md : ObjectMd M) → String → Bool → Replay M → Entry M
unfolding to_completed_entry to_failed_entry
status_entry md site well r = record {
  md =
      md.set_site_version_id
        (if well then to_completed_entry md r.md site else to_failed_entry md r.md site) site
        (md.site_version_id r.md site);
  site = site;
  replay_count = some r.replay_count;
}
