-- ===== src/Replication.antt =====
-- extensions/replication/tasks/UpdateReplicationStatus.js: the replication status of an object and of its
-- sites, as the messages of the status topic tell it, with the entries of lib/models/ObjectQueueEntry.js.
-- The metadata of an object are those of arsenal, a parameter with its operations. A date is left out.
pub mod Data
pub mod Populator
pub mod Topics
pub mod Update
pub mod Metadata
pub mod Made
pub mod Written
pub mod Final
pub mod Completes
pub mod Agrees
pub mod Replays
pub mod Tests
pub use Data.*
use backbeat.Base.{
  ℕ, zero, suc, Bool, true, false, not, String, Option, none, some, List, [], ◌∷◌, ◌++◌, ltb,
  if◌then◌else◌, ◌==◌, string_eq, contains, length, get_elem?,
}

abbrev pub is_completed : Option Status → Bool
is_completed (some completed) = true
is_completed _ = false

unfoldable pub any_failed : List Backend → Bool
any_failed [] = false
any_failed (b ∷ bs) = let rest = any_failed bs in elim b.status [ failed ↦ true | _ ↦ rest ]

unfoldable pub any_pending : List Backend → Bool
any_pending [] = false
any_pending (b ∷ bs) = let rest = any_pending bs in elim b.status [ pending ↦ true | _ ↦ rest ]

unfoldable pub of_site : List Backend → String → List Backend
of_site [] site = []
of_site (b ∷ bs) site = let rest = of_site bs site in if b.site == site then b ∷ rest else rest

unfoldable pub global_status_of : List Backend → Status
unfolding any_failed any_pending
global_status_of bs =
    if any_failed bs then failed else if any_pending bs then processing else completed

module _ {M : Type 0} (md : ObjectMd M) where
  -- `_getGlobalReplicationStatus`
  unfoldable pub global_replication_status : M → Status
  unfolding global_status_of
  global_replication_status m = global_status_of (md.backends m)

  -- The argument is computed after the site's status was set.
  unfoldable pub with_global_status : M → String → Status → M
  unfolding global_replication_status
  with_global_status m site status =
      let c = md.set_site_status (md.clone m) site status in
      md.set_replication_status c (global_replication_status (md.original_after m c))

  unfoldable pub to_completed_entry : M → String → M
  unfolding with_global_status
  to_completed_entry m site = with_global_status m site completed

  unfoldable pub to_pending_entry : M → String → M
  unfolding with_global_status
  to_pending_entry m site = with_global_status m site pending

  unfoldable pub to_failed_entry : M → String → M
  to_failed_entry m site =
      md.set_replication_status (md.set_site_status (md.clone m) site failed) failed

  unfoldable pub to_retry_entry : M → String → M
  unfolding of_site
  to_retry_entry m site =
      md.set_replication_status
        (md.set_storage_class
          (md.set_site_status (md.set_backends (md.clone m) (of_site (md.backends m) site)) site
            pending)
          site)
        pending

  -- `_getNFSUpdatedSourceEntry`
  unfoldable pub get_nfs_updated_source_entry : Entry M → M → M
  unfolding to_pending_entry to_completed_entry
  get_nfs_updated_source_entry source refreshed =
      if not (md.content_md5 source.md == md.content_md5 refreshed)
      then to_pending_entry refreshed source.site
      else if not (md.same_tags source.md refreshed)
      then to_pending_entry refreshed source.site
      else to_completed_entry refreshed source.site

  send_to : List String → Replay M → Option String → List (Effect M)
  unfolding contains
  send_to producers e none = []
  send_to producers e (some topic) = if contains producers topic then replayed topic e ∷ [] else []

  -- `_pushReplayEntry`, from the count before it is lowered; below 0 there is no topic.
  unfoldable pub push_replay_entry : Config → List String → Entry M → ℕ → List (Effect M)
  unfolding to_retry_entry send_to
  push_replay_entry config topics e zero = []
  push_replay_entry config topics e (suc count) =
      send_to config.producers (record { md = to_retry_entry e.md e.site; replay_count = count })
        (get_elem? topics count)

  -- What is put into the metadata, if anything, and what is sent.
  abbrev pub Updated : Type 0
  Updated = Option M × List (Effect M)

  fails_finally : Config → M → Entry M → Updated
  unfolding to_failed_entry
  fails_finally config refreshed e = (
    some (to_failed_entry refreshed e.site),
    (if config.monitor_failures then failed_entry e ∷ [] else [])
        ++ (if config.notifies then notification e ∷ [] else []),
  )

  replays : Config → M → Entry M → List String → Option ℕ → Updated
  unfolding fails_finally push_replay_entry
  replays config refreshed e topics none = (none, push_replay_entry config topics e (length topics))
  replays config refreshed e topics (some zero) = fails_finally config refreshed e
  replays config refreshed e topics (some (suc n)) = (
    none,
    push_replay_entry config topics e
        (if ltb (length topics) (suc n) then length topics else suc n),
  )

  -- `_handleFailedReplicationEntry`
  unfoldable pub handle_failed_replication_entry : Config → M → Entry M → Updated
  unfolding replays
  handle_failed_replication_entry config refreshed e = elim config.replay_topics [
    | none ↦ fails_finally config refreshed e
    | some topics ↦ replays config refreshed e topics e.replay_count
  ]

  -- The length of the topics is read when a replayed entry completes, also where there are none.
  unfoldable pub throws : Config → Entry M → Bool
  throws config source = elim source.replay_count [
    | none ↦ false
    | some _ ↦ elim config.replay_topics [ none ↦ true | some _ ↦ false ]
  ]

  -- The entry that a new status makes, none also after an exception, and what is sent; of other statuses `check_status` lets none pass.
  unfoldable pub entry_for : Config → Entry M → M → Option Status → Updated
  unfolding get_nfs_updated_source_entry handle_failed_replication_entry throws
  entry_for config source refreshed (some completed) =
      if md.is_nfs source.md
      then (some (get_nfs_updated_source_entry source refreshed), [])
      else if throws config source
      then (none, [])
      else (some (to_completed_entry refreshed source.site), [])
  entry_for config source refreshed (some failed) =
      handle_failed_replication_entry config refreshed source
  entry_for config source refreshed (some pending) =
      (some (to_pending_entry refreshed source.site), [])
  entry_for config source refreshed _ = (none, [])

  unfoldable pub finish : Entry M → Updated → Updated
  finish source (none, effects) = (none, effects)
  finish source (some m, effects) = (
    some (
        md.set_site_version_id (md.clear_origin_op m) source.site
          (md.site_version_id source.md source.site)),
    effects,
  )

  -- `_getUpdatedSourceEntry`
  unfoldable pub get_updated_source_entry : Config → Entry M → M → Updated
  unfolding entry_for finish
  get_updated_source_entry config source refreshed =
      if is_completed (md.site_status refreshed source.site)
      then (none, [])
      else finish source (entry_for config source refreshed (md.site_status source.md source.site))
