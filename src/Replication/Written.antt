-- ===== src/Replication/Written.antt =====
-- extensions/replication/tasks/UpdateReplicationStatus.js: what an update writes.
use backbeat.Base.{
  if◌then◌else◌, ◌≡◌, ◌∙◌, ap, inl, inr, refl, sym, Bool, true, false, ◌||◌, not, String, Option,
  none, some, List, [], ◌∷◌, ◌++◌, arith, string_eq, Bool-cases, Option-cases, zero, suc,
}
use backbeat.Replication.{
  Status, completed, failed, pending, processing, replica, other, ObjectMd, Entry, Effect,
  failed_entry, notification, replayed, collected, Config, Updated, is_completed, fails_finally,
  replays, handle_failed_replication_entry, entry_for, throws, finish, get_updated_source_entry,
}
use backbeat.Replication.Update.{
  World, Event, is_known, update_replication_status, put_metadata, handle_garbage_collection,
}
use backbeat.Replication.Metadata.{IsObjectMd, status_in, set_status_in, set_version_in}
use backbeat.Replication.Made.{
  any_collected, global_with, global_with-set_version_in, to_completed_entry-Made,
  to_pending_entry-Made, to_failed_entry-Made, AllMade, get_nfs_updated_source_entry-Made,
  push_replay_entry-any_collected,
}

any_collected-append :
    {M : Type 0} (es fs : List (Effect M))
    → any_collected es ≡ false
    → any_collected (es ++ fs) ≡ any_collected fs
any_collected-append [] fs h = refl
any_collected-append (failed_entry e ∷ es) fs h = any_collected-append es fs h
any_collected-append (notification e ∷ es) fs h = any_collected-append es fs h
any_collected-append (replayed t r ∷ es) fs h = any_collected-append es fs h
any_collected-append (collected m ∷ es) fs h = absurd (ground (arith, h))

module _ {M : Type 0} (md : ObjectMd M) (laws : IsObjectMd md) where
  -- The outcome for the stored metadata and what is sent.
  pub record Written (m : M) (site : String) (m' : M) : Type 0 where
    pub status : Status
    pub version : Option String
    pub known : is_known (some status) ≡ true
    pub going_on : is_completed (status_in (md.backends m) site) ≡ false
    pub backends :
        md.backends m' ≡ set_version_in (set_status_in (md.backends m) site status) site version
    pub global : md.replication_status m' ≡ global_with status (md.backends m')

  fails_finally-AllMade :
      (config : Config) (m : M) (e : Entry M)
      → AllMade md laws m e.site (fails_finally md config m e)
  unfolding fails_finally
  fails_finally-AllMade config m e = ((failed, to_failed_entry-Made md laws m e.site), ground arith)

  replays-AllMade :
      (config : Config) (m : M) (e : Entry M) (topics : List String) (count : Option _)
      → AllMade md laws m e.site (replays md config m e topics count)
  unfolding replays
  replays-AllMade config m e topics none = push_replay_entry-any_collected md laws config topics e _
  replays-AllMade config m e topics (some zero) = fails_finally-AllMade config m e
  replays-AllMade config m e topics (some (suc n)) =
      push_replay_entry-any_collected md laws config topics e _

  handle_failed-AllMade :
      (config : Config) (m : M) (e : Entry M)
      → AllMade md laws m e.site (handle_failed_replication_entry md config m e)
  unfolding handle_failed_replication_entry
  handle_failed-AllMade config m e = elim (Option-cases config.replay_topics) [
    | inl none_set ↦ rw none_set (fails_finally-AllMade config m e)
    | inr (topics, is) ↦ rw is (replays-AllMade config m e topics e.replay_count)
  ]

  entry_for-AllMade :
      (config : Config) (e : Entry M) (m : M) (status : Option Status)
      → AllMade md laws m e.site (entry_for md config e m status)
  unfolding entry_for
  entry_for-AllMade config e m (some completed) = elim (Bool-cases (md.is_nfs e.md)) [
    | inl nfs ↦ rw nfs (get_nfs_updated_source_entry-Made md laws e m, refl)
    | inr not_nfs ↦ elim (Bool-cases (throws md config e)) [
      | inl thrown ↦ rw (not_nfs, thrown) refl
      | inr going_on ↦
          rw (not_nfs, going_on) ((completed, to_completed_entry-Made md laws m e.site), refl)
    ]
  ]
  entry_for-AllMade config e m (some failed) = handle_failed-AllMade config m e
  entry_for-AllMade config e m (some pending) =
      ((pending, to_pending_entry-Made md laws m e.site), refl)
  entry_for-AllMade config e m none = refl
  entry_for-AllMade config e m (some processing) = refl
  entry_for-AllMade config e m (some replica) = refl
  entry_for-AllMade config e m (some (other t)) = refl

  abbrev AllWritten : M → String → Updated md → Type 0
  AllWritten m site (none, effects) = any_collected effects ≡ false
  AllWritten m site (some m', effects) = Written m site m' × (any_collected effects ≡ false)

  finish-AllWritten :
      (e : Entry M) (m : M) (u : Updated md)
      → is_completed (status_in (md.backends m) e.site) ≡ false
      → AllMade md laws m e.site u
      → AllWritten m e.site (finish md e u)
  unfolding finish
  finish-AllWritten e m (none, effects) going_on h = h
  finish-AllWritten e m (some m', effects) going_on ((status, made), quiet) =
      let version = md.site_version_id e.md e.site in
      let after = set_status_in (md.backends m) e.site status in
      let backends : md.backends (md.set_site_version_id (md.clear_origin_op m') e.site version)
          ≡ set_version_in after e.site version =
        laws.set_version_backends _ _ _
        ∙ ap (λ bs. set_version_in bs e.site version) (laws.clear_backends m' ∙ made.backends) in
      (
        record {
          status = status;
          version = version;
          known = made.known;
          going_on = going_on;
          backends = backends;
          global =
              laws.set_version_status _ _ _
              ∙ laws.clear_status m'
              ∙ made.global
              ∙ sym (global_with-set_version_in status after e.site version)
              ∙ ap (global_with status) (sym backends);
        },
        quiet,
      )

  get_updated-AllWritten :
      (config : Config) (e : Entry M) (m : M)
      → AllWritten m e.site (get_updated_source_entry md config e m)
  unfolding get_updated_source_entry
  get_updated-AllWritten config e m = elim (Bool-cases (is_completed (md.site_status m e.site))) [
    | inl done ↦ rw done refl
    | inr going_on ↦ rw going_on (
        finish-AllWritten e m _ (rw (laws.site_status_lem m e.site) at going_on)
          (entry_for-AllMade config e m (md.site_status e.md e.site)))
  ]

  -- Whether an update to these metadata orders to collect the data.
  abbrev pub collects : Config → M → Bool
  collects config m =
      if config.is_transient (md.data_store_name m)
      then is_completed (some (md.replication_status m))
      else false

  -- An update of the world: nothing is stored and no order to collect is sent, or both as they may be.
  pub data Stepped (config : Config) (w : World M) (site : String) (w' : World M) : Type 0 where
    kept :
        w'.stored ≡ w.stored
        → any_collected w'.sent ≡ any_collected w.sent
        → Stepped config w site w'
    wrote :
        Written w.stored site w'.stored
        → any_collected w'.sent ≡ (collects config w'.stored || any_collected w.sent)
        → Stepped config w site w'

  put-Stepped :
      (config : Config) (w : World M) (site : String) (ok : Bool) (u : Updated md)
      → AllWritten w.stored site u
      → Stepped config w site (put_metadata md config w ok u).0
  unfolding put_metadata handle_garbage_collection
  put-Stepped config w site ok (none, effects) quiet =
      kept refl (any_collected-append effects w.sent quiet)
  put-Stepped config w site false (some m, effects) (written, quiet) =
      kept refl (any_collected-append effects w.sent quiet)
  put-Stepped config w site true (some m, effects) (written, quiet) =
      wrote written (ground (arith, any_collected-append effects w.sent quiet))

  pub update-Stepped :
      (config : Config) (w : World M) (e : Event M)
      → Stepped config w e.entry.site (update_replication_status md config w e).0
  unfolding update_replication_status
  update-Stepped config w e =
      elim (Bool-cases (not (is_known (md.site_status e.entry.md e.entry.site)))) [
        | inl unknown ↦ rw unknown (kept refl refl)
        | inr known ↦ elim (Bool-cases e.get_ok) [
          | inr fails ↦ rw (known, fails) (kept refl refl)
          | inl got ↦
              rw (known, got)
                (put-Stepped config w e.entry.site e.put_ok _
                  (get_updated-AllWritten config e.entry w.stored))
        ]
      ]
