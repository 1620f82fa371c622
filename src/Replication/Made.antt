-- ===== src/Replication/Made.antt =====
-- The entries that are made with a status at a site, and what is sent with them.
use backbeat.Base.{
  ◌≡◌, ◌∙◌, ap, inl, inr, refl, Bool, true, false, not, String, Option, none, some, List, [], ◌∷◌,
  arith, ◌==◌, string_eq, Bool-cases, zero, suc,
}
use backbeat.Replication.{
  Status, completed, failed, pending, processing, replica, other, Backend, ObjectMd, Entry, Effect,
  collected, Config, Updated, global_status_of, any_failed, any_pending, with_global_status,
  global_replication_status, to_completed_entry, to_pending_entry, to_failed_entry,
  get_nfs_updated_source_entry, send_to, push_replay_entry,
}
use backbeat.Replication.Update.{is_known}
use backbeat.Replication.Metadata.{IsObjectMd, set_status_in, set_version_in}

abbrev pub any_collected : {M : Type 0} → List (Effect M) → Bool
any_collected [] = false
any_collected (collected m ∷ es) = true
any_collected (_ ∷ es) = any_collected es

-- The status of the object that goes with one at a site.
abbrev pub global_with : Status → List Backend → Status
global_with failed bs = failed
global_with _ bs = global_status_of bs

pub any_failed-set_version_in :
    (bs : List Backend) (site : String) (version : Option String)
    → any_failed (set_version_in bs site version) ≡ any_failed bs
unfolding any_failed set_version_in
any_failed-set_version_in [] site version = refl
any_failed-set_version_in (b ∷ bs) site version =
    ground (arith, any_failed-set_version_in bs site version)

any_pending-set_version_in :
    (bs : List Backend) (site : String) (version : Option String)
    → any_pending (set_version_in bs site version) ≡ any_pending bs
unfolding any_pending set_version_in
any_pending-set_version_in [] site version = refl
any_pending-set_version_in (b ∷ bs) site version =
    ground (arith, any_pending-set_version_in bs site version)

pub global_with-set_version_in :
    (status : Status) (bs : List Backend) (site : String) (version : Option String)
    → global_with status (set_version_in bs site version) ≡ global_with status bs
unfolding global_status_of
global_with-set_version_in completed bs site version =
    rw (any_failed-set_version_in bs site version, any_pending-set_version_in bs site version) refl
global_with-set_version_in failed bs site version = refl
global_with-set_version_in pending bs site version =
    rw (any_failed-set_version_in bs site version, any_pending-set_version_in bs site version) refl
global_with-set_version_in processing bs site version =
    rw (any_failed-set_version_in bs site version, any_pending-set_version_in bs site version) refl
global_with-set_version_in replica bs site version =
    rw (any_failed-set_version_in bs site version, any_pending-set_version_in bs site version) refl
global_with-set_version_in (other t) bs site version =
    rw (any_failed-set_version_in bs site version, any_pending-set_version_in bs site version) refl

module _ {M : Type 0} (md : ObjectMd M) (laws : IsObjectMd md) where
  -- An entry with a status at a site.
  pub record Made (m : M) (site : String) (status : Status) (m' : M) : Type 0 where
    pub known : is_known (some status) ≡ true
    pub backends : md.backends m' ≡ set_status_in (md.backends m) site status
    pub global :
        md.replication_status m' ≡ global_with status (set_status_in (md.backends m) site status)

  set_in_clone :
      (m : M) (site : String) (status : Status)
      → md.backends (md.set_site_status (md.clone m) site status)
        ≡ set_status_in (md.backends m) site status
  set_in_clone m site status =
      laws.set_site_status_backends (md.clone m) site status
      ∙ ap (λ bs. set_status_in bs site status) (laws.clone_backends m)

  with_global_backends :
      (m : M) (site : String) (status : Status)
      → md.backends (with_global_status md m site status)
        ≡ set_status_in (md.backends m) site status
  unfolding with_global_status
  with_global_backends m site status =
      laws.set_replication_status_backends _ _ ∙ set_in_clone m site status

  with_global_global :
      (m : M) (site : String) (status : Status)
      → md.replication_status (with_global_status md m site status)
        ≡ global_status_of (set_status_in (md.backends m) site status)
  unfolding with_global_status global_replication_status
  with_global_global m site status =
      laws.set_replication_status_lem _ _
      ∙ ap global_status_of (laws.shared_backends m site status ∙ set_in_clone m site status)

  pub to_completed_entry-Made :
      (m : M) (site : String) → Made m site completed (to_completed_entry md m site)
  unfolding to_completed_entry is_known
  to_completed_entry-Made m site = record {
    known = refl;
    backends = with_global_backends m site completed;
    global = with_global_global m site completed;
  }

  pub to_pending_entry-Made :
      (m : M) (site : String) → Made m site pending (to_pending_entry md m site)
  unfolding to_pending_entry is_known
  to_pending_entry-Made m site = record {
    known = refl;
    backends = with_global_backends m site pending;
    global = with_global_global m site pending;
  }

  pub to_failed_entry-Made :
      (m : M) (site : String) → Made m site failed (to_failed_entry md m site)
  unfolding to_failed_entry is_known
  to_failed_entry-Made m site = record {
    known = refl;
    backends = laws.set_replication_status_backends _ _ ∙ set_in_clone m site failed;
    global = laws.set_replication_status_lem _ _;
  }

  -- What is written, if anything, and that no order to collect is sent with it.
  abbrev pub AllMade : M → String → Updated md → Type 0
  AllMade m site (none, effects) = any_collected effects ≡ false
  AllMade m site (some m', effects) =
      ((status : Status) × Made m site status m') × (any_collected effects ≡ false)

  pub get_nfs_updated_source_entry-Made :
      (source : Entry M) (m : M)
      → (status : Status) × Made m source.site status (get_nfs_updated_source_entry md source m)
  unfolding get_nfs_updated_source_entry
  get_nfs_updated_source_entry-Made source m =
      elim (Bool-cases (not (md.content_md5 source.md == md.content_md5 m))) [
        | inl e ↦ rw e (pending, to_pending_entry-Made m source.site)
        | inr e ↦ elim (Bool-cases (not (md.same_tags source.md m))) [
          | inl f ↦ rw (e, f) (pending, to_pending_entry-Made m source.site)
          | inr f ↦ rw (e, f) (completed, to_completed_entry-Made m source.site)
        ]
      ]

  pub push_replay_entry-any_collected :
      (config : Config) (topics : List String) (e : Entry M) (count : _)
      → any_collected (push_replay_entry md config topics e count) ≡ false
  unfolding push_replay_entry send_to
  push_replay_entry-any_collected config topics e zero = refl
  push_replay_entry-any_collected config topics e (suc count) = ground arith
