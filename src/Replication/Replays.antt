-- ===== src/Replication/Replays.antt =====
-- A replication that fails again and again: the messages to the status topic and what follows each. What
-- is stored does not change until it ends.
pub mod Order
use mathlib.Core.List.{append-nil, append_assoc}
use backbeat.Base.{
  ℕ, zero, suc, ◌+◌, ◌≤◌, ◌<◌, ◌≡◌, ◌⊎◌, ◌∙◌, ap, subst, inl, inr, refl, sym, Bool, true, false,
  not, String, Option, none, some, List, [], ◌∷◌, ◌++◌, arith, if◌then◌else◌, ◌==◌, string_eq,
  Bool-cases, Option-cases, All, contains, length, length-append, get_elem?, ltb, beq_self,
}
use mathlib.Core.Option.{none-ne-some, some-injective}
use backbeat.Replication.{
  Status, completed, failed, pending, Backend, ObjectMd, Entry, Replay, Effect, replayed, Config,
  Updated, is_completed, to_failed_entry, to_retry_entry, of_site, send_to, push_replay_entry,
  replays, fails_finally, handle_failed_replication_entry, entry_for, finish,
  get_updated_source_entry,
}
use backbeat.Replication.Update.{status_entry}
use backbeat.Replication.Metadata.{
  IsObjectMd, status_in, set_status_in, set_version_in, status_in-set_status_in,
  status_in-set_version_in, status_in-of_site,
}
use backbeat.Replication.Made.{Made, to_failed_entry-Made}
use backbeat.Replication.Topics.{
  ReplayTopic, reversed, reshape_replay_topics, make_topic_names, in_order, reshape-in_order,
  in_order-contains, get_elem?-middle, length-reversed,
}

module _ {M : Type 0} (md : ObjectMd M) (config : Config) (refreshed : M) where
  -- The topics that a replication goes through, and what is put into the metadata in the end.
  abbrev pub Replayed : Type 0
  Replayed = Option (List String × M)

  unfoldable pub follow : String → Updated md → (Entry M → Replayed) → Replayed
  follow site (some m, effects) go = some ([], m)
  follow site (none, replayed topic r ∷ _) go = elim (go (status_entry md site false r)) [
    | none ↦ none
    | some (topics, m) ↦ some (topic ∷ topics, m)
  ]
  follow site (none, _) go = none

  -- A message that a replication has failed, and those after it; fuel counts them.
  unfoldable pub replays_of : ℕ → Entry M → Replayed
  unfolding follow
  replays_of zero e = none
  replays_of (suc fuel) e =
      follow e.site (get_updated_source_entry md config e refreshed) λ next. replays_of fuel next

  -- The metadata with which a failed replication ends.
  pub record IsFailed (site : String) (m : M) : Type 0 where
    pub global : md.replication_status m ≡ failed
    pub at_site :
        (s : Status)
        → status_in (md.backends refreshed) site ≡ some s
        → status_in (md.backends m) site ≡ some failed

  module _ (laws : IsObjectMd md) where
    pub finish-IsFailed :
        (e : Entry M)
        → IsFailed e.site (
            md.set_site_version_id
              (md.clear_origin_op (to_failed_entry md refreshed e.site))
              e.site
              (md.site_version_id e.md e.site))
    finish-IsFailed e =
        let made = to_failed_entry-Made md laws refreshed e.site in
        record {
          global = laws.set_version_status _ _ _ ∙ laws.clear_status _ ∙ made.global;
          at_site = λ s is.
              ap (λ bs. status_in bs e.site) (laws.set_version_backends _ _ _)
              ∙ status_in-set_version_in _ e.site e.site _
              ∙ ap (λ bs. status_in bs e.site) (laws.clear_backends _ ∙ made.backends)
              ∙ status_in-set_status_in (md.backends refreshed) e.site e.site failed
              ∙ rw (beq_self e.site, is) refl;
        }

    set_then_failed :
        (bs : List Backend) (site : String) (status s : Status)
        → status_in bs site ≡ some s
        → status_in (set_status_in bs site status) site ≡ some status
    set_then_failed bs site status s is =
        status_in-set_status_in bs site site status ∙ rw (beq_self site, is) refl

    retry_backends :
        (m : M) (site : String)
        → md.backends (to_retry_entry md m site)
          ≡ set_status_in (of_site (md.backends m) site) site pending
    unfolding to_retry_entry
    retry_backends m site =
        laws.set_replication_status_backends _ _
        ∙ laws.set_storage_class_backends _ _
        ∙ laws.set_site_status_backends _ site pending
        ∙ ap (λ bs. set_status_in bs site pending) (laws.set_backends_lem _ _)

    retry_pending :
        (m : M) (site : String)
        → md.site_status m site ≡ some failed
        → status_in (md.backends (to_retry_entry md m site)) site ≡ some pending
    retry_pending m site h =
        ap (λ bs. status_in bs site) (retry_backends m site)
        ∙ set_then_failed (of_site (md.backends m) site) site pending failed
            (status_in-of_site (md.backends m) site ∙ sym (laws.site_status_lem m site) ∙ h)

    -- The next message tells that the site has failed, too.
    pub next_failed :
        (m : M) (site : String) (count : ℕ)
        → md.site_status m site ≡ some failed
        → md.site_status
            (status_entry md site false
              (record { md = to_retry_entry md m site; replay_count = count })).md
            site
          ≡ some failed
    unfolding status_entry to_retry_entry
    next_failed m site count h =
        laws.site_status_lem _ site
        ∙ ap (λ bs. status_in bs site) (laws.set_version_backends _ site _)
        ∙ status_in-set_version_in _ site site _
        ∙ ap (λ bs. status_in bs site)
            (to_failed_entry-Made md laws (to_retry_entry md m site) site).backends
        ∙ set_then_failed _ site failed pending (retry_pending m site h)

    pub updated_failed :
        (e : Entry M)
        → md.site_status e.md e.site ≡ some failed
        → is_completed (md.site_status refreshed e.site) ≡ false
        → get_updated_source_entry md config e refreshed
          ≡ finish md e (handle_failed_replication_entry md config refreshed e)
    unfolding get_updated_source_entry entry_for
    updated_failed e h k = rw (k, h) refl
