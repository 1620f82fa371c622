-- ===== src/Replication/Completes.antt =====
-- What follows when the sites complete.
use backbeat.Base.{
  ◌⊎◌, ◌≡◌, ◌∙◌, ap, subst, inl, inr, refl, sym, true, false, String, Option, some, List, [], ◌∷◌,
  ◌++◌, arith, ◌==◌, string_eq, Bool-cases, All, beq_self,
}
use backbeat.Replication.{
  Status, completed, failed, pending, processing, replica, other, Backend, ObjectMd, Config,
  is_completed, global_status_of, any_failed, any_pending, get_updated_source_entry, entry_for,
  finish, throws, to_completed_entry,
}
use backbeat.Replication.Update.{
  World, Event, is_known, update_replication_status, updates, put_metadata,
}
use backbeat.Replication.Metadata.{
  IsObjectMd, status_in, set_status_in, set_version_in, status_in-set_status_in,
  status_in-set_version_in,
}
use backbeat.Replication.Made.{any_collected, global_with, to_completed_entry-Made}
use backbeat.Replication.Written.{Written, Stepped, kept, wrote, update-Stepped}
use backbeat.Replication.Final.{IsCompleted, completed_is_final}

none_failed : (bs : List Backend) → All IsCompleted bs → any_failed bs ≡ false
unfolding any_failed
none_failed [] h = refl
none_failed (b ∷ bs) h = rw (h.0, any_failed) (none_failed bs h.1)

none_pending : (bs : List Backend) → All IsCompleted bs → any_pending bs ≡ false
unfolding any_pending
none_pending [] h = refl
none_pending (b ∷ bs) h = rw (h.0, any_pending) (none_pending bs h.1)

global_of_completed : (bs : List Backend) → All IsCompleted bs → global_status_of bs ≡ completed
unfolding global_status_of
global_of_completed bs h = rw (none_failed bs h, none_pending bs h) refl

-- After a failed status is set, all are completed only where there is no such site.
failed_elsewhere :
    (bs : List Backend) (site : String) (version : Option String)
    → All IsCompleted (set_version_in (set_status_in bs site failed) site version)
    → All IsCompleted bs
unfolding set_status_in set_version_in
failed_elsewhere [] site version h = tt
failed_elsewhere (b ∷ bs) site version h = elim (Bool-cases (b.site == site)) [
  | inl e ↦ absurd (grind (arith, (rw (e, e) at h).0))
  | inr e ↦ let g = rw (e, e) at h in (g.0, failed_elsewhere bs site version g.1)
]

global_or_before :
    (status : Status) (bs : List Backend) (site : String) (version : Option String)
    → All IsCompleted (set_version_in (set_status_in bs site status) site version)
    → (global_with status (set_version_in (set_status_in bs site status) site version) ≡ completed)
      ⊎ All IsCompleted bs
global_or_before failed bs site version h = inr (failed_elsewhere bs site version h)
global_or_before completed bs site version h = inl (global_of_completed _ h)
global_or_before pending bs site version h = inl (global_of_completed _ h)
global_or_before processing bs site version h = inl (global_of_completed _ h)
global_or_before replica bs site version h = inl (global_of_completed _ h)
global_or_before (other _) bs site version h = inl (global_of_completed _ h)

module _ {M : Type 0} (md : ObjectMd M) (laws : IsObjectMd md) (config : Config) where
  -- The message tells of a completed site, and is handled.
  pub record IsCompletion (e : Event M) : Type 0 where
    pub tells : md.site_status e.entry.md e.entry.site ≡ some completed
    pub not_nfs : md.is_nfs e.entry.md ≡ false
    pub no_throw : throws md config e.entry ≡ false
    pub got : e.get_ok ≡ true
    pub put : e.put_ok ≡ true

  is_completed_lem : (o : Option Status) → is_completed o ≡ true → o ≡ some completed
  is_completed_lem o h = grind arith

  still_there :
      (m m' : M) (site t : String) (s : Status)
      → Written md laws m site m'
      → status_in (md.backends m) t ≡ some s
      → (s' : Status) × (status_in (md.backends m') t ≡ some s')
  still_there m m' site t s w is =
      let eq =
        ap (λ bs. status_in bs t) w.backends
        ∙ status_in-set_version_in (set_status_in (md.backends m) site w.status) site t w.version
        ∙ status_in-set_status_in (md.backends m) site t w.status in
      elim (Bool-cases (site == t)) [
        | inr e ↦ (s, eq ∙ rw (e, is) refl)
        | inl e ↦ (
          w.status,
          eq ∙ rw (e, ap (status_in (md.backends m)) ((string_eq.beq_iff site t).0 e) ∙ is) refl,
        )
      ]

  stays_there :
      (w : World M) (e : Event M) (t : String) (s : Status)
      → status_in (md.backends w.stored) t ≡ some s
      → (s' : Status) × (status_in
            (md.backends (update_replication_status md config w e).0.stored)
            t
          ≡ some s')
  stays_there w e t s is = elim (update-Stepped md laws config w e) [
    | kept same _ ↦ (s, ap (λ m. status_in (md.backends m) t) same ∙ is)
    | wrote written _ ↦ still_there w.stored _ e.entry.site t s written is
  ]

  stored_completed :
      (e : Event M) (m : M) (s : Status)
      → status_in (md.backends m) e.entry.site ≡ some s
      → status_in
          (md.backends (
            md.set_site_version_id
              (md.clear_origin_op (to_completed_entry md m e.entry.site))
              e.entry.site
              (md.site_version_id e.entry.md e.entry.site)))
          e.entry.site
        ≡ some completed
  stored_completed e m s is =
      ap (λ bs. status_in bs e.entry.site) (laws.set_version_backends _ _ _)
      ∙ status_in-set_version_in _ e.entry.site e.entry.site _
      ∙ ap (λ bs. status_in bs e.entry.site)
          (laws.clear_backends _ ∙ (to_completed_entry-Made md laws m e.entry.site).backends)
      ∙ status_in-set_status_in (md.backends m) e.entry.site e.entry.site completed
      ∙ rw (beq_self e.entry.site, is) refl

  completes_there :
      (w : World M) (e : Event M) (s : Status)
      → status_in (md.backends w.stored) e.entry.site ≡ some s
      → IsCompletion e
      → status_in (md.backends (update_replication_status md config w e).0.stored) e.entry.site
        ≡ some completed
  unfolding update_replication_status put_metadata is_known get_updated_source_entry entry_for
      finish
  completes_there w e s is c =
      elim (Bool-cases (is_completed (md.site_status w.stored e.entry.site))) [
        | inl done ↦
            rw (c.tells, c.got, done)
              (sym (laws.site_status_lem w.stored e.entry.site) ∙ is_completed_lem _ done)
        | inr open_site ↦
            rw (c.tells, c.got, c.put, open_site, c.not_nfs, c.no_throw)
              (stored_completed e w.stored s is)
      ]

  -- Completion is reached and kept. Let the metadata have a backend of a site, and one of any messages tell
  -- of the site as completed, in a bucket that is no NFS one and without an exception, and the requests for
  -- it be answered. Then the metadata tell the site as completed in the end.
  pub completion_reached :
      (w : World M) (before after : List (Event M)) (e : Event M) (s : Status)
      → status_in (md.backends w.stored) e.entry.site ≡ some s
      → IsCompletion e
      → status_in (md.backends (updates md config w (before ++ e ∷ after)).stored) e.entry.site
        ≡ some completed
  completion_reached w [] after e s is c =
      completed_is_final md laws config (update_replication_status md config w e).0 after
        e.entry.site (completes_there w e s is c)
  completion_reached w (f ∷ before) after e s is c =
      let (s', is') = stays_there w f e.entry.site s is in
      completion_reached (update_replication_status md config w f).0 before after e s' is' c

  IsLive : World M → Type 0
  IsLive w = All IsCompleted (md.backends w.stored) → any_collected w.sent ≡ true

  module _ (transient : (m : M) → config.is_transient (md.data_store_name m) ≡ true) where
    step-IsLive :
        (w w' : World M) (site : String) → Stepped md laws config w site w' → IsLive w → IsLive w'
    unfolding IsLive
    step-IsLive w w' site (kept same sent) live all =
        sent ∙ live (subst (λ m. All IsCompleted (md.backends m)) same all)
    step-IsLive w w' site (wrote written sent) live all =
        elim (global_or_before written.status (md.backends w.stored) site written.version
          (subst (All IsCompleted) written.backends all)) [
            | inr before ↦ ground (arith, sent, live before)
            | inl whole ↦
                let done : md.replication_status w'.stored ≡ completed =
                  written.global ∙ ap (global_with written.status) written.backends ∙ whole in
                sent ∙ rw (transient w'.stored, done) refl
          ]

    updates-IsLive :
        (w : World M) (run : List (Event M)) → IsLive w → IsLive (updates md config w run)
    updates-IsLive w [] h = h
    updates-IsLive w (e ∷ run) h =
        updates-IsLive (update_replication_status md config w e).0 run
          (step-IsLive w _ e.entry.site (update-Stepped md laws config w e) h)

    -- Transient data are collected. Let the data be at a transient location, and some backend of the
    -- metadata not be completed at first. If all backends are completed after any messages, whichever
    -- requests fail, an order to collect the data has been sent.
    pub completed_collects :
        (start : M) (run : List (Event M))
        → ¬ All IsCompleted (md.backends start)
        → All IsCompleted
            (md.backends (updates md config (record { stored = start; sent = [] }) run).stored)
        → any_collected (updates md config (record { stored = start; sent = [] }) run).sent ≡ true
    unfolding IsLive
    completed_collects start run some_left =
        updates-IsLive (record { stored = start; sent = [] }) run (λ all. absurd (some_left all))
