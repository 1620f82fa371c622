-- ===== src/Replication/Final.antt =====
-- extensions/replication/tasks/UpdateReplicationStatus.js: statuses over any number of updates, and orders to
-- collect data.
use backbeat.Base.{
  ◌||◌, ◌≡◌, ◌⊎◌, ◌∙◌, ap, subst, inl, inr, refl, sym, true, false, String, Option, some, List, [],
  ◌∷◌, arith, ◌==◌, string_eq, Bool-cases, All,
}
use backbeat.Replication.{
  Status, completed, failed, pending, processing, replica, other, Backend, ObjectMd, Config,
  is_completed, global_status_of, any_failed, any_pending,
}
use backbeat.Replication.Update.{World, Event, is_known, update_replication_status, updates}
use backbeat.Replication.Metadata.{
  IsObjectMd, status_in, set_status_in, set_version_in, status_in-set_status_in,
  status_in-set_version_in,
}
use backbeat.Replication.Made.{any_collected, global_with}
use backbeat.Replication.Written.{collects, Written, Stepped, kept, wrote, update-Stepped}

abbrev pub IsCompleted : Backend → Type 0
IsCompleted b = b.status ≡ completed

-- One of the statuses that messages may tell.
abbrev pub IsKnown : Backend → Type 0
IsKnown b = is_known (some b.status) ≡ true

pub All-set_status_in :
    (bs : List Backend) (site : String) (status : Status)
    → is_known (some status) ≡ true
    → All IsKnown bs
    → All IsKnown (set_status_in bs site status)
unfolding set_status_in
All-set_status_in [] site status k h = tt
All-set_status_in (b ∷ bs) site status k h = elim (Bool-cases (b.site == site)) [
  | inl e ↦ rw e (k, h.1)
  | inr e ↦ rw e (h.0, All-set_status_in bs site status k h.1)
]

All-set_version_in :
    (bs : List Backend) (site : String) (version : Option String)
    → All IsKnown bs
    → All IsKnown (set_version_in bs site version)
unfolding set_version_in
All-set_version_in [] site version h = tt
All-set_version_in (b ∷ bs) site version h = elim (Bool-cases (b.site == site)) [
  | inl e ↦ rw e h
  | inr e ↦ rw e (h.0, All-set_version_in bs site version h.1)
]

-- A site without a completed backend has none, if all are completed, and then nothing is set.
pub untouched :
    (bs : List Backend) (site : String) (status : Status) (version : Option String)
    → All IsCompleted bs
    → is_completed (status_in bs site) ≡ false
    → set_version_in (set_status_in bs site status) site version ≡ bs
unfolding status_in set_status_in set_version_in
untouched [] site status version h g = refl
untouched (b ∷ bs) site status version h g = elim (Bool-cases (b.site == site)) [
  | inl e ↦ absurd (ground (arith, rw (e, h.0, status_in) at g))
  | inr e ↦
      rw (e, e) (ap (λ l. b ∷ l) (untouched bs site status version h.1 (rw (e, status_in) at g)))
]

All-IsCompleted :
    (bs : List Backend)
    → All IsKnown bs
    → any_failed bs ≡ false
    → any_pending bs ≡ false
    → All IsCompleted bs
unfolding any_failed any_pending is_known
All-IsCompleted [] h f p = tt
All-IsCompleted (b ∷ bs) h f p =
    (grind (arith, h.0, f, p), All-IsCompleted bs h.1 (grind (arith, f)) (grind (arith, p)))

completed_of_status :
    (bs : List Backend) → All IsKnown bs → global_status_of bs ≡ completed → All IsCompleted bs
unfolding global_status_of
completed_of_status bs h g = elim (Bool-cases (any_failed bs)) [
  | inl f ↦ absurd (grind (arith, rw f at g))
  | inr f ↦ elim (Bool-cases (any_pending bs)) [
    | inl p ↦ absurd (grind (arith, rw (f, p) at g))
    | inr p ↦ All-IsCompleted bs h f p
  ]
]

-- If an object with a status is completed as a whole, so are its backends.
completed_of_global :
    (status : Status) (bs : List Backend)
    → All IsKnown bs
    → global_with status bs ≡ completed
    → All IsCompleted bs
completed_of_global failed bs h g = absurd (grind (arith, g))
completed_of_global completed bs h g = completed_of_status bs h g
completed_of_global pending bs h g = completed_of_status bs h g
completed_of_global processing bs h g = completed_of_status bs h g
completed_of_global replica bs h g = completed_of_status bs h g
completed_of_global (other _) bs h g = completed_of_status bs h g

pub completed_of_is : (s : Status) → is_completed (some s) ≡ true → s ≡ completed
completed_of_is s h = grind arith

module _ {M : Type 0} (md : ObjectMd M) (laws : IsObjectMd md) (config : Config) where
  stays_completed :
      (m m' : M) (site t : String)
      → Written md laws m site m'
      → status_in (md.backends m) t ≡ some completed
      → status_in (md.backends m') t ≡ some completed
  stays_completed m m' site t w h =
      ap (λ bs. status_in bs t) w.backends
      ∙ status_in-set_version_in (set_status_in (md.backends m) site w.status) site t w.version
      ∙ status_in-set_status_in (md.backends m) site t w.status
      ∙ elim (Bool-cases (site == t)) [
        | inl e ↦ absurd (
            ground (
              arith,
              rw (ap (status_in (md.backends m)) ((string_eq.beq_iff site t).0 e) ∙ h) at
                  w.going_on,
            ))
        | inr e ↦ rw e h
      ]

  -- Completed is final: once the metadata tell that the replication to a site is completed, they do after
  -- any messages of the status topic, for this site or others, whichever requests fail.
  pub completed_is_final :
      (w : World M) (run : List (Event M)) (site : String)
      → status_in (md.backends w.stored) site ≡ some completed
      → status_in (md.backends (updates md config w run).stored) site ≡ some completed
  completed_is_final w [] site h = h
  completed_is_final w (e ∷ run) site h =
      completed_is_final (update_replication_status md config w e).0 run site
        (elim (update-Stepped md laws config w e) [
          | kept same _ ↦ ap (λ m. status_in (md.backends m) site) same ∙ h
          | wrote written _ ↦ stays_completed w.stored _ e.entry.site site written h
        ])

  record IsSafe (w : World M) : Type 0 where
    known : All IsKnown (md.backends w.stored)
    collected_late : any_collected w.sent ≡ true → All IsCompleted (md.backends w.stored)

  written-IsSafe :
      (w w' : World M) (site : String)
      → Written md laws w.stored site w'.stored
      → (any_collected w'.sent ≡ any_collected w.sent)
        ⊎ (md.replication_status w'.stored ≡ completed)
      → IsSafe w
      → IsSafe w'
  written-IsSafe w w' site written when safe =
      let known : All IsKnown (md.backends w'.stored) = subst (All IsKnown) (sym written.backends) (
        All-set_version_in _ site written.version
          (All-set_status_in _ site written.status written.known safe.known)) in
      record {
        known = known;
        collected_late = λ yes. elim when [
          | inl same ↦
              let before = safe.collected_late (sym same ∙ yes) in
              subst (All IsCompleted)
                (sym (
                  written.backends
                  ∙ untouched _ site written.status written.version before written.going_on))
                before
          | inr whole ↦ completed_of_global written.status _ known (sym written.global ∙ whole)
        ];
      }

  whole_or_same :
      (w w' : World M)
      → any_collected w'.sent ≡ (collects md laws config w'.stored || any_collected w.sent)
      → (any_collected w'.sent ≡ any_collected w.sent)
        ⊎ (md.replication_status w'.stored ≡ completed)
  whole_or_same w w' sent =
      elim (Bool-cases (is_completed (some (md.replication_status w'.stored)))) [
        | inl e ↦ inr (completed_of_is _ e)
        | inr e ↦ inl (ground (arith, e, sent))
      ]

  step-IsSafe :
      (w w' : World M) (site : String) → Stepped md laws config w site w' → IsSafe w → IsSafe w'
  step-IsSafe w w' site (wrote written sent) safe =
      written-IsSafe w w' site written (whole_or_same w w' sent) safe
  step-IsSafe w w' site (kept same sent) safe = record {
    known = subst (λ m. All IsKnown (md.backends m)) (sym same) safe.known;
    collected_late = λ yes.
        subst (λ m. All IsCompleted (md.backends m)) (sym same)
          (safe.collected_late (sym sent ∙ yes));
  }

  updates-IsSafe :
      (w : World M) (run : List (Event M)) → IsSafe w → IsSafe (updates md config w run)
  updates-IsSafe w [] h = h
  updates-IsSafe w (e ∷ run) h =
      updates-IsSafe (update_replication_status md config w e).0 run
        (step-IsSafe w _ e.entry.site (update-Stepped md laws config w e) h)

  -- Transient data are collected late. Let each backend of the metadata be completed, failed or pending at
  -- first, and nothing be sent yet. If after any messages, whichever requests fail, an order to collect the
  -- data has been sent, then all backends are completed.
  pub collected-IsCompleted :
      (start : M) (run : List (Event M))
      → All IsKnown (md.backends start)
      → any_collected (updates md config (record { stored = start; sent = [] }) run).sent ≡ true
      → All IsCompleted
          (md.backends (updates md config (record { stored = start; sent = [] }) run).stored)
  collected-IsCompleted start run known =
      (updates-IsSafe (record { stored = start; sent = [] }) run
        (record {
          known = known;
          collected_late = λ yes. absurd (ground (arith, yes));
        })).collected_late
