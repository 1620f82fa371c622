-- ===== src/Replication/Agrees.antt =====
-- extensions/replication/tasks/UpdateReplicationStatus.js: the status of the object beside those of its sites.
use backbeat.Base.{
  ◌⊎◌, AnyOf, All, false, subst, ◌≢◌, ◌≡◌, ◌∙◌, ap, inl, inr, refl, sym, true, String, Option, some,
  List, [], ◌∷◌, arith, ◌==◌, string_eq, Bool-cases,
}
use mathlib.Core.Option.{none-ne-some}
use backbeat.Replication.{
  Status, completed, failed, pending, processing, replica, other, Backend, ObjectMd, Config,
  global_status_of, any_failed, any_pending,
}
use backbeat.Replication.Update.{World, Event, update_replication_status}
use backbeat.Replication.Metadata.{IsObjectMd, status_in, set_status_in, set_version_in}
use backbeat.Replication.Made.{global_with, any_failed-set_version_in}
use backbeat.Replication.Written.{kept, wrote, update-Stepped}

any_failed-set_status_in :
    (bs : List Backend) (site : String) (s : Status)
    → status_in bs site ≡ some s
    → any_failed (set_status_in bs site failed) ≡ true
unfolding status_in set_status_in any_failed
any_failed-set_status_in [] site s h = absurd (none-ne-some _ h)
any_failed-set_status_in (b ∷ bs) site s h = elim (Bool-cases (b.site == site)) [
  | inl e ↦ rw e refl
  | inr e ↦ rw e (ground (arith, any_failed-set_status_in bs site s (rw (e, status_in) at h)))
]

global_with_agrees :
    (status s : Status) (bs : List Backend) (site : String) (version : Option String)
    → status_in bs site ≡ some s
    → global_with status (set_version_in (set_status_in bs site status) site version)
      ≡ global_status_of (set_version_in (set_status_in bs site status) site version)
unfolding global_status_of
global_with_agrees failed s bs site version h =
    rw
      (
        any_failed-set_version_in (set_status_in bs site failed) site version,
        any_failed-set_status_in bs site s h,
      )
      refl
global_with_agrees completed s bs site version h = refl
global_with_agrees pending s bs site version h = refl
global_with_agrees processing s bs site version h = refl
global_with_agrees replica s bs site version h = refl
global_with_agrees (other _) s bs site version h = refl

-- The status that goes with backends: failed if one has failed, else processing if one is pending, else
-- completed.
abbrev pub IsGlobal : List Backend → Status → Type 0
IsGlobal bs s =
    ((s ≡ failed) × AnyOf (λ b. b.status ≡ failed) bs)
    ⊎ (((s ≡ processing) × All (λ b. b.status ≢ failed) bs × AnyOf (λ b. b.status ≡ pending) bs)
        ⊎ ((s ≡ completed) × All (λ b. (b.status ≢ failed) × (b.status ≢ pending)) bs))

failed_or : (s : Status) → (s ≡ failed) ⊎ (s ≢ failed)
failed_or failed = inl refl
failed_or completed = inr (λ e. cc)
failed_or pending = inr (λ e. cc)
failed_or processing = inr (λ e. cc)
failed_or replica = inr (λ e. cc)
failed_or (other t) = inr (λ e. cc)

pending_or : (s : Status) → (s ≡ pending) ⊎ (s ≢ pending)
pending_or pending = inl refl
pending_or completed = inr (λ e. cc)
pending_or failed = inr (λ e. cc)
pending_or processing = inr (λ e. cc)
pending_or replica = inr (λ e. cc)
pending_or (other t) = inr (λ e. cc)

some_failed : (bs : List Backend) → any_failed bs ≡ true → AnyOf (λ b. b.status ≡ failed) bs
unfolding any_failed
some_failed [] h = absurd (ground (arith, h))
some_failed (b ∷ bs) h = elim (failed_or b.status) [
  | inl e ↦ inl e
  | inr n ↦ inr (some_failed bs (grind (arith, h, n)))
]

none_failed : (bs : List Backend) → any_failed bs ≡ false → All (λ b. b.status ≢ failed) bs
unfolding any_failed
none_failed [] h = tt
none_failed (b ∷ bs) h = (λ e. grind (arith, h, e), none_failed bs (grind (arith, h)))

some_pending : (bs : List Backend) → any_pending bs ≡ true → AnyOf (λ b. b.status ≡ pending) bs
unfolding any_pending
some_pending [] h = absurd (ground (arith, h))
some_pending (b ∷ bs) h = elim (pending_or b.status) [
  | inl e ↦ inl e
  | inr n ↦ inr (some_pending bs (grind (arith, h, n)))
]

neither :
    (bs : List Backend)
    → All (λ b. b.status ≢ failed) bs
    → any_pending bs ≡ false
    → All (λ b. (b.status ≢ failed) × (b.status ≢ pending)) bs
unfolding any_pending
neither [] f h = tt
neither (b ∷ bs) f h = ((f.0, λ e. grind (arith, h, e)), neither bs f.1 (grind (arith, h)))

global_status_of-IsGlobal : (bs : List Backend) → IsGlobal bs (global_status_of bs)
unfolding global_status_of
global_status_of-IsGlobal bs = elim (Bool-cases (any_failed bs)) [
  | inl f ↦ rw f (inl (refl, some_failed bs f))
  | inr f ↦ elim (Bool-cases (any_pending bs)) [
    | inl p ↦ rw (f, p) (inr (inl (refl, none_failed bs f, some_pending bs p)))
    | inr p ↦ rw (f, p) (inr (inr (refl, neither bs (none_failed bs f) p)))
  ]
]

module _ {M : Type 0} (md : ObjectMd M) where
  abbrev pub Agrees : M → Type 0
  Agrees m = IsGlobal (md.backends m) (md.replication_status m)

module _ {M : Type 0} (md : ObjectMd M) (laws : IsObjectMd md) (config : Config) where
  -- If the status of an object goes with those of its sites, it still does after a message about a site that
  -- the metadata have, whichever requests fail. That is: it is failed and one has failed, or it is processing
  -- and none has failed but one is pending, or it is completed and none has failed or is pending.
  pub update-Agrees :
      (w : World M) (e : Event M) (s : Status)
      → status_in (md.backends w.stored) e.entry.site ≡ some s
      → Agrees md w.stored
      → Agrees md (update_replication_status md config w e).0.stored
  update-Agrees w e s is h = elim (update-Stepped md laws config w e) [
    | kept same _ ↦ subst (Agrees md) (sym same) h
    | wrote written _ ↦
        let bs = md.backends (update_replication_status md config w e).0.stored in
        let status : md.replication_status (update_replication_status md config w e).0.stored
            ≡ global_status_of bs =
          written.global
          ∙ ap (global_with written.status) written.backends
          ∙ global_with_agrees written.status s (md.backends w.stored) e.entry.site written.version
              is
          ∙ ap global_status_of (sym written.backends) in
        subst (IsGlobal bs) (sym status) (global_status_of-IsGlobal bs)
  ]
