-- ===== src/Expiry/Compare/Deleted.antt =====
-- The versions that the entries delete, one version after the other being compared.
use backbeat.Base.{
  ℕ, suc, ◌≡◌, ◌∙◌, refl, ap, true, false, not, String, Option, none, some, List, [], ◌∷◌, arith,
  if◌then◌else◌, nat_eq, string_eq, if_true, if_false,
}
use backbeat.Retention.{Version, NcvExpiration, MinHeap, Heaps, ncv_heap_add}
use backbeat.Expiry.{
  Rules, Entity, Target, LifecycleDateTime, NoncurrentVersionExpiration, days_passed, to_version,
  NoncurrentVersionTransition, TransitionParams, check_and_apply_ncv_expiration_rule, deletion,
  delete_noncurrent, has_number,
}
use backbeat.Expiry.Compare.{
  Outcome, deletes, compare_noncurrent, ncv_transition_of, transition_outcome,
}

-- The ids of the versions that are deleted, the latest first.
unfoldable pub with_deleted : Outcome → List String → List String
with_deleted (deletes a) ids = elim a.version [ none ↦ ids | some id ↦ id ∷ ids ]
with_deleted _ ids = ids

-- Versions of one object, each with the rules, one after the other.
module _ {H : Type 0} (heap : MinHeap H) (clock : LifecycleDateTime) (target : Target)
    (rules : Rules) where
  unfoldable pub deleted : Heaps H → List String → List Entity → List String
  unfolding with_deleted
  deleted heaps ids [] = ids
  deleted heaps ids (e ∷ es) =
      let (heaps', outcome) = compare_noncurrent heap clock target heaps e rules in
      deleted heaps' (with_deleted outcome ids) es

-- Those that are old enough for the rule.
unfoldable pub with_old :
    LifecycleDateTime → Option ℕ → Entity → Option ℕ → List Version → List Version
with_old clock days e none rest = rest
with_old clock days e (some stale) rest =
    if days_passed days (clock.find_days_since stale) then to_version e stale ∷ rest else rest

unfoldable pub old_enough : LifecycleDateTime → Option ℕ → List Entity → List Version
unfolding with_old
old_enough clock days [] = []
old_enough clock days (e ∷ es) = with_old clock days e e.stale_date (old_enough clock days es)

abbrev pub id_of : Version → String
id_of v = v.version_id

module _ {H : Type 0} (heap : MinHeap H) (clock : LifecycleDateTime) (target : Target)
    (heaps : Heaps H) (e : Entity) (stale : ℕ) (rule : NoncurrentVersionExpiration) (r : String)
    (n : ℕ) where
  -- A version that is old enough goes to the heap.
  pub check-old :
      days_passed rule.noncurrent_days (clock.find_days_since stale) ≡ true
      → rule.newer ≡ record { id = r; newer_noncurrent_versions = some (suc n) }
      → (let added = ncv_heap_add heap heaps target.bucket (some rule.newer) (to_version e stale) in
          check_and_apply_ncv_expiration_rule heap clock target heaps e stale rule ≡ (
            added.0,
            deletion (λ v. delete_noncurrent clock target v rule.noncurrent_days stale) added.1,
          ))
  unfolding check_and_apply_ncv_expiration_rule has_number
  check-old old counts =
      if_false _ _ (ap not old)
      ∙ if_true _ _
          (ap (λ (x : NcvExpiration). has_number x.newer_noncurrent_versions) counts ∙ ground arith)

  pub check-young :
      days_passed rule.noncurrent_days (clock.find_days_since stale) ≡ false
      → check_and_apply_ncv_expiration_rule heap clock target heaps e stale rule ≡ (heaps, none)
  unfolding check_and_apply_ncv_expiration_rule
  check-young young = if_true _ _ (ap not young)

transition-ids :
    (o : Option TransitionParams) (ids : List String)
    → with_deleted (transition_outcome o) ids ≡ ids
unfolding transition_outcome with_deleted
transition-ids none ids = refl
transition-ids (some params) ids = refl

pub ncv_transition-ids :
    {H : Type 0}
    → (heap : MinHeap H) (clock : LifecycleDateTime) (target : Target) (e : Entity) (stale : ℕ)
      (rule : Option NoncurrentVersionTransition) (ids : List String)
    → with_deleted (ncv_transition_of heap clock target e stale rule) ids ≡ ids
unfolding ncv_transition_of with_deleted
ncv_transition-ids heap clock target e stale none ids = refl
ncv_transition-ids heap clock target e stale (some rule) ids = transition-ids _ ids
