-- ===== src/Expiry/Compare/Newest.antt =====
-- `NewerNoncurrentVersions` in extensions/lifecycle/tasks/LifecycleTaskV2.js: which versions of an object the
-- entries delete.
use backbeat.Base.{
  ℕ, suc, ◌≤◌, ◌≡◌, ◌∙◌, ◌⊎◌, refl, sym, ap, ap₂, inl, inr, Bool, String, Option, none, some, List,
  [], ◌∷◌, ◌++◌, map, arith, if◌then◌else◌, length, All, Bool-cases, Option-cases, ◌==◌, ◌&&◌,
  nat_eq, string_eq, beq_self, if_true,
}
use backbeat.Base.Permutation.{Permutation}
use backbeat.Retention.{Version, NcvExpiration, MinHeap, Heaps, heap_add, heap_of, ncv_heap_add}
use backbeat.Retention.Keeps.{stream, with_expired, stream-newest}
use backbeat.Retention.Heaps.{heap_of-ncv_heap_add, expired-ncv_heap_add}
use backbeat.Expiry.{
  Rules, Entity, Target, DeleteObject, LifecycleDateTime, NoncurrentVersionExpiration, days_passed,
  to_version, check_and_apply_ncv_expiration_rule, deletion, delete_noncurrent,
}
use backbeat.Expiry.Compare.{
  Outcome, fails, or_else, compare_noncurrent, compare_dated, ncv_expiration_of, ncv_transition_of,
}
use backbeat.Expiry.Compare.Deleted.{
  with_deleted, deleted, with_old, old_enough, id_of, check-old, check-young, ncv_transition-ids,
}

module _ {H : Type 0} (heap : MinHeap H) (clock : LifecycleDateTime) (target : Target)
    (rules : Rules) (rule : NoncurrentVersionExpiration) (r : String) (n : ℕ) (k : String)
    (is_rule : rules.noncurrent_version_expiration ≡ some rule)
    (counts : rule.newer ≡ record { id = r; newer_noncurrent_versions = some (suc n) }) where
  moves : Entity → ℕ → Outcome
  moves e stale = ncv_transition_of heap clock target e stale rules.noncurrent_version_transition

  added_to : Entity → ℕ → Heaps H × Option DeleteObject → Heaps H × Outcome
  unfolding moves
  added_to e stale x = (x.0, or_else x.1 (moves e stale))

  dated :
      (heaps : Heaps H) (e : Entity) (stale : ℕ)
      → e.stale_date ≡ some stale
      → (x : Heaps H × Option DeleteObject)
      → check_and_apply_ncv_expiration_rule heap clock target heaps e stale rule ≡ x
      → compare_noncurrent heap clock target heaps e rules ≡ added_to e stale x
  unfolding compare_noncurrent ncv_expiration_of added_to
  dated heaps e stale at x is =
      ap (compare_dated heap clock target heaps e rules) at
      ∙ ap (λ o. added_to e stale (ncv_expiration_of heap clock target heaps e stale o)) is_rule
      ∙ ap (added_to e stale) is

  undated :
      (heaps : Heaps H) (e : Entity)
      → e.stale_date ≡ none
      → compare_noncurrent heap clock target heaps e rules ≡ (heaps, fails)
  unfolding compare_noncurrent
  undated heaps e at = ap (compare_dated heap clock target heaps e rules) at

  moves-ids : (e : Entity) (stale : ℕ) (ids : List String) → with_deleted (moves e stale) ids ≡ ids
  unfolding moves
  moves-ids e stale ids =
      ncv_transition-ids heap clock target e stale rules.noncurrent_version_transition ids

  deletion-ids :
      (expired : Option Version) (e : Entity) (stale : ℕ) (ids : List String) (gone : List Version)
      → ids ≡ map id_of gone
      → with_deleted
          (or_else
            (deletion (λ v. delete_noncurrent clock target v rule.noncurrent_days stale) expired)
            (moves e stale))
          ids
        ≡ map id_of (with_expired heap (suc n) expired gone)
  unfolding or_else deletion delete_noncurrent with_deleted with_expired
  deletion-ids none e stale ids gone h = moves-ids e stale ids ∙ h
  deletion-ids (some v) e stale ids gone h = ap (v.version_id ∷◌) h

  next : Heaps H → List String → Heaps H × Outcome → List Entity → List String
  unfolding with_deleted
  next heaps ids x es = deleted heap clock target rules x.0 (with_deleted x.1 ids) es

  heap_after :
      (heaps : Heaps H) (v : Version)
      → v.key ≡ k
      → heap_of heap
          (ncv_heap_add heap heaps target.bucket (some rule.newer) v).0
          (suc n)
          target.bucket
          k
          r
        ≡ (heap_add heap (suc n) (heap_of heap heaps (suc n) target.bucket k r) v).0
  heap_after heaps v same =
      let b = target.bucket in
      ap
        (λ (x : NcvExpiration). heap_of heap (ncv_heap_add heap heaps b (some x) v).0 (suc n) b k r)
        counts
      ∙ heap_of-ncv_heap_add heap heaps b r (suc n) v (suc n) b k r (omega arith)
      ∙ if_true {b = (b == b) && ((v.key == k) && (r == r))} _ _
          (ground (arith, beq_self b, beq_self r, (string_eq.beq_iff v.key k).1 same))
      ∙ ap (λ key. (heap_add heap (suc n) (heap_of heap heaps (suc n) b key r) v).0) same

  expired_after :
      (heaps : Heaps H) (v : Version)
      → v.key ≡ k
      → (ncv_heap_add heap heaps target.bucket (some rule.newer) v).1
        ≡ (heap_add heap (suc n) (heap_of heap heaps (suc n) target.bucket k r) v).1
  expired_after heaps v same =
      let b = target.bucket in
      ap (λ (x : NcvExpiration). (ncv_heap_add heap heaps b (some x) v).1) counts
      ∙ expired-ncv_heap_add heap heaps b r (suc n) v (omega arith)
      ∙ ap (λ key. (heap_add heap (suc n) (heap_of heap heaps (suc n) b key r) v).1) same

  -- The ids that the heap gives up.
  given_up : H → List Version → List Version → List String
  given_up h gone vs = map id_of (stream heap (suc n) h gone vs).1

  -- What is deleted is what the heap of the object gives up.
  deleted-stream :
      (heaps : Heaps H) (ids : List String) (gone : List Version) (es : List Entity)
      → All (λ e. e.key ≡ k) es
      → ids ≡ map id_of gone
      → deleted heap clock target rules heaps ids es
        ≡ map id_of
            (stream heap
              (suc n)
              (heap_of heap heaps (suc n) target.bucket k r)
              gone
              (old_enough clock rule.noncurrent_days es)).1
  unfolding deleted stream next given_up old_enough with_old added_to to_version or_else
      with_deleted
  deleted-stream heaps ids gone [] same h = h
  deleted-stream heaps ids gone (e ∷ es) same h =
      let days = rule.noncurrent_days in
      let vs = old_enough clock days es in
      let top = heap_of heap heaps (suc n) target.bucket k r in
      let dates = λ (o : Option ℕ). given_up top gone (with_old clock days e o vs) in
      let ages =
        λ (stale : ℕ) (b : Bool). given_up top gone (if b then to_version e stale ∷ vs else vs) in
      elim (Option-cases e.stale_date) [
        | inl no_date ↦
            ap (λ x. next heaps ids x es) (undated heaps e no_date)
            ∙ deleted-stream heaps ids gone es same.1 h
            ∙ sym (ap dates no_date)
        | inr (stale, at) ↦ elim (Bool-cases (days_passed days (clock.find_days_since stale))) [
          | inr young ↦
              ap (λ x. next heaps ids x es)
                (dated heaps e stale at _
                  (check-young heap clock target heaps e stale rule r n young))
              ∙ deleted-stream heaps (with_deleted (moves e stale) ids) gone es same.1
                  (moves-ids e stale ids ∙ h)
              ∙ sym (ap dates at ∙ ap (ages stale) young)
          | inl old ↦
              let v = to_version e stale in
              let added = ncv_heap_add heap heaps target.bucket (some rule.newer) v in
              let action = deletion (λ x. delete_noncurrent clock target x days stale) added.1 in
              ap (λ x. next heaps ids x es)
                (dated heaps e stale at _
                  (check-old heap clock target heaps e stale rule r n old counts))
              ∙ deleted-stream added.0 (with_deleted (or_else action (moves e stale)) ids)
                  (with_expired heap (suc n) added.1 gone) es same.1
                  (deletion-ids added.1 e stale ids gone h)
              ∙ ap₂ (λ top' expired. given_up top' (with_expired heap (suc n) expired gone) vs)
                  (heap_after heaps v same.0) (expired_after heaps v same.0)
              ∙ sym (ap dates at ∙ ap (ages stale) old)
        ]
      ]

  -- Let versions of one object that are not the latest be compared one after the other, with a rule that
  -- keeps a number of newer noncurrent versions, and no heap for them before. The versions for which
  -- entries are sent and others that are kept are together those that are old enough for the rule. No
  -- more than the number are kept, exactly the number if any is deleted, and none is deleted that became
  -- noncurrent later than one that is kept.
  pub newest_kept :
      (heaps : Heaps H) (es : List Entity)
      → All (λ e. e.key ≡ k) es
      → heap_of heap heaps (suc n) target.bucket k r ≡ heap.create (suc n)
      → (gone : List Version) × (kept : List Version) × (deleted heap clock target rules heaps [] es
          ≡ map id_of gone)
        × Permutation (gone ++ kept) (old_enough clock rule.noncurrent_days es)
        × (length kept ≤ suc n)
        × ((gone ≡ []) ⊎ (length kept ≡ suc n))
        × All (λ g. All (λ v. g.stale_date ≤ v.stale_date) kept) gone
  unfolding given_up
  newest_kept heaps es same no_heap =
      let vs = old_enough clock rule.noncurrent_days es in
      let (end, gone) = stream heap (suc n) (heap.create (suc n)) [] vs in
      let (few, full, complete, older) = stream-newest heap (suc n) vs (omega arith) in
      (
        gone,
        heap.items end,
        deleted-stream heaps [] [] es same refl ∙ ap (λ h. given_up h [] vs) no_heap,
        complete,
        omega (arith, few, heap.size-items end),
        elim full [ inl e ↦ inl e | inr e ↦ inr (omega (arith, e, heap.size-items end)) ],
        older,
      )
