-- ===== src/Expiry/Apply/Once.antt =====
-- _applyTransitionRule of extensions/lifecycle/tasks/LifecycleTask.js: when a copy of an object is asked for.
use backbeat.Base.{
  ◌≡◌, ◌≢◌, ◌⊎◌, inl, inr, refl, true, false, not, ◌&&◌, String, Option, none, some, ◌∷◌, arith,
  string_eq, contains, Bool-cases,
}
use backbeat.Expiry.{TransitionParams}
use backbeat.Expiry.Apply.{
  ObjectMd, Error, Answers, Locations, World, refused, can_unconditionally_garbage_collect,
  note_transition, send_action, if_not_refused, apply_transition_rule,
}

-- A copy may be asked for.
pub record IsMovable (locations : Locations) (site : String) (md : ObjectMd) : Type 0 where
  pub not_paused : contains locations.paused site ≡ false
  pub not_pending : md.replication_status ≢ "PENDING"
  pub not_processing : md.replication_status ≢ "PROCESSING"
  pub not_failed : md.replication_status ≢ "FAILED"
  pub not_cold : locations.is_cold md.data_store_name ≡ false
  pub not_under_way : md.transition_in_progress ≡ false
  pub not_restored : md.restore_completed ≡ false

refused-IsMovable :
    (locations : Locations) (site : String) (md : ObjectMd)
    → contains locations.paused site ≡ false
    → refused locations md ≡ none
    → IsMovable locations site md
unfolding refused
refused-IsMovable locations site md free h = record {
  not_paused = free;
  not_pending =
      λ e. absurd (ground (arith, h, (string_eq.beq_iff md.replication_status "PENDING").1 e));
  not_processing =
      λ e. absurd (ground (arith, h, (string_eq.beq_iff md.replication_status "PROCESSING").1 e));
  not_failed =
      λ e. absurd (ground (arith, h, (string_eq.beq_iff md.replication_status "FAILED").1 e));
  not_cold = ground (arith, h);
  not_under_way = ground (arith, h);
  not_restored = ground (arith, h);
}

-- Nothing was done, and there is an error; or a copy was asked for, which may be, and if there is no error
-- the metadata notes it.
abbrev pub Applies : Locations → World → TransitionParams → World × Option Error → Type 0
Applies locations w params (after, error) =
    ((after ≡ w) × (error ≢ none))
    ⊎ ((after.sent ≡ params ∷ w.sent)
        × IsMovable locations params.site w.md
        × (error ≡ none → after.md.transition_in_progress ≡ true))

noted :
    (locations : Locations) (a : Answers) (w : World) (params : TransitionParams)
    → IsMovable locations params.site w.md
    → Applies locations w params (note_transition a (record w { sent = params ∷ w.sent }) params)
unfolding note_transition
noted locations a w params m = elim (Bool-cases a.refresh_ok) [
  | inr e ↦ rw e (inr (refl, m, λ x. cc))
  | inl e ↦ elim (Bool-cases a.put_ok) [
    | inr f ↦ rw (e, f) (inr (refl, m, λ x. cc))
    | inl f ↦ rw (e, f) (inr (refl, m, λ x. refl))
  ]
]

sends :
    (locations : Locations) (a : Answers) (w : World) (params : TransitionParams)
    → IsMovable locations params.site w.md
    → Applies locations w params (send_action locations a w params)
unfolding send_action
sends locations a w params m =
    elim (Bool-cases (not (can_unconditionally_garbage_collect locations w.md) && not a.head_ok)) [
      | inl e ↦ rw (e, send_action) (inl (refl, λ x. cc))
      | inr e ↦ elim (Bool-cases a.send_ok) [
        | inr f ↦ rw (e, f, send_action) (inl (refl, λ x. cc))
        | inl f ↦ rw (e, f, send_action) (noted locations a w params m)
      ]
    ]

unless_refused :
    (locations : Locations) (a : Answers) (w : World) (params : TransitionParams) (r : Option Error)
    → contains locations.paused params.site ≡ false
    → refused locations w.md ≡ r
    → Applies locations w params (if_not_refused r w (send_action locations a w params))
unfolding if_not_refused
unless_refused locations a w params none free e =
    sends locations a w params (refused-IsMovable locations params.site w.md free e)
unless_refused locations a w params (some error) free e = inl (refl, λ x. cc)

-- Whatever the services answer: either nothing is done and there is an error, or a copy is asked for to a
-- location that is not paused, of an object that is not being replicated nor failed to be, not in a cold
-- location, not under a transition and not restored for a time; and if there is no error then, the
-- metadata notes the transition. Nothing is said of the location where the object is now.
pub apply-Applies :
    (locations : Locations) (a : Answers) (w : World) (params : TransitionParams)
    → Applies locations w params (apply_transition_rule locations a w params)
unfolding apply_transition_rule
apply-Applies locations a w params = elim (Bool-cases (contains locations.paused params.site)) [
  | inl e ↦ rw (e, apply_transition_rule) (inl (refl, λ x. cc))
  | inr e ↦ elim (Bool-cases a.get_ok) [
    | inr f ↦ rw (e, f, apply_transition_rule) (inl (refl, λ x. cc))
    | inl f ↦ rw (e, f, apply_transition_rule) (unless_refused locations a w params _ e refl)
  ]
]

-- If a transition was applied without an error, no copy of the object is asked for a second time:
-- another transition ends with an error, whatever the services answer, and changes nothing.
pub apply_once :
    (locations : Locations) (a b : Answers) (w : World) (params later : TransitionParams)
    → (apply_transition_rule locations a w params).1 ≡ none
    → (let first = (apply_transition_rule locations a w params).0 in
        let second = apply_transition_rule locations b first later in
        (first.sent ≡ params ∷ w.sent) × (second.0 ≡ first) × (second.1 ≢ none))
apply_once locations a b w params later well =
    let first = (apply_transition_rule locations a w params).0 in
    elim (apply-Applies locations a w params) [
      | inl (_, failed) ↦ absurd (failed well)
      | inr (sent, _, notes) ↦ elim (apply-Applies locations b first later) [
        | inl (nothing, failed) ↦ (sent, nothing, failed)
        | inr (_, movable, _) ↦ absurd (ground (arith, movable.not_under_way, notes well))
      ]
    ]
