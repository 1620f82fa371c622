-- ===== src/Provision/World/Settling.antt =====
-- The steps of a dispatcher and the newest shares, in the nodes or still to be written.
use backbeat.Base.{
  ◌≡◌, ◌∙◌, ◌⊎◌, ◌≢◌, inl, inr, refl, sym, subst, true, false, String, Option, none, some, List, [],
  ◌∷◌, arith, if_true, if_false, ◌==◌, string_eq, beq_ne, Bool-cases,
}
use mathlib.Core.Option.{none-ne-some}
use backbeat.Base.Assoc.{get, put, remove, get-put, get-remove}
use backbeat.Provision.{
  Dispatcher, Shares, provisions_by_owner, redispatch_with, redispatch, on_written, if_leader,
}
use backbeat.Provision.World.{
  Result, stored, no_node, failed, World, Event, answered, begin_writes, end_at, end_if_last,
  on_answer,
}

-- No write fails, and the node of `o` is there when its share is written.
abbrev pub GoesWell : String → Event → Type 0
GoesWell o (answered owner stored) = Unit
GoesWell o (answered owner no_node) = owner ≢ o
GoesWell o (answered owner failed) = ⊥
GoesWell o _ = Unit

-- What the owner `o` is to get by what the dispatcher knows.
abbrev pub share_with : Option (List String) → Option (List String) → String → Option (List String)
share_with none _ o = none
share_with (some ks) none o = none
share_with (some ks) (some ps) o = get (provisions_by_owner ks ps) o

abbrev pub due : Dispatcher → String → Option (List String)
due d o = share_with d.owners d.provisions o

-- The share is to be written, or stands in the node and is not to be overwritten.
abbrev pub Stands : World → String → List String → Type 0
Stands w o share =
    (get w.pending o ≡ some share) ⊎ ((get w.pending o ≡ none) × (get w.nodes o ≡ some share))

pub record IsSettling (o : String) (w : World) : Type 0 where
  pub nothing_late : w.late ≡ []
  pub idle : w.me.redispatch_in_progress ≡ false → (w.pending ≡ []) × (w.me.redo_redispatch ≡ false)
  pub newest :
      (share : List String)
      → w.me.is_leader ≡ true
      → w.me.redo_redispatch ≡ false
      → due w.me o ≡ some share
      → Stands w o share

no_owners : (ps : List String) (o : String) → get (provisions_by_owner [] ps) o ≡ none
unfolding provisions_by_owner get
no_owners [] o = refl
no_owners (p ∷ ps) o = refl

-- A call of `_redispatchProvisions`, whatever stood in the nodes.
redispatch-IsSettling :
    (o : String) (w : World) (ks ps : Option (List String))
    → w.me.owners ≡ ks
    → w.me.provisions ≡ ps
    → w.late ≡ []
    → (w.me.redispatch_in_progress ≡ false → (w.pending ≡ []) × (w.me.redo_redispatch ≡ false))
    → IsSettling o (begin_writes w (redispatch_with w.me ks ps))
unfolding begin_writes redispatch_with
redispatch-IsSettling o w none ps e f late idle = record {
  nothing_late = late;
  idle = idle;
  newest = λ share l r d. absurd (none-ne-some _ (rw e at d));
}
redispatch-IsSettling o w (some ks) none e f late idle = record {
  nothing_late = late;
  idle = idle;
  newest = λ share l r d. absurd (none-ne-some _ (rw (e, f) at d));
}
redispatch-IsSettling o w (some []) (some ps) e f late idle = record {
  nothing_late = late;
  idle = idle;
  newest = λ share l r d. absurd (none-ne-some _ (sym (no_owners ps o) ∙ (rw (e, f) at d)));
}
redispatch-IsSettling o w (some (k ∷ ks)) (some ps) e f late idle =
    elim (Bool-cases w.me.redispatch_in_progress) [
      | inl busy ↦
          rw (busy, redispatch_with)
            (record { nothing_late = late; idle = λ h. cc; newest = λ share l r d. cc })
      | inr free ↦
          rw (free, redispatch_with)
            (record {
              nothing_late = late;
              idle = λ h. cc;
              newest = λ share l r d. inl (rw (e, f) at d);
            })
    ]

begin_writes-me :
    (w : World) (d : Dispatcher) (x : Dispatcher × Option Shares)
    → begin_writes (record w { me = d }) x ≡ begin_writes w x
unfolding begin_writes
begin_writes-me w d (d', none) = refl
begin_writes-me w d (d', some shares) = refl

abbrev pub IsIdle : World → Dispatcher → Type 0
IsIdle w d = d.redispatch_in_progress ≡ false → (w.pending ≡ []) × (d.redo_redispatch ≡ false)

redispatched :
    (o : String) (w : World) (d : Dispatcher)
    → w.late ≡ []
    → IsIdle w d
    → IsSettling o (begin_writes w (redispatch d))
unfolding redispatch
redispatched o w d late idle =
    subst (IsSettling o) (begin_writes-me w d (redispatch_with d d.owners d.provisions))
      (redispatch-IsSettling o (record w { me = d }) d.owners d.provisions refl refl late idle)

pub if_leader-IsSettling :
    (o : String) (w : World) (d : Dispatcher)
    → w.late ≡ []
    → IsIdle w d
    → IsSettling o (begin_writes w (if_leader d))
unfolding if_leader begin_writes
if_leader-IsSettling o w d late idle = elim (Bool-cases d.is_leader) [
  | inl e ↦
      subst (λ x. IsSettling o (begin_writes w x)) (sym (if_true _ _ e))
        (redispatched o w d late idle)
  | inr e ↦
      subst (λ x. IsSettling o (begin_writes w x)) (sym (if_false _ _ e))
        (record { nothing_late = late; idle = idle; newest = λ share l r due. cc })
]

IsNewest : String → World → Type 0
IsNewest o w =
    (share : List String)
    → w.me.is_leader ≡ true
    → w.me.redo_redispatch ≡ false
    → due w.me o ≡ some share
    → Stands w o share

written-IsSettling :
    (o : String) (w : World)
    → w.late ≡ []
    → w.pending ≡ []
    → IsNewest o w
    → IsSettling o (begin_writes w (on_written w.me))
unfolding on_written IsNewest begin_writes
written-IsSettling o w late empty newest = elim (Bool-cases w.me.redo_redispatch) [
  | inl redo ↦
      subst (λ x. IsSettling o (begin_writes w x)) (sym (if_true _ _ redo))
        (redispatched o w (record w.me { redispatch_in_progress = false; redo_redispatch = false })
          late (λ _. (empty, refl)))
  | inr once ↦
      subst (λ x. IsSettling o (begin_writes w x)) (sym (if_false _ _ once))
        (record { nothing_late = late; idle = λ _. (empty, once); newest = newest })
]

end_at-IsSettling :
    (o : String) (w : World) (pending : Shares)
    → w.pending ≡ pending
    → w.late ≡ []
    → w.me.redispatch_in_progress ≡ true
    → IsNewest o w
    → IsSettling o (end_at w pending)
unfolding end_at IsNewest
end_at-IsSettling o w [] e late busy newest = written-IsSettling o w late e newest
end_at-IsSettling o w (_ ∷ _) e late busy newest = record {
  nothing_late = late;
  idle = λ free. cc;
  newest = newest;
}

-- The share of `o` is written, or that of another owner, to a node that is there or not.
module _ (o owner : String) (share : List String) (w : World)
    (known : get w.pending owner ≡ some share) where
  stored-Stands :
      (l : List String)
      → Stands w o l
      → Stands (record w { pending = remove w.pending owner; nodes = put w.nodes owner share }) o l
  stored-Stands l (inl e) = elim (Bool-cases (owner == o)) [
    | inl here ↦ inr (
      ground (arith, get-remove w.pending owner o, here),
      ground (
        arith,
        get-put w.nodes owner o share,
        here,
        e,
        known,
        (string_eq.beq_iff owner o).0 here,
      ),
    )
    | inr other ↦ inl (ground (arith, get-remove w.pending owner o, other, e))
  ]
  stored-Stands l (inr (e, f)) = elim (Bool-cases (owner == o)) [
    | inl here ↦ absurd (ground (arith, (string_eq.beq_iff owner o).0 here, known, e))
    | inr other ↦ inr (
      ground (arith, get-remove w.pending owner o, other, e),
      ground (arith, get-put w.nodes owner o share, other, f),
    )
  ]

  no_node-Stands :
      owner ≢ o
      → (l : List String) → Stands w o l
      → Stands (record w { pending = remove w.pending owner }) o l
  no_node-Stands ne l (inl e) =
      inl (ground (arith, get-remove w.pending owner o, beq_ne owner o ne, e))
  no_node-Stands ne l (inr (e, f)) =
      inr (ground (arith, get-remove w.pending owner o, beq_ne owner o ne, e), f)

  busy : IsSettling o w → w.me.redispatch_in_progress ≡ true
  unfolding get
  busy h = elim (Bool-cases w.me.redispatch_in_progress) [
    | inl e ↦ e
    | inr e ↦ absurd (none-ne-some _ (rw ((h.idle e).0) at known))
  ]

  pub answer-IsSettling :
      (r : Result)
      → GoesWell o (answered owner r)
      → IsSettling o w
      → IsSettling o (on_answer w owner share r)
  unfolding on_answer end_if_last IsNewest
  answer-IsSettling stored good h =
      end_at-IsSettling o _ _ refl h.nothing_late (busy h)
        (λ l a b d. stored-Stands l (h.newest l a b d))
  answer-IsSettling no_node good h =
      end_at-IsSettling o _ _ refl h.nothing_late (busy h)
        (λ l a b d. no_node-Stands good l (h.newest l a b d))
  answer-IsSettling failed good h = absurd good
