-- ===== src/Provision/World/Settled.antt =====
-- What stands in the nodes of the owners once the leader's writes have ended, whatever came in between.
use backbeat.Base.{
  ◌≡◌, inl, inr, refl, true, false, String, none, some, List, [], ◌∷◌, Option-cases, string_eq, All,
}
use mathlib.Core.Option.{none-ne-some}
use backbeat.Base.Assoc.{get}
use backbeat.Provision.{
  NodeName, create, on_leader_change, on_owner_change, on_provision_change, am_i_leader,
}
use backbeat.Provision.World.{
  World, Event, leaders, owners, provisions, answered, landed, act, acts, start,
}
use backbeat.Provision.World.Settling.{
  GoesWell, due, IsSettling, if_leader-IsSettling, answer-IsSettling,
}

no_late : (w : World) (owner : String) → w.late ≡ [] → get w.late owner ≡ none
unfolding get
no_late w owner e = rw e refl

act-IsSettling :
    (o : String) (w : World) (e : Event) → GoesWell o e → IsSettling o w → IsSettling o (act w e)
unfolding act on_leader_change on_owner_change on_provision_change
act-IsSettling o w (leaders children) good h =
    if_leader-IsSettling o w (record w.me { is_leader = am_i_leader w.me.my_leader_name children })
      h.nothing_late h.idle
act-IsSettling o w (owners children) good h =
    if_leader-IsSettling o w (record w.me { owners = some children }) h.nothing_late h.idle
act-IsSettling o w (provisions children) good h =
    if_leader-IsSettling o w (record w.me { provisions = some children }) h.nothing_late h.idle
act-IsSettling o w (answered owner result) good h = elim (Option-cases (get w.pending owner)) [
  | inl e ↦ rw (e, act) h
  | inr (share, e) ↦ rw (e, act) (answer-IsSettling o owner share w e result good h)
]
act-IsSettling o w (landed owner) good h = rw (no_late w owner h.nothing_late, act) h

acts-IsSettling :
    (o : String) (w : World) (run : List Event)
    → All (GoesWell o) run
    → IsSettling o w
    → IsSettling o (acts w run)
acts-IsSettling o w [] good h = h
acts-IsSettling o w (e ∷ rest) good h =
    acts-IsSettling o (act w e) rest good.1 (act-IsSettling o w e good.0 h)

start-IsSettling : (o : String) (name : NodeName) → IsSettling o (start name)
unfolding create
start-IsSettling o name = record {
  nothing_late = refl;
  idle = λ _. (refl, refl);
  newest = λ share l r d. cc;
}

-- Let a dispatcher start, and let ZooKeeper tell it of leaders, owners and provisions at any times, also
-- while writes are under way. Let no write fail, and let the node of an owner be there when its share is
-- written. Whenever the dispatcher is the leader and waits for no write, the owner's node has the share
-- that it is to have by what the dispatcher knows last.
pub acts-settle :
    (name : NodeName) (run : List Event) (o : String) (share : List String)
    → All (GoesWell o) run
    → (acts (start name) run).me.is_leader ≡ true
    → (acts (start name) run).me.redispatch_in_progress ≡ false
    → due (acts (start name) run).me o ≡ some share
    → get (acts (start name) run).nodes o ≡ some share
unfolding get
acts-settle name run o share good leads free is_due =
    let w = acts (start name) run in
    let h = acts-IsSettling o (start name) run good (start-IsSettling o name) in
    let (empty, once) = h.idle free in
    elim (h.newest share leads once is_due) [
      | inl waiting ↦ absurd (none-ne-some _ (rw empty at waiting))
      | inr (_, stands) ↦ stands
    ]
