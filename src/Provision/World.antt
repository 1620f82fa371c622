-- ===== src/Provision/World.antt =====
-- A dispatcher with the writes to ZooKeeper that it begins, and the answers.
mod Settling
pub mod Settled
use backbeat.Base.{
  ℕ, ◌≡◌, ◌∙◌, ◌⊎◌, ◌≢◌, inl, inr, refl, sym, ap, subst, Bool, true, false, String, Option, none,
  some, List, [], ◌∷◌, ◌++◌, arith, Option-cases, if◌then◌else◌, ◌==◌, string_eq, beq_ne,
  Bool-cases, All,
}
use mathlib.Core.Option.{none-ne-some}
use backbeat.Base.Assoc.{Assoc, get, put, remove, get-put, get-remove}
use backbeat.Provision.{
  NodeName, Dispatcher, create, Shares, provisions_by_owner, redispatch_with, redispatch,
  on_written, if_leader, on_leader_change, on_owner_change, on_provision_change, am_i_leader,
}

-- The answer to a write: it is done, there is no such node, or another error.
pub data Result : Type 0 where
  stored no_node failed : Result

-- A dispatcher with the writes that it waits for, those that are under way although it does not, and what
-- is in the nodes.
pub record World : Type 0 where
  pub me : Dispatcher
  pub pending : Shares
  pub late : Shares
  pub nodes : Shares

pub data Event : Type 0 where
  leaders : List NodeName → Event
  owners : List String → Event
  provisions : List String → Event
  answered : String → Result → Event
  landed : String → Event

-- The writes that a call begins, none are pending then.
pub begin_writes : World → Dispatcher × Option Shares → World
begin_writes w (d, none) = record w { me = d }
begin_writes w (d, some shares) = record w { me = d; pending = shares }

-- `async.eachLimit` ends with the last answer.
pub end_at : World → Shares → World
unfolding begin_writes
end_at w [] = begin_writes w (on_written w.me)
end_at w (_ ∷ _) = w

pub end_if_last : World → World
unfolding end_at
end_if_last w = end_at w w.pending

-- The answer to a write of an owner's share. At an error it ends at once, and the others are still
-- under way.
pub on_answer : World → String → List String → Result → World
unfolding end_if_last begin_writes
on_answer w owner share stored =
    end_if_last (record w { pending = remove w.pending owner; nodes = put w.nodes owner share })
on_answer w owner share no_node = end_if_last (record w { pending = remove w.pending owner })
on_answer w owner share failed =
    begin_writes (record w { pending = []; late = remove w.pending owner ++ w.late })
      (on_written w.me)

unfoldable pub act : World → Event → World
unfolding on_answer begin_writes
act w (leaders children) = begin_writes w (on_leader_change w.me children)
act w (owners children) = begin_writes w (on_owner_change w.me children)
act w (provisions children) = begin_writes w (on_provision_change w.me children)
act w (answered owner result) = elim (get w.pending owner) [
  | none ↦ w
  | some share ↦ on_answer w owner share result
]
act w (landed owner) = elim (get w.late owner) [
  | none ↦ w
  | some share ↦ record w { late = remove w.late owner; nodes = put w.nodes owner share }
]

abbrev pub acts : World → List Event → World
acts w [] = w
acts w (e ∷ rest) = acts (act w e) rest

abbrev pub start : NodeName → World
start name = record { me = create name; pending = []; late = []; nodes = [] }
