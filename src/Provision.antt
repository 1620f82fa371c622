-- ===== src/Provision.antt =====
-- lib/provisioning/ProvisionDispatcher.js: the first of the dispatchers that are registered in ZooKeeper
-- spreads the provisions over all of them.
pub mod Spread
pub mod Balance
pub mod Leader
pub mod World
pub mod Tests
use backbeat.Base.{
  ℕ, zero, suc, ◌+◌, Bool, true, false, not, ◌&&◌, ◌||◌, String, Option, none, some, List, [], ◌∷◌,
  ◌++◌, ltb, if◌then◌else◌, length, get_elem?, ◌==◌, nat_eq, string_eq,
}
use backbeat.Base.Assoc.{Assoc, get, put}

-- The name of a node of the election, as its code units.
abbrev pub NodeName : Type 0
NodeName = List ℕ

pub record Dispatcher : Type 0 where
  pub my_leader_name : NodeName
  pub is_leader : Bool
  pub owners : Option (List String)
  pub provisions : Option (List String)
  pub my_provisions : Option (List String)
  pub redispatch_in_progress : Bool
  pub redo_redispatch : Bool

unfoldable pub create : NodeName → Dispatcher
create name = record {
  my_leader_name = name;
  is_leader = false;
  owners = none;
  provisions = none;
  my_provisions = none;
  redispatch_in_progress = false;
  redo_redispatch = false;
}

-- `a >= b` on texts.
unfoldable pub at_least : NodeName → NodeName → Bool
at_least a [] = true
at_least [] (y ∷ b) = false
at_least (x ∷ a) (y ∷ b) =
    let rest = at_least a b in if ltb y x then true else if ltb x y then false else rest

unfoldable pub am_i_leader : NodeName → List NodeName → Bool
am_i_leader name [] = true
am_i_leader name (child ∷ children) = at_least child name && am_i_leader name children

-- `provisionsByOwner`
abbrev pub Shares : Type 0
Shares = Assoc String (List String)

unfoldable pub no_provisions : Shares → List String → Shares
no_provisions m [] = m
no_provisions m (owner ∷ owners) = no_provisions (put m owner []) owners

unfoldable pub share_of : Shares → String → List String
share_of m owner = elim (get m owner) [ none ↦ [] | some l ↦ l ]

unfoldable pub give : Shares → String → String → Shares
unfolding share_of
give m owner provision = put m owner (share_of m owner ++ provision ∷ [])

unfoldable pub next_owner : ℕ → ℕ → ℕ
next_owner count idx = if idx + 1 == count then 0 else idx + 1

-- The loop over the provisions; the index stays in the list of owners.
unfoldable pub spread : List String → ℕ → Shares → List String → Shares
spread owners idx m [] = m
spread owners idx m (provision ∷ provisions) = elim (get_elem? owners idx) [
  | none ↦ m
  | some owner ↦ spread owners (next_owner (length owners) idx) (give m owner provision) provisions
]

unfoldable pub provisions_by_owner : List String → List String → Shares
unfolding no_provisions spread
provisions_by_owner owners provisions = spread owners 0 (no_provisions [] owners) provisions

-- What `_redispatchProvisions` does with what is known: the writes that it begins, if any.
unfoldable pub redispatch_with :
    Dispatcher → Option (List String) → Option (List String) → Dispatcher × Option Shares
redispatch_with d none _ = (d, none)
redispatch_with d (some owners) none = (d, none)
redispatch_with d (some []) (some provisions) = (d, none)
redispatch_with d (some (o ∷ owners)) (some provisions) =
    if d.redispatch_in_progress then (record d { redo_redispatch = true }, none) else (
      record d { redispatch_in_progress = true },
      some (provisions_by_owner (o ∷ owners) provisions),
    )

unfoldable pub redispatch : Dispatcher → Dispatcher × Option Shares
unfolding redispatch_with
redispatch d = redispatch_with d d.owners d.provisions

-- When the writes have ended.
unfoldable pub on_written : Dispatcher → Dispatcher × Option Shares
unfolding redispatch
on_written d =
    if d.redo_redispatch
    then redispatch (record d { redispatch_in_progress = false; redo_redispatch = false })
    else (record d { redispatch_in_progress = false }, none)

-- The answers of ZooKeeper about its nodes; after an error nothing is done.
unfoldable pub if_leader : Dispatcher → Dispatcher × Option Shares
unfolding redispatch
if_leader d = if d.is_leader then redispatch d else (d, none)

unfoldable pub on_leader_change : Dispatcher → List NodeName → Dispatcher × Option Shares
unfolding if_leader am_i_leader
on_leader_change d children =
    if_leader (record d { is_leader = am_i_leader d.my_leader_name children })

unfoldable pub on_owner_change : Dispatcher → List String → Dispatcher × Option Shares
unfolding if_leader
on_owner_change d children = if_leader (record d { owners = some children })

unfoldable pub on_provision_change : Dispatcher → List String → Dispatcher × Option Shares
unfolding if_leader
on_provision_change d children = if_leader (record d { provisions = some children })

same_list : List String → List String → Bool
same_list [] [] = true
same_list (x ∷ xs) (y ∷ ys) = x == y && same_list xs ys
same_list _ _ = false

is_known : Option (List String) → List String → Bool
unfolding same_list
is_known none l = false
is_known (some k) l = same_list l k

-- The content of the dispatcher's own node; a change is passed on to the subscriber.
unfoldable pub on_myself_change : Dispatcher → List String → Dispatcher × Option (List String)
unfolding is_known
on_myself_change d provisions =
    if is_known d.my_provisions provisions
    then (d, none)
    else (record d { my_provisions = some provisions }, some provisions)
