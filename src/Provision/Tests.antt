-- ===== src/Provision/Tests.antt =====
-- Three provisions and two owners, and the theorems at them.
use backbeat.Base.{
  zero, suc, ◌+◌, ◌≤◌, ◌≡◌, refl, String, some, List, [], ◌∷◌, arith, length, string_eq,
}
use text.Mathlib.TextEquality.{eq_iff}
use backbeat.Base.Assoc.{get, put, remove}
use backbeat.Base.Permutation.{Permutation}
use backbeat.Provision.{
  NodeName, at_least, am_i_leader, provisions_by_owner, give, next_owner, share_of, create,
  on_owner_change, on_provision_change, on_leader_change, on_written, redispatch,
}
use backbeat.Provision.Spread.{all_shares, provisions_by_owner-Permutation}
use backbeat.Provision.Balance.{IsDistinct, shares_balanced}
use backbeat.Provision.World.{
  Event, leaders, owners, provisions, answered, stored, act, acts, start,
}
use backbeat.Provision.World.Settled.{acts-settle}

abbrev first : NodeName
first = 48 ∷ 49 ∷ []

abbrev second : NodeName
second = 48 ∷ 50 ∷ []

abbrev three : List String
three = "p" ∷ "q" ∷ "r" ∷ []

abbrev two_owners : List String
two_owners = "a" ∷ "b" ∷ []

spread_out : provisions_by_owner two_owners three ≡ ("a", "p" ∷ "r" ∷ []) ∷ ("b", "q" ∷ []) ∷ []
unfolding provisions_by_owner give put get share_of next_owner
spread_out = refl

provisions_by_owner-Permutation_example :
    Permutation (all_shares (provisions_by_owner two_owners three)) three
provisions_by_owner-Permutation_example = provisions_by_owner-Permutation "a" ("b" ∷ []) three

not_both : (o : String) → some "a" ≡ some o → some "b" ≡ some o → ⊥
not_both o p q = ground (arith, eq_iff "a" "b", p, q)

two_owners-IsDistinct : IsDistinct two_owners
two_owners-IsDistinct zero zero o p q = refl
two_owners-IsDistinct zero (suc zero) o p q = absurd (not_both o p q)
two_owners-IsDistinct (suc zero) zero o p q = absurd (not_both o q p)
two_owners-IsDistinct (suc zero) (suc zero) o p q = refl
two_owners-IsDistinct zero (suc (suc j)) o p q = absurd (ground (arith, q))
two_owners-IsDistinct (suc zero) (suc (suc j)) o p q = absurd (ground (arith, q))
two_owners-IsDistinct (suc (suc i)) j o p q = absurd (ground (arith, p))

shares_balanced_example :
    length (share_of (provisions_by_owner two_owners three) "a")
    ≤ length (share_of (provisions_by_owner two_owners three) "b") + 1
shares_balanced_example =
    shares_balanced two_owners three 0 1 "a" "b" two_owners-IsDistinct refl refl

-- An owner joins while the shares of the first are written.
abbrev joined_late : List Event
joined_late =
    leaders (second ∷ first ∷ [])
    ∷ owners ("a" ∷ [])
    ∷ provisions three
    ∷ owners two_owners
    ∷ answered "a" stored
    ∷ answered "a" stored
    ∷ answered "b" stored
    ∷ []

acts-settle_example : get (acts (start first) joined_late).nodes "b" ≡ some ("q" ∷ [])
unfolding act create on_leader_change on_owner_change on_provision_change on_written get put remove
    am_i_leader at_least redispatch provisions_by_owner give share_of next_owner
acts-settle_example =
    acts-settle first joined_late "b" ("q" ∷ []) (tt, (tt, (tt, (tt, (tt, (tt, (tt, tt))))))) refl
      refl refl
