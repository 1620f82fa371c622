-- ===== src/Provision/Leader.antt =====
-- lib/provisioning/ProvisionDispatcher.js: which of the registered dispatchers is the leader.
use backbeat.Base.{◌≡◌, inl, inr, refl, true, false, List, [], ◌∷◌, arith, IsIn, Bool-cases}
use backbeat.Provision.{NodeName, at_least, am_i_leader}

at_least-total : (a b : NodeName) → at_least a b ≡ false → at_least b a ≡ true
unfolding at_least
at_least-total a [] h = absurd (ground (arith, h))
at_least-total [] (y ∷ b) h = refl
at_least-total (x ∷ a) (y ∷ b) h = ground (arith, at_least-total a b)

at_least_trans :
    (a b c : NodeName) → at_least a b ≡ true → at_least b c ≡ true → at_least a c ≡ true
unfolding at_least
at_least_trans a b [] h k = refl
at_least_trans a [] (z ∷ c) h k = absurd (ground (arith, k))
at_least_trans [] (y ∷ b) (z ∷ c) h k = h
at_least_trans (x ∷ a) (y ∷ b) (z ∷ c) h k = ground (arith, at_least_trans a b c)

at_least-antisym : (a b : NodeName) → at_least a b ≡ true → at_least b a ≡ true → a ≡ b
unfolding at_least
at_least-antisym [] [] h k = refl
at_least-antisym [] (y ∷ b) h k = absurd (ground (arith, h))
at_least-antisym (x ∷ a) [] h k = absurd (ground (arith, k))
at_least-antisym (x ∷ a) (y ∷ b) h k = ground (arith, at_least-antisym a b)

at_least_self : (a : NodeName) → at_least a a ≡ true
unfolding at_least
at_least_self [] = refl
at_least_self (x ∷ a) = ground (arith, at_least_self a)

-- A leader's name is at most every other.
leader-le :
    (name : NodeName) (children : List NodeName) (child : NodeName)
    → am_i_leader name children ≡ true
    → IsIn child children
    → at_least child name ≡ true
unfolding am_i_leader
leader-le name [] child h i = absurd i
leader-le name (c ∷ children) child h (inl e) = rw e (ground (arith, h))
leader-le name (c ∷ children) child h (inr i) = leader-le name children child (ground (arith, h)) i

leader_mono :
    (a b : NodeName) (children : List NodeName)
    → at_least b a ≡ true
    → am_i_leader b children ≡ true
    → am_i_leader a children ≡ true
unfolding am_i_leader
leader_mono a b [] h k = refl
leader_mono a b (c ∷ children) h k =
    ground (arith, at_least_trans c b a, leader_mono a b children h)

-- Some child is a leader among them.
some_leader :
    (c : NodeName) (children : List NodeName)
    → (name : NodeName) × IsIn name (c ∷ children) × (am_i_leader name (c ∷ children) ≡ true)
unfolding am_i_leader
some_leader c [] = (c, inl refl, ground (arith, at_least_self c))
some_leader c (d ∷ children) =
    let (name, is_in, leads) = some_leader d children in
    elim (Bool-cases (at_least c name)) [
      | inl e ↦ (name, inr is_in, ground (arith, e, leads))
      | inr e ↦ (
        c,
        inl refl,
        ground (
          arith,
          at_least_self c,
          leader_mono c name (d ∷ children) (at_least-total c name e) leads,
        ),
      )
    ]

-- Among the names of the nodes of the election, if there are any, there is exactly one whose dispatcher
-- takes itself for the leader.
pub one_leader :
    (c : NodeName) (rest : List NodeName)
    → (name : NodeName) × IsIn name (c ∷ rest)
      × (am_i_leader name (c ∷ rest) ≡ true)
      × ((other : NodeName)
          → IsIn other (c ∷ rest)
          → am_i_leader other (c ∷ rest) ≡ true
          → other ≡ name)
one_leader c rest =
    let (name, is_in, leads) = some_leader c rest in
    (
      name,
      is_in,
      leads,
      λ other there leads'.
          at_least-antisym other name (leader-le name (c ∷ rest) other leads there)
            (leader-le other (c ∷ rest) name leads' is_in),
    )
