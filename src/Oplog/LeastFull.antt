-- ===== src/Oplog/LeastFull.antt =====
-- extensions/oplogPopulator/allocationStrategy/LeastFullConnector.js: the choice of a connector.
use backbeat.Base.{
  ℕ, zero, suc, ◌+◌, ◌-◌, ◌≤◌, ◌<◌, ◌≡◌, ◌∙◌, refl, sym, ap, subst, inl, inr, none, some, List, [],
  ◌∷◌, arith, tests, ltb, Bool-cases, get_elem?,
}
use mathlib.Core.Option.{some-injective}
use backbeat.Oplog.Connector.{Connector, bucket_count}
use backbeat.Oplog.Allocator.{least_from, get_connector}

-- `i` is the index of a connector with `n` buckets.
abbrev CountAt : List Connector → ℕ → ℕ → Type 0
CountAt cs i n = (c : Connector) × (get_elem? cs i ≡ some c) × (bucket_count c ≡ n)

-- No connector has fewer than `n`.
abbrev pub IsLeast : List Connector → ℕ → Type 0
IsLeast cs n = (j : ℕ) (c : Connector) → get_elem? cs j ≡ some c → n ≤ bucket_count c

module _ (all : List Connector) where
  -- `rest` are the connectors from the index `i` on.
  abbrev IsRest : ℕ → List Connector → Type 0
  IsRest i rest = (k : ℕ) → get_elem? rest k ≡ get_elem? all (k + i)

  abbrev IsLeastBelow : ℕ → ℕ → Type 0
  IsLeastBelow i n = (j : ℕ) (c : Connector) → j < i → get_elem? all j ≡ some c → n ≤ bucket_count c

  IsRest-tail :
      (i : ℕ) (c : Connector) (rest : List Connector) → IsRest i (c ∷ rest) → IsRest (suc i) rest
  IsRest-tail i c rest h k = h (suc k) ∙ ap (get_elem? all) (omega arith)

  IsLeastBelow-suc :
      (i n : ℕ) (c : Connector) (rest : List Connector)
      → IsRest i (c ∷ rest)
      → n ≤ bucket_count c
      → IsLeastBelow i n
      → IsLeastBelow (suc i) n
  IsLeastBelow-suc i n c rest h le b j d lt at = elim (Bool-cases (ltb j i)) [
    | inl e ↦ b j d (omega (tests, e)) at
    | inr e ↦
        let here : get_elem? all j ≡ some c = ap (get_elem? all) (omega (tests, e)) ∙ sym (h 0) in
        ground (arith, here)
  ]

  IsLeastBelow-all : (i n : ℕ) → IsRest i [] → IsLeastBelow i n → IsLeast all n
  IsLeastBelow-all i n h b j c at = elim (Bool-cases (ltb j i)) [
    | inl e ↦ b j c (omega (tests, e)) at
    | inr e ↦
        let gone : none ≡ get_elem? all j = h (j - i) ∙ ap (get_elem? all) (omega (tests, e)) in
        ground (arith, gone)
  ]

  least_from-IsLeast :
      (best n i : ℕ) (rest : List Connector)
      → IsRest i rest
      → CountAt all best n
      → IsLeastBelow i n
      → (m : ℕ) × CountAt all (least_from best n i rest) m × IsLeast all m
  unfolding least_from
  least_from-IsLeast best n i [] h at b = (n, at, IsLeastBelow-all i n h b)
  least_from-IsLeast best n i (c ∷ rest) h at b = elim (Bool-cases (ltb (bucket_count c) n)) [
    | inl e ↦ rw e (
        least_from-IsLeast i (bucket_count c) (suc i) rest (IsRest-tail i c rest h)
          (c, ap (get_elem? all) (omega arith) ∙ sym (h 0), refl)
          (IsLeastBelow-suc i (bucket_count c) c rest h (omega arith)
            (λ j d lt q. omega (tests, e, b j d lt q))))
    | inr e ↦ rw e (
        least_from-IsLeast best n (suc i) rest (IsRest-tail i c rest h) at
          (IsLeastBelow-suc i n c rest h (omega (tests, e)) b))
  ]

first_least : (c : Connector) (cs : List Connector) → IsLeastBelow (c ∷ cs) 1 (bucket_count c)
first_least c cs zero d lt q = ground (arith, q)
first_least c cs (suc j) d lt q = absurd (omega arith)

pub get_connector-IsLeast :
    (cs : List Connector) (i : ℕ)
    → get_connector cs ≡ some i
    → (c : Connector) × (get_elem? cs i ≡ some c) × IsLeast cs (bucket_count c)
unfolding get_connector
get_connector-IsLeast [] i h = absurd (ground arith)
get_connector-IsLeast (c ∷ cs) i h =
    let (m, at, least) =
      least_from-IsLeast (c ∷ cs) 0 (bucket_count c) 1 cs
        (λ k. ap (get_elem? (c ∷ cs)) {x = suc k} {y = k + 1} (omega arith)) (c, refl, refl)
        (first_least c cs) in
    (
      at.0,
      subst (λ k. get_elem? (c ∷ cs) k ≡ some at.0) (some-injective _ _ h) at.1,
      λ j d q. omega (arith, at.2, least j d q),
    )

-- The connector that is chosen is one of the list, and no connector of the list has fewer buckets.
pub get_connector-le :
    (cs : List Connector) (i j : ℕ) (d : Connector)
    → get_connector cs ≡ some i
    → get_elem? cs j ≡ some d
    → (c : Connector) × (get_elem? cs i ≡ some c) × (bucket_count c ≤ bucket_count d)
get_connector-le cs i j d h at =
    let (c, here, least) = get_connector-IsLeast cs i h in (c, here, least j d at)
