-- ===== src/Provision/Spread.antt =====
-- lib/provisioning/ProvisionDispatcher.js: which owner gets a provision.
use mathlib.Core.List.{append-nil, append_assoc}
use backbeat.Base.{
  ℕ, zero, suc, ◌<◌, ◌≡◌, ◌∙◌, inl, inr, refl, ap, subst, String, some, List, [], ◌∷◌, ◌++◌, arith,
  if◌then◌else◌, length, get_elem?, ◌==◌, nat_eq, string_eq, Bool-cases,
}
use backbeat.Base.Assoc.{get, put}
use backbeat.Base.Permutation.{Permutation, same, chain, append_left, to_front}
use backbeat.Provision.{
  Shares, no_provisions, share_of, give, next_owner, spread, provisions_by_owner,
}

-- The provisions in all shares.
abbrev pub all_shares : Shares → List String
all_shares [] = []
all_shares ((k, l) ∷ m) = l ++ all_shares m

give-cons :
    (k : String) (l : List String) (m : Shares) (owner p : String)
    → give ((k, l) ∷ m) owner p
      ≡ (if k == owner then (owner, l ++ p ∷ []) ∷ m else (k, l) ∷ give m owner p)
unfolding give share_of get put
give-cons k l m owner p = ground (arith, string_eq.beq_iff k owner)

give-Permutation :
    (m : Shares) (owner p : String) → Permutation (all_shares (give m owner p)) (p ∷ all_shares m)
unfolding give share_of get put
give-Permutation [] owner p = same (p ∷ [])
give-Permutation ((k, l) ∷ m) owner p = elim (Bool-cases (k == owner)) [
  | inl e ↦
      rw (give-cons k l m owner p)
        (rw e (rw (append_assoc l (p ∷ []) (all_shares m)) (to_front l p (all_shares m))))
  | inr e ↦
      rw (give-cons k l m owner p)
        (rw e (chain (append_left l (give-Permutation m owner p)) (to_front l p (all_shares m))))
]

pub get_elem?-below :
    {A : Type 0} (xs : List A) (i : ℕ) → i < length xs → (x : A) × (get_elem? xs i ≡ some x)
get_elem?-below [] i h = absurd (omega arith)
get_elem?-below (x ∷ xs) zero h = (x, refl)
get_elem?-below (x ∷ xs) (suc i) h = get_elem?-below xs i (omega arith)

pub next_owner-lt : (n idx : ℕ) → idx < n → next_owner n idx < n
unfolding next_owner
next_owner-lt n idx h = ground arith

spread-Permutation :
    (owners : List String) (idx : ℕ) (m : Shares) (ps : List String)
    → idx < length owners
    → Permutation (all_shares (spread owners idx m ps)) (ps ++ all_shares m)
unfolding spread
spread-Permutation owners idx m [] h = same (all_shares m)
spread-Permutation owners idx m (p ∷ ps) h =
    let (owner, at) = get_elem?-below owners idx h in
    rw (at, spread)
      (chain
        (spread-Permutation owners (next_owner (length owners) idx) (give m owner p) ps
          (next_owner-lt (length owners) idx h))
        (chain (append_left ps (give-Permutation m owner p)) (to_front ps p (all_shares m))))

put_empty-all : (m : Shares) (owner : String) → all_shares m ≡ [] → all_shares (put m owner []) ≡ []
unfolding put
put_empty-all [] owner h = refl
put_empty-all ((k, []) ∷ m) owner h = elim (Bool-cases (k == owner)) [
  | inl e ↦ rw e h
  | inr e ↦ rw e (put_empty-all m owner h)
]
put_empty-all ((k, x ∷ l) ∷ m) owner h = absurd (ground (arith, h))

no_provisions-all :
    (m : Shares) (owners : List String)
    → all_shares m ≡ []
    → all_shares (no_provisions m owners) ≡ []
unfolding no_provisions
no_provisions-all m [] h = h
no_provisions-all m (o ∷ owners) h = no_provisions-all (put m o []) owners (put_empty-all m o h)

-- Where there is an owner, the shares of all owners are together the provisions: each provision is in
-- one share, and no share has anything else.
pub provisions_by_owner-Permutation :
    (o : String) (owners ps : List String)
    → Permutation (all_shares (provisions_by_owner (o ∷ owners) ps)) ps
unfolding provisions_by_owner
provisions_by_owner-Permutation o owners ps =
    subst (λ l. Permutation (all_shares (provisions_by_owner (o ∷ owners) ps)) l)
      (ap (ps ++◌) (no_provisions-all [] (o ∷ owners) refl) ∙ append-nil ps)
      (spread-Permutation (o ∷ owners) 0 (no_provisions [] (o ∷ owners)) ps (omega arith))
