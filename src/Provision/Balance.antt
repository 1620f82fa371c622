-- ===== src/Provision/Balance.antt =====
-- lib/provisioning/ProvisionDispatcher.js: how many provisions the owners get.
use mathlib.Core.Option.{some-injective}
use mathlib.Core.List.{append-nil, append_assoc}
use backbeat.Base.{
  ℕ, zero, suc, ◌+◌, ◌-◌, ◌≤◌, ◌<◌, ◌≡◌, ◌∙◌, ◌⊎◌, inl, inr, refl, sym, ap, false, String, some,
  List, [], ◌∷◌, ◌++◌, arith, ltb, ltb→lt, leb, if◌then◌else◌, length, get_elem?, ◌==◌, nat_eq,
  nat_beq_iff, beq_ne, ◌≢◌, string_eq, Bool-cases,
}
use backbeat.Base.Assoc.{get, put, get-put}
use backbeat.Provision.Spread.{get_elem?-below, next_owner-lt}
use backbeat.Provision.{
  Shares, no_provisions, share_of, give, next_owner, spread, provisions_by_owner,
}

-- Every `n`th element, from the one at `k` on.
abbrev every : ℕ → ℕ → List String → List String
every n k [] = []
every n zero (p ∷ ps) = p ∷ every n (n - 1) ps
every n (suc k) (p ∷ ps) = every n k ps

-- How far it is from `idx` to the turn of `j`.
turns : ℕ → ℕ → ℕ → ℕ
turns n idx j = if leb idx j then j - idx else j + n - idx

every_here :
    (n idx j : ℕ) (p : String) (ps : List String)
    → j < n
    → idx ≡ j
    → every n (turns n idx j) (p ∷ ps) ≡ p ∷ every n (turns n (next_owner n idx) j) ps
unfolding turns next_owner
every_here n idx j p ps h e = rw (now, after) refl
  where
    now : turns n idx j ≡ 0
    now = ground (arith, e)

    after : turns n (next_owner n idx) j ≡ n - 1
    after = ground (arith, e, h)

every_later :
    (n idx j : ℕ) (p : String) (ps : List String)
    → idx < n
    → j < n
    → idx ≢ j
    → every n (turns n idx j) (p ∷ ps) ≡ every n (turns n (next_owner n idx) j) ps
unfolding turns next_owner
every_later n idx j p ps h k ne = rw later refl
  where
    later : turns n idx j ≡ suc (turns n (next_owner n idx) j)
    later = ground (arith, ne, h, k)

share_of-give :
    (m : Shares) (owner p o : String)
    → share_of (give m owner p) o ≡ (if owner == o then share_of m o ++ p ∷ [] else share_of m o)
unfolding give share_of
share_of-give m owner p o =
    ground (arith, string_eq.beq_iff owner o, get-put m owner o (share_of m owner ++ p ∷ []))

-- No owner is there twice.
abbrev pub IsDistinct : List String → Type 0
IsDistinct owners =
    (i j : ℕ) (o : String) → get_elem? owners i ≡ some o → get_elem? owners j ≡ some o → i ≡ j

share_of-spread :
    (owners : List String) (idx j : ℕ) (o : String) (m : Shares) (ps : List String)
    → IsDistinct owners
    → idx < length owners
    → get_elem? owners j ≡ some o
    → j < length owners
    → share_of (spread owners idx m ps) o
      ≡ share_of m o ++ every (length owners) (turns (length owners) idx j) ps
unfolding spread
share_of-spread owners idx j o m [] d h at k = sym (append-nil (share_of m o))
share_of-spread owners idx j o m (p ∷ ps) d h at k =
    let n = length owners in
    let (owner, here) = get_elem?-below owners idx h in
    let next = next_owner n idx in
    let ih = share_of-spread owners next j o (give m owner p) ps d (next_owner-lt n idx h) at k in
    rw (here, spread)
      (ih ∙ elim (Bool-cases (idx == j)) [
        | inl e ↦
            let i = (nat_beq_iff idx j).0 e in
            let mine : owner ≡ o = some-injective _ _ (sym here ∙ ap (get_elem? owners) i ∙ at) in
            rw
              (
                share_of-give m owner p o,
                every_here n idx j p ps k i,
                (string_eq.beq_iff owner o).1 mine,
              )
              (append_assoc (share_of m o) (p ∷ []) (every n (turns n next j) ps))
        | inr e ↦
            let ne : idx ≢ j = λ i. cc (e, (nat_beq_iff idx j).1 i) in
            let other : (owner == o) ≡ false =
              beq_ne owner o (λ mine. ne (d idx j o (here ∙ ap some mine) at)) in
            rw (share_of-give m owner p o, every_later n idx j p ps h k ne, other) refl
      ])

share_of-put_empty : (m : Shares) (x o : String) → share_of m o ≡ [] → share_of (put m x []) o ≡ []
unfolding share_of
share_of-put_empty m x o h = ground (arith, h, get-put m x o [], string_eq.beq_iff x o)

share_of-no_provisions :
    (m : Shares) (owners : List String) (o : String)
    → share_of m o ≡ []
    → share_of (no_provisions m owners) o ≡ []
unfolding no_provisions
share_of-no_provisions m [] o h = h
share_of-no_provisions m (x ∷ owners) o h =
    share_of-no_provisions (put m x []) owners o (share_of-put_empty m x o h)

share_of-nil : (o : String) → share_of [] o ≡ []
unfolding share_of get
share_of-nil o = refl

turns-start : (n j : ℕ) → turns n 0 j ≡ j
unfolding turns
turns-start n j = ground arith

length_get : (xs : List String) (i : ℕ) (x : String) → get_elem? xs i ≡ some x → i < length xs
length_get [] i x h = absurd (ground (arith, h))
length_get (y ∷ xs) zero x h = omega arith
length_get (y ∷ xs) (suc i) x h = omega (arith, length_get xs i x h)

-- The share of an owner is every so many provisions, from its own place on.
pub share_of-provisions_by_owner :
    (owners ps : List String) (j : ℕ) (o : String)
    → IsDistinct owners
    → get_elem? owners j ≡ some o
    → share_of (provisions_by_owner owners ps) o ≡ every (length owners) j ps
unfolding provisions_by_owner
share_of-provisions_by_owner owners ps j o d at =
    let k = length_get owners j o at in
    share_of-spread owners 0 j o (no_provisions [] owners) ps d (omega (arith, k)) at k
    ∙ rw (share_of-no_provisions [] owners o (share_of-nil o), turns-start (length owners) j) refl

length-every :
    (n i j : ℕ) (ps : List String)
    → i < j
    → j < n
    → (length (every n j ps) ≤ length (every n i ps))
      × (length (every n i ps) ≤ length (every n j ps) + 1)
length-every n i j [] h k = (omega arith, omega arith)
length-every n zero zero (p ∷ ps) h k = absurd (omega arith)
length-every n zero (suc j) (p ∷ ps) h k =
    let (few, many) = length-every n j (n - 1) ps (omega arith) (omega arith) in
    (omega (arith, many), omega (arith, few))
length-every n (suc i) zero (p ∷ ps) h k = absurd (omega arith)
length-every n (suc i) (suc j) (p ∷ ps) h k = length-every n i j ps (omega arith) (omega arith)

compare_cases : (i j : ℕ) → (i < j) ⊎ (i ≡ j) ⊎ (j < i)
compare_cases i j = elim (Bool-cases (ltb i j)) [
  | inl l ↦ inl (ltb→lt i j l)
  | inr ge ↦ elim (Bool-cases (i == j)) [
    | inl e ↦ inr (inl ((nat_beq_iff i j).0 e))
    | inr ne ↦ inr (inr (ground (arith, ge, ne)))
  ]
]

length-every_any :
    (n i j : ℕ) (ps : List String)
    → i < n
    → j < n
    → length (every n i ps) ≤ length (every n j ps) + 1
length-every_any n i j ps h k = elim (compare_cases i j) [
  | inl less ↦ (length-every n i j ps less k).1
  | inr (inl e) ↦ rw e (omega arith)
  | inr (inr more) ↦ omega (arith, (length-every n j i ps more h).0)
]

-- If no owner is there twice, the shares of any two owners differ by at most one provision.
pub shares_balanced :
    (owners ps : List String) (i j : ℕ) (a b : String)
    → IsDistinct owners
    → get_elem? owners i ≡ some a
    → get_elem? owners j ≡ some b
    → length (share_of (provisions_by_owner owners ps) a)
      ≤ length (share_of (provisions_by_owner owners ps) b) + 1
shares_balanced owners ps i j a b d p q =
    rw
      (
        share_of-provisions_by_owner owners ps i a d p,
        share_of-provisions_by_owner owners ps j b d q,
      )
      (length-every_any (length owners) i j ps (length_get owners i a p) (length_get owners j b q))
