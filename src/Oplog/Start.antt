-- ===== src/Oplog/Start.antt =====
-- The start of the oplog populator from the connectors that Kafka Connect has.
use backbeat.Base.{
  ℕ, zero, suc, ◌+◌, ◌-◌, ◌<◌, ◌≡◌, ◌∙◌, ◌⊎◌, refl, sym, ap, inl, inr, true, false, String, some,
  List, [], ◌∷◌, ◌++◌, map, arith, length, get_elem?, if◌then◌else◌, Bool-cases, contains, nat_eq,
  string_eq, nat_beq_iff,
}
use backbeat.Base.Assoc.{Assoc, get, put, get-put}
use backbeat.Oplog.Connector.{Config, Connector, new_connector}
use backbeat.Oplog.Allocator.{System, has, assign_all, assign_from, init_allocator}
use backbeat.Oplog.Assignment.{holds_at, is_index, IsAssigned}
use backbeat.Oplog.Populator.{setup_buckets}
use backbeat.Oplog.Setup.{has-setup_buckets}
use backbeat.Oplog.Total.{setup_buckets-some}
use backbeat.Oplog.Manager.{get_old_connector, add_connector, add_connectors, initialize_connectors}

get-assign_all :
    (m : Assoc String ℕ) (i : ℕ) (bs : List String) (b : String)
    → get (assign_all m i bs) b ≡ (if contains bs b then some i else get m b)
unfolding assign_all contains
get-assign_all m i [] b = refl
get-assign_all m i (x ∷ bs) b = ground (
  arith,
  get-assign_all (put m x i) i bs b,
  get-put m x b i,
  string_eq.beq_iff b x,
  string_eq.beq_iff x b,
)

-- No bucket is with two connectors.
abbrev pub IsDisjoint : List Connector → Type 0
IsDisjoint cs =
    (i j : ℕ) (b : String)
    → holds_at (get_elem? cs i) b ≡ true
    → holds_at (get_elem? cs j) b ≡ true
    → i ≡ j

get-assign_from_none :
    (m : Assoc String ℕ) (i : ℕ) (cs : List Connector) (b : String)
    → ((j : ℕ) → holds_at (get_elem? cs j) b ≡ false)
    → get (assign_from m i cs) b ≡ get m b
unfolding assign_from
get-assign_from_none m i [] b h = refl
get-assign_from_none m i (c ∷ cs) b h =
    get-assign_from_none (assign_all m i c.buckets) (suc i) cs b (λ j. h (suc j))
    ∙ get-assign_all m i c.buckets b
    ∙ rw (h 0) refl

get-assign_from :
    (m : Assoc String ℕ) (i : ℕ) (cs : List Connector) (b : String) (j : ℕ)
    → IsDisjoint cs
    → holds_at (get_elem? cs j) b ≡ true
    → get (assign_from m i cs) b ≡ some (i + j)
unfolding assign_from
get-assign_from m i [] b j d h = absurd (ground (arith, h))
get-assign_from m i (c ∷ cs) b zero d h =
    get-assign_from_none (assign_all m i c.buckets) (suc i) cs b (λ k.
      elim (Bool-cases (holds_at (get_elem? cs k) b)) [
        | inl e ↦ absurd (omega (arith, d 0 (suc k) b h e))
        | inr e ↦ e
      ])
    ∙ get-assign_all m i c.buckets b
    ∙ rw h (ap some (omega arith))
get-assign_from m i (c ∷ cs) b (suc j) d h =
    get-assign_from (assign_all m i c.buckets) (suc i) cs b j
      (λ k l y p q. omega (arith, d (suc k) (suc l) y p q)) h
    ∙ ap some (omega arith)

find :
    (cs : List Connector) (b : String)
    → ((j : ℕ) × (holds_at (get_elem? cs j) b ≡ true))
      ⊎ ((j : ℕ) → holds_at (get_elem? cs j) b ≡ false)
find [] b = inr (λ j. refl)
find (c ∷ cs) b = elim (Bool-cases (contains c.buckets b)) [
  | inl e ↦ inl (0, e)
  | inr e ↦ elim (find cs b) [
    | inl (j, h) ↦ inl (suc j, h)
    | inr h ↦
        inr (λ j. elim j as (λ k. holds_at (get_elem? (c ∷ cs) k) b ≡ false) [
          | zero ↦ e
          | suc k ↦ h k
        ])
  ]
]

init_allocator-IsAssigned : (cs : List Connector) → IsDisjoint cs → IsAssigned (init_allocator cs)
unfolding init_allocator get
init_allocator-IsAssigned cs d = record {
  agrees = λ b i. elim (find cs b) [
    | inr h ↦ h i ∙ sym (ap (λ o. is_index o i) (get-assign_from_none [] 0 cs b h))
    | inl (j, h) ↦ elim (Bool-cases (holds_at (get_elem? cs i) b)) [
      | inl e ↦ ground (arith, e, get-assign_from [] 0 cs b i d e, nat_beq_iff i i)
      | inr e ↦ ground (arith, e, h, get-assign_from [] 0 cs b j d h, nat_beq_iff i j)
    ]
  ];
}

module _ (now : ℕ) (names : ℕ → String) where
  holds_at-add_connectors :
      (n i : ℕ) (b : String) → holds_at (get_elem? (add_connectors now names n) i) b ≡ false
  unfolding add_connectors add_connector new_connector contains
  holds_at-add_connectors zero i b = refl
  holds_at-add_connectors (suc n) zero b = refl
  holds_at-add_connectors (suc n) (suc i) b = holds_at-add_connectors n i b

  holds_at-old :
      (old : List (String × Config)) (n i : ℕ) (b : String)
      → holds_at (get_elem? (map (get_old_connector now) old ++ add_connectors now names n) i) b
        ≡ true
      → i < length old
  holds_at-old [] n i b h = absurd (ground (arith, h, holds_at-add_connectors n i b))
  holds_at-old (c ∷ old) n zero b h = omega arith
  holds_at-old (c ∷ old) n (suc i) b h = omega (arith, holds_at-old old n i b h)

  -- The start. Let at least one connector be wanted or there, and let no bucket be with two of the
  -- connectors that Kafka Connect has. Then the setup ends without an error of the allocator, and
  -- exactly the valid buckets are listened to, whatever the old connectors had.
  pub has-start :
      (nb_connectors : ℕ) (old : List (String × Config)) (valid : List String)
      → 0 < length (initialize_connectors nb_connectors old names now)
      → IsDisjoint (initialize_connectors nb_connectors old names now)
      → (t : System) × (setup_buckets
            (init_allocator (initialize_connectors nb_connectors old names now))
            (length old)
            valid
            now
          ≡ some t)
        × ((b : String) → has t b ≡ contains valid b)
  unfolding initialize_connectors init_allocator
  has-start nb_connectors old valid some_there apart =
      let cs = initialize_connectors nb_connectors old names now in
      let s : System = init_allocator cs in
      let v = init_allocator-IsAssigned cs apart in
      let (t, ok) = setup_buckets-some s (length old) now valid some_there in
      let from : (b : String) (i : ℕ) → get s.assigned b ≡ some i → i < length old = λ b i e.
        holds_at-old old (nb_connectors - length old) i b
          (v.agrees b i ∙ ap (λ o. is_index o i) e ∙ ground (arith, nat_beq_iff i i)) in
      (t, ok, λ b. has-setup_buckets s t (length old) now valid b v from ok)
