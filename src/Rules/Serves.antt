-- ===== src/Rules/Serves.antt =====
-- When a listing serves a rule, and what `_aggregateByPrefix` does to listings that do.
use backbeat.Base.{
  AnyOf, ℕ, ◌≤◌, ◌≡◌, ◌⊎◌, inl, inr, refl, true, String, Option, none, some, List, [], ◌∷◌, arith,
  ltb, if◌then◌else◌, Bool-cases, ap, tests, ◌==◌, string_eq, opt_beq,
}
use text.Mathlib.Text.{starts_with}
use text.Mathlib.TextPositions.{starts_with_of_prefix}
use text.Mathlib.TextLemmas.{append-nil}
use backbeat.Rules.Rule.{Days, num, nan, less_days}
use backbeat.Rules.Reducer.{Listing, given_class, share_listing, aggregate}

-- A listing takes in what became old enough after at most `d` days; with NaN it takes in all.
abbrev pub IsWithin : Days → ℕ → Type 0
IsWithin (num e) d = e ≤ d
IsWithin nan d = Unit

pub IsWithin-mono : (x : Days) (e d : ℕ) → e ≤ d → IsWithin x e → IsWithin x d
IsWithin-mono (num a) e d early h = omega arith
IsWithin-mono nan e d early h = tt

-- The listing `x` serves a rule on `prefix` that acts after `d` days: its prefix contains the rule's,
-- it is early enough, and it leaves out at most the class that the rule's objects go to.
pub record Serves (prefix : String) (d : ℕ) (class : Option String) (x : Listing) : Type 0 where
  pub within_prefix : starts_with prefix x.prefix ≡ true
  pub within_days : IsWithin x.days d
  pub excludes : (x.storage_class ≡ none) ⊎ (x.storage_class ≡ class)

starts_with_self : (s : String) → starts_with s s ≡ true
starts_with_self s = starts_with_of_prefix s s ("", append-nil s)

given_class_excludes :
    (class : Option String) → (given_class class ≡ none) ⊎ (given_class class ≡ class)
given_class_excludes none = inl refl
given_class_excludes (some c) = elim (Bool-cases (c == "")) [
  | inl e ↦ rw e (inl refl)
  | inr e ↦ rw e (inr refl)
]

share_class :
    (a b : Option String)
    → ((if opt_beq a b then a else none) ≡ none) ⊎ ((if opt_beq a b then a else none) ≡ b)
share_class none none = inl refl
share_class none (some b) = inl refl
share_class (some a) none = inl refl
share_class (some a) (some b) = elim (Bool-cases (a == b)) [
  | inl e ↦ rw e (inr (ap some ((string_eq.beq_iff a b).0 e)))
  | inr e ↦ rw e (inl refl)
]

keep_excluded :
    (a b c : Option String)
    → (a ≡ none) ⊎ (a ≡ c)
    → ((if opt_beq a b then a else none) ≡ none) ⊎ ((if opt_beq a b then a else none) ≡ c)
keep_excluded a b c h = elim (Bool-cases (opt_beq a b)) [ inl e ↦ rw e h | inr e ↦ rw e (inl refl) ]

share-IsWithin_old :
    (x y : Days) (d : ℕ) → IsWithin x d → IsWithin (if less_days y x then y else x) d
share-IsWithin_old (num a) (num b) d h = elim (Bool-cases (ltb b a)) [
  | inl e ↦ rw e (omega (tests, e))
  | inr e ↦ rw e h
]
share-IsWithin_old (num a) nan d h = h
share-IsWithin_old nan (num b) d h = tt
share-IsWithin_old nan nan d h = tt

share-IsWithin_new : (x : Days) (d : ℕ) → IsWithin (if less_days (num d) x then num d else x) d
share-IsWithin_new (num a) d = elim (Bool-cases (ltb d a)) [
  | inl e ↦ rw e (omega arith)
  | inr e ↦ rw e (omega (tests, e))
]
share-IsWithin_new nan d = tt

module _ (prefix : String) (d : ℕ) (class : Option String) where
  share-old :
      (x : Listing) (days : Days) (other : Option String)
      → Serves prefix d class x
      → Serves prefix d class (share_listing x days other)
  unfolding share_listing
  share-old x days other s = record {
    within_prefix = s.within_prefix;
    within_days = share-IsWithin_old x.days days d s.within_days;
    excludes = keep_excluded x.storage_class other class s.excludes;
  }

  share-new :
      (x : Listing)
      → starts_with prefix x.prefix ≡ true
      → Serves prefix d class (share_listing x (num d) class)
  unfolding share_listing
  share-new x h = record {
    within_prefix = h;
    within_days = share-IsWithin_new x.days d;
    excludes = share_class x.storage_class class;
  }

  -- A later rule leaves the service of earlier ones intact.
  pub aggregate-old :
      (ls : List Listing) (p : String) (days : Days) (other : Option String)
      → AnyOf (Serves prefix d class) ls
      → AnyOf (Serves prefix d class) (aggregate ls p days other)
  unfolding aggregate
  aggregate-old [] p days other h = absurd h
  aggregate-old (x ∷ []) p days other h = elim (Bool-cases (starts_with p x.prefix)) [
    | inl e ↦ rw e (elim h [ inl s ↦ inl (share-old x days other s) | inr n ↦ absurd n ])
    | inr e ↦ rw e (elim h [ inl s ↦ inl s | inr n ↦ absurd n ])
  ]
  aggregate-old (x ∷ y ∷ ls) p days other h =
      let rest = aggregate-old (y ∷ ls) p days other in
      elim h [ inl s ↦ inl s | inr r ↦ inr (rest r) ]

  pub aggregate-new :
      (ls : List Listing) → AnyOf (Serves prefix d class) (aggregate ls prefix (num d) class)
  unfolding aggregate
  aggregate-new [] = inl (record {
    within_prefix = starts_with_self prefix;
    within_days = omega arith;
    excludes = given_class_excludes class;
  })
  aggregate-new (x ∷ []) = elim (Bool-cases (starts_with prefix x.prefix)) [
    | inl e ↦ rw e (inl (share-new x e))
    | inr e ↦ rw e (
        inr (
          inl (record {
            within_prefix = starts_with_self prefix;
            within_days = omega arith;
            excludes = given_class_excludes class;
          })))
  ]
  aggregate-new (x ∷ y ∷ ls) = inr (aggregate-new (y ∷ ls))
