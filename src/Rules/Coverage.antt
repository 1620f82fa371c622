-- ===== src/Rules/Coverage.antt =====
-- `RulesReducer` of extensions/lifecycle/util/RulesReducer.js: how the listings serve the enabled rules, and
-- which current objects they reach.
use backbeat.Base.{
  none, AnyOf, IsIn, subst, sym, ◌∙◌, ◌≤◌, All-IsIn, ℕ, ◌≡◌, inl, inr, Bool, true, String, Option,
  some, List, [], ◌∷◌, foldl, Bool-cases, Option-cases, ◌||◌, All, ◌==◌, string_eq,
}
use backbeat.Rules.Rule.{Rule, Days, num, get_rule_prefix}
use backbeat.Rules.Reducer.{
  Listing, no_class, new_reducer, aggregate_by_prefix, reduce_rule, to_listings,
}
use backbeat.Rules.Days.{
  Reducer, Options, current_days, current_class, noncurrent_days, noncurrent_class, orphan_days,
}
use text.Mathlib.Text.{starts_with}
use mathlib.Core.Option.{none-ne-some}
use backbeat.Rules.Serves.{Serves, IsWithin, IsWithin-mono, aggregate-old, aggregate-new}
use backbeat.Rules.Due.{
  OnlyMoves, AreAlike, ActsAfter, IsPrefix, get_rule_prefix-IsPrefix, current_class-OnlyMoves,
  current_days-AtMost,
}
use backbeat.Rules.Folds.{
  currents-to_listings, non_currents-to_listings, orphans-to_listings, All-sort_by_prefix,
}

-- A rule's demand on the listings of one type: none if it is not enabled, or has no days.
abbrev pub IsServed : (Rule → Option Days) → (Rule → Option String) → List Listing → Rule → Type 0
IsServed days class ls r =
    (d : ℕ)
    → r.status ≡ "Enabled"
    → days r ≡ some (num d)
    → AnyOf (Serves (get_rule_prefix r) d (class r)) ls

module _ (days : Rule → Option Days) (class : Rule → Option String) where
  reduce-old :
      (ls : List Listing) (r s : Rule)
      → IsServed days class ls r
      → IsServed days class (reduce_rule days class ls s) r
  unfolding reduce_rule aggregate_by_prefix
  reduce-old ls r s h d on due = elim (Bool-cases (s.status == "Enabled")) [
    | inl e ↦ rw e (elim (Option-cases (days s)) [
      | inl n ↦ rw (n, aggregate_by_prefix) (h d on due)
      | inr (x, j) ↦
          rw (j, aggregate_by_prefix)
            (aggregate-old _ d (class r) ls (get_rule_prefix s) x (class s) (h d on due))
    ])
    | inr e ↦ rw e (h d on due)
  ]

  reduce-new : (ls : List Listing) (r : Rule) → IsServed days class (reduce_rule days class ls r) r
  unfolding reduce_rule aggregate_by_prefix
  reduce-new ls r d on due =
      rw ((string_eq.beq_iff r.status "Enabled").1 on, due) (aggregate-new _ d (class r) ls)

  fold-old :
      (ls : List Listing) (rs : List Rule) (r : Rule)
      → IsServed days class ls r
      → IsServed days class (foldl (reduce_rule days class) ls rs) r
  fold-old ls [] r h = h
  fold-old ls (s ∷ rs) r h = fold-old (reduce_rule days class ls s) rs r (reduce-old ls r s h)

  fold-IsServed :
      (ls : List Listing) (rs : List Rule)
      → All (IsServed days class (foldl (reduce_rule days class) ls rs)) rs
  fold-IsServed ls [] = tt
  fold-IsServed ls (r ∷ rs) = (
    fold-old (reduce_rule days class ls r) rs r (reduce-new ls r),
    fold-IsServed (reduce_rule days class ls r) rs,
  )

-- A listing that reaches the current objects on which a rule acts after `d` days: its prefix contains
-- the rule's, it is early enough, and if it leaves out a class, the rule only moves objects to this one.
pub record Reaches (r : Rule) (prefix : String) (d : ℕ) (x : Listing) : Type 0 where
  pub within_prefix : starts_with prefix x.prefix ≡ true
  pub within_days : IsWithin x.days d
  pub leaves_out : (c : String) → x.storage_class ≡ some c → OnlyMoves r c

serving-Reaches :
    (r : Rule) (p : String) (e d : ℕ) (x : Listing)
    → get_rule_prefix r ≡ p
    → e ≤ d
    → Serves (get_rule_prefix r) e (current_class r) x
    → Reaches r p d x
serving-Reaches r p e d x same early s = record {
  within_prefix = subst (λ q. starts_with q x.prefix ≡ true) same s.within_prefix;
  within_days = IsWithin-mono x.days e d early s.within_days;
  leaves_out = λ c out. elim s.excludes [
    | inl nothing ↦ absurd (none-ne-some _ (sym nothing ∙ out))
    | inr class ↦ current_class-OnlyMoves r c (sym class ∙ out)
  ];
}

AnyOf-map :
    {P Q : Listing → Type 0}
    → (ls : List Listing) → ((x : Listing) → P x → Q x)
    → AnyOf P ls
    → AnyOf Q ls
AnyOf-map [] f h = h
AnyOf-map (x ∷ ls) f (inl h) = inl (f x h)
AnyOf-map (x ∷ ls) f (inr h) = inr (AnyOf-map ls f h)

module _ (precedes : String → String → Bool) (versioning_status : String) (now : ℕ)
    (rules : List Rule) (options : Options) where
  abbrev pub this : Reducer
  this = new_reducer precedes versioning_status now rules options

  by_class :
      (r : Rule) (d : ℕ)
      → IsIn r rules
      → r.status ≡ "Enabled"
      → current_days this r ≡ some (num d)
      → AnyOf (Serves (get_rule_prefix r) d (current_class r)) (to_listings this).currents
  unfolding new_reducer
  by_class r d given =
      All-IsIn (IsServed (current_days this) current_class (to_listings this).currents) rules
        (All-sort_by_prefix precedes _ rules
          (rw (currents-to_listings this) (fold-IsServed _ _ [] this.rules)))
        given d

  -- Whatever the order of the rules: let an enabled rule have transitions that all give days or all give
  -- dates, if it has any. If one of its actions on current objects is due after a number of days, or at
  -- once as its date has passed, there is a listing of current objects whose prefix contains the rule's
  -- and that takes in all objects of that age; and if it leaves out a storage class, all that the rule
  -- does to current objects is to move them to this class.
  pub currents_served :
      (r : Rule) (prefix : String) (d : ℕ)
      → IsIn r rules
      → r.status ≡ "Enabled"
      → IsPrefix r prefix
      → AreAlike r.transitions
      → ActsAfter options now r d
      → AnyOf (Reaches r prefix d) (to_listings this).currents
  unfolding new_reducer
  currents_served r prefix d given on of alike acts =
      let (e, days, early) = current_days-AtMost this r d alike acts in
      AnyOf-map (to_listings this).currents
        (λ x. serving-Reaches r prefix e d x (get_rule_prefix-IsPrefix r prefix of) early)
        (by_class r e given on days)

  abbrev has_versions : Bool
  has_versions = versioning_status == "Enabled" || versioning_status == "Suspended"

  -- In a bucket that has or had versioning enabled, an enabled rule on versions that are no longer
  -- current, with days that are a number, has a listing of such versions whose prefix contains its
  -- own, that takes in all of its age, and that leaves out no storage class but the one the rule moves
  -- versions to.
  pub non_currents_served :
      (r : Rule) (d : ℕ)
      → has_versions ≡ true
      → IsIn r rules
      → r.status ≡ "Enabled"
      → noncurrent_days this r ≡ some (num d)
      → AnyOf (Serves (get_rule_prefix r) d (noncurrent_class r)) (to_listings this).non_currents
  unfolding new_reducer
  non_currents_served r d versions given =
      All-IsIn (IsServed (noncurrent_days this) noncurrent_class (to_listings this).non_currents)
        rules
        (All-sort_by_prefix precedes _ rules
          (rw (non_currents-to_listings this versions) (fold-IsServed _ _ [] this.rules)))
        given d

  -- In a bucket that has or had versioning enabled, an enabled rule on orphan delete markers, with
  -- days that are a number, has a listing of such markers whose prefix contains its own, that takes in
  -- all of its age, and that leaves out no storage class.
  pub orphans_served :
      (r : Rule) (d : ℕ)
      → has_versions ≡ true
      → IsIn r rules
      → r.status ≡ "Enabled"
      → orphan_days this r ≡ some (num d)
      → AnyOf (Serves (get_rule_prefix r) d none) (to_listings this).orphans
  unfolding new_reducer
  orphans_served r d versions given =
      All-IsIn (IsServed (orphan_days this) no_class (to_listings this).orphans) rules
        (All-sort_by_prefix precedes _ rules
          (rw (orphans-to_listings this versions) (fold-IsServed _ _ [] this.rules)))
        given d
