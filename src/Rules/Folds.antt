-- ===== src/Rules/Folds.antt =====
-- The loops of `RulesReducer` over the rules: one accumulator at a time, and the sort.
use backbeat.Base.{
  ◌≡◌, inl, inr, refl, Bool, true, String, List, [], ◌∷◌, foldl, Bool-cases, All, string_eq,
}
use backbeat.Rules.Rule.{Rule, get_rule_prefix}
use backbeat.Rules.Reducer.{
  Listings, no_listings, no_class, insert_rule, sort_by_prefix, reduce_versioned,
  reduce_non_versioned, reduce_rule, to_listings,
}
use backbeat.Rules.Days.{
  Reducer, current_days, current_class, noncurrent_days, noncurrent_class, orphan_days,
}

-- The loop over the rules, seen from each of its three accumulators.
module _ (this : Reducer) where
  currents-fold :
      (acc : Listings) (rs : List Rule)
      → (foldl (reduce_versioned this) acc rs).currents
        ≡ foldl (reduce_rule (current_days this) current_class) acc.currents rs
  unfolding reduce_versioned
  currents-fold acc [] = refl
  currents-fold acc (r ∷ rs) = currents-fold (reduce_versioned this acc r) rs

  non_currents-fold :
      (acc : Listings) (rs : List Rule)
      → (foldl (reduce_versioned this) acc rs).non_currents
        ≡ foldl (reduce_rule (noncurrent_days this) noncurrent_class) acc.non_currents rs
  unfolding reduce_versioned
  non_currents-fold acc [] = refl
  non_currents-fold acc (r ∷ rs) = non_currents-fold (reduce_versioned this acc r) rs

  orphans-fold :
      (acc : Listings) (rs : List Rule)
      → (foldl (reduce_versioned this) acc rs).orphans
        ≡ foldl (reduce_rule (orphan_days this) no_class) acc.orphans rs
  unfolding reduce_versioned
  orphans-fold acc [] = refl
  orphans-fold acc (r ∷ rs) = orphans-fold (reduce_versioned this acc r) rs

  currents-fold_plain :
      (acc : Listings) (rs : List Rule)
      → (foldl (reduce_non_versioned this) acc rs).currents
        ≡ foldl (reduce_rule (current_days this) current_class) acc.currents rs
  unfolding reduce_non_versioned
  currents-fold_plain acc [] = refl
  currents-fold_plain acc (r ∷ rs) = currents-fold_plain (reduce_non_versioned this acc r) rs

  pub currents-to_listings :
      (to_listings this).currents
      ≡ foldl (reduce_rule (current_days this) current_class) [] this.rules
  unfolding to_listings
  currents-to_listings = elim (Bool-cases this.is_versioning) [
    | inl e ↦ rw e (currents-fold no_listings this.rules)
    | inr e ↦ rw e (currents-fold_plain no_listings this.rules)
  ]

  pub non_currents-to_listings :
      this.is_versioning ≡ true
      → (to_listings this).non_currents
        ≡ foldl (reduce_rule (noncurrent_days this) noncurrent_class) [] this.rules
  unfolding to_listings
  non_currents-to_listings e = rw e (non_currents-fold no_listings this.rules)

  pub orphans-to_listings :
      this.is_versioning ≡ true
      → (to_listings this).orphans ≡ foldl (reduce_rule (orphan_days this) no_class) [] this.rules
  unfolding to_listings
  orphans-to_listings e = rw e (orphans-fold no_listings this.rules)

module _ (precedes : String → String → Bool) (P : Rule → Type 0) where
  All-insert_rule : (r : Rule) (rs : List Rule) → All P (insert_rule precedes r rs) → P r × All P rs
  unfolding insert_rule
  All-insert_rule r [] h = h
  All-insert_rule r (s ∷ rs) h =
      elim (Bool-cases (precedes (get_rule_prefix r) (get_rule_prefix s))) [
        | inl e ↦ rw e at h
        | inr e ↦
            let (first, rest) = rw e at h in
            let (here, others) = All-insert_rule r rs rest in (here, (first, others))
      ]

  -- The sort loses no rule.
  pub All-sort_by_prefix : (rs : List Rule) → All P (sort_by_prefix precedes rs) → All P rs
  unfolding sort_by_prefix
  All-sort_by_prefix [] h = tt
  All-sort_by_prefix (r ∷ rs) h =
      let (here, rest) = All-insert_rule r (sort_by_prefix precedes rs) h in
      (here, All-sort_by_prefix rs rest)
