-- ===== src/Rules/Days.antt =====
-- Class `RulesReducer` of extensions/lifecycle/util/RulesReducer.js: the days that a rule asks for, and the
-- class of its only transition.
use backbeat.Base.{
  ℕ, ◌-◌, Bool, false, ◌&&◌, String, Option, none, some, List, [], ◌∷◌, map, foldl, ltb, leb,
  if◌then◌else◌, ◌==◌, nat_eq, string_eq, not,
}
use backbeat.Rules.Rule.{
  Rule, Expiration, Transition, NoncurrentTransition, Days, num, lowest, combine_days, as_days,
}

pub record Options : Type 0 where
  pub expire_one_day_earlier : Bool
  pub transition_one_day_earlier : Bool

pub record Reducer : Type 0 where
  pub is_versioning : Bool
  pub current_date : ℕ
  pub rules : List Rule
  pub options : Options

-- `_decrementExpirationDay` and `_decrementTransitionDay`, which differ in the option they read.
unfoldable pub decrement_day : Bool → Option ℕ → Option ℕ
decrement_day earlier none = none
decrement_day earlier (some days) = if ltb 0 days && earlier then some (days - 1) else some days

-- A number that is given and is not 0.
abbrev pub truthy : Option ℕ → Bool
truthy none = false
truthy (some n) = not (n == 0)

-- `Expiration.Date`, if it has passed.
abbrev pub passed : ℕ → Option ℕ → Option ℕ
passed now none = none
passed now (some date) = if leb date now then some 0 else none

module _ (this : Reducer) where
  -- The part of `_reduceCurrentRules` about `r.Expiration`.
  unfoldable pub expiration_days : Option Expiration → Option ℕ
  unfolding decrement_day
  expiration_days none = none
  expiration_days (some e) =
      if truthy e.days
      then decrement_day this.options.expire_one_day_earlier e.days
      else passed this.current_date e.date

  -- The part about `r.Transitions`, from the days found so far.
  unfoldable pub transition_days : Option ℕ → Option (List Transition) → Option Days
  unfolding decrement_day lowest combine_days as_days
  transition_days days none = as_days days
  transition_days days (some []) = as_days days
  transition_days days (some (t ∷ ts)) = elim t.days [
    | some _ ↦ combine_days days (
        decrement_day this.options.transition_one_day_earlier
          (foldl lowest t.days (map (λ (u : Transition). u.days) ts)))
    | none ↦ elim t.date [
      | some _ ↦
          elim (passed this.current_date
            (foldl lowest t.date (map (λ (u : Transition). u.date) ts))) [
              | some _ ↦ some (num 0)
              | none ↦ as_days days
            ]
      | none ↦ as_days days
    ]
  ]

  unfoldable pub current_days : Rule → Option Days
  unfolding expiration_days transition_days
  current_days r = transition_days (expiration_days r.expiration) r.transitions

  -- The part of `_reduceNonCurrentRules` that finds the days.
  unfoldable pub noncurrent_transition_days :
      Option ℕ → Option (List NoncurrentTransition) → Option Days
  unfolding decrement_day lowest combine_days as_days
  noncurrent_transition_days days none = as_days days
  noncurrent_transition_days days (some []) = as_days days
  noncurrent_transition_days days (some (t ∷ ts)) = elim t.noncurrent_days [
    | some _ ↦ combine_days days (
        decrement_day this.options.transition_one_day_earlier (
          foldl lowest t.noncurrent_days
            (map (λ (u : NoncurrentTransition). u.noncurrent_days) ts)))
    | none ↦ as_days days
  ]

  unfoldable pub noncurrent_expiration_days : Option (Option ℕ) → Option ℕ
  unfolding decrement_day
  noncurrent_expiration_days none = none
  noncurrent_expiration_days (some days) =
      if truthy days then decrement_day this.options.expire_one_day_earlier days else none

  unfoldable pub noncurrent_days : Rule → Option Days
  unfolding noncurrent_transition_days noncurrent_expiration_days
  noncurrent_days r =
      noncurrent_transition_days (noncurrent_expiration_days r.noncurrent_expiration)
        r.noncurrent_transitions

  -- The part of `_reduceOrphanDeleteMarkerRule` that finds the days.
  unfoldable pub orphan_expiration_days : Option Expiration → Option ℕ
  unfolding decrement_day
  orphan_expiration_days none = none
  orphan_expiration_days (some e) =
      if truthy e.days
      then decrement_day this.options.expire_one_day_earlier e.days
      else elim e.date [
        | some date ↦ passed this.current_date (some date)
        | none ↦ if e.expired_object_delete_marker then some 0 else none
      ]

  unfoldable pub orphan_days : Rule → Option Days
  unfolding orphan_expiration_days as_days
  orphan_days r = as_days (orphan_expiration_days r.expiration)

-- The class of a rule's only transition, which a rule with an expiration does not exclude.
unfoldable pub current_class : Rule → Option String
current_class r = elim r.expiration [
  | some _ ↦ none
  | none ↦ elim r.transitions [ some (t ∷ []) ↦ t.storage_class | _ ↦ none ]
]

unfoldable pub noncurrent_class : Rule → Option String
noncurrent_class r = elim r.noncurrent_transitions [ some (t ∷ []) ↦ t.storage_class | _ ↦ none ]
