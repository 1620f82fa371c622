-- ===== src/Rules/Lowest.antt =====
-- extensions/lifecycle/util/RulesReducer.js: the days of a rule beside those of its actions.
use backbeat.Base.{
  ℕ, ◌-◌, ◌≡◌, ◌∙◌, refl, ap, Bool, Option, none, some, List, [], ◌∷◌, map, foldl, arith, min,
  if◌then◌else◌, ltb,
}
use backbeat.Rules.Rule.{Rule, Transition, num, lowest, combine_days, as_days}
use backbeat.Rules.Days.{Reducer, decrement_day, expiration_days, transition_days, current_days}

-- One day earlier, where the option says so; 0 stays 0.
abbrev pub earlier_day : Bool → ℕ → ℕ
earlier_day earlier n = if earlier then n - 1 else n

abbrev pub least : ℕ → List ℕ → ℕ
least a [] = a
least a (b ∷ bs) = least (min a b) bs

pub decrement_day-some :
    (earlier : Bool) (n : ℕ) → decrement_day earlier (some n) ≡ some (earlier_day earlier n)
unfolding decrement_day
decrement_day-some earlier n = ground arith

pub lowest-min : (a b : ℕ) → lowest (some a) (some b) ≡ some (min a b)
unfolding lowest
lowest-min a b = ground arith

foldl-lowest : (a : ℕ) (bs : List ℕ) → foldl lowest (some a) (map some bs) ≡ some (least a bs)
foldl-lowest a [] = refl
foldl-lowest a (b ∷ bs) =
    ap (λ x. foldl lowest x (map some bs)) (lowest-min a b) ∙ foldl-lowest (min a b) bs

earlier_day-min :
    (e : Bool) (a b : ℕ) → earlier_day e (min a b) ≡ min (earlier_day e a) (earlier_day e b)
earlier_day-min e a b = ground arith

earlier_day-least :
    (e : Bool) (a : ℕ) (bs : List ℕ)
    → earlier_day e (least a bs) ≡ least (earlier_day e a) (map (earlier_day e) bs)
earlier_day-least e a [] = refl
earlier_day-least e a (b ∷ bs) =
    earlier_day-least e (min a b) bs
    ∙ ap (λ x. least x (map (earlier_day e) bs)) (earlier_day-min e a b)

-- `n`, or the days of the expiration if those are fewer.
abbrev pub min_with : Option ℕ → ℕ → ℕ
min_with none n = n
min_with (some e) n = min e n

combine_days-some : (b : Option ℕ) (n : ℕ) → combine_days b (some n) ≡ some (num (min_with b n))
unfolding combine_days
combine_days-some none n = refl
combine_days-some (some e) n = refl

module _ (this : Reducer) (r : Rule) (t : Transition) (ts : List Transition) (d : ℕ)
    (ds : List ℕ) where
  abbrev moved : ℕ → ℕ
  moved = earlier_day this.options.transition_one_day_earlier

  -- If all transitions of a rule give days, the rule's days are the lowest of theirs and of the days
  -- of its expiration, each moved one day earlier where its option says so and it is not 0.
  pub current_days-least :
      r.transitions ≡ some (t ∷ ts)
      → t.days ≡ some d
      → map (λ (u : Transition). u.days) ts ≡ map some ds
      → current_days this r
        ≡ some (num (min_with (expiration_days this r.expiration) (least (moved d) (map moved ds))))
  unfolding current_days transition_days
  current_days-least given first others =
      rw
        (
          given, first, others, first, foldl-lowest, decrement_day-some, combine_days-some,
          earlier_day-least,
        )
        refl

-- A date that has passed makes the rule due at once, and one to come does nothing.
pub current_days-date :
    (this : Reducer) (r : Rule) (t : Transition) (d : ℕ)
    → r.transitions ≡ some (t ∷ [])
    → t.days ≡ none
    → t.date ≡ some d
    → current_days this r ≡ (
        if ltb this.current_date d
        then as_days (expiration_days this r.expiration)
        else some (num 0))
unfolding current_days transition_days
current_days-date this r t d given first date = rw (given, first, date) (ground arith)
