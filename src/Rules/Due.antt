-- ===== src/Rules/Due.antt =====
-- What a rule of extensions/lifecycle/util/RulesReducer.js does to current objects, told without the
-- reducer: its prefix, when it acts, and the class that it moves objects to.
use mathlib.Core.Option.{none-ne-some, some-injective}
use backbeat.Base.{
  ℕ, ◌≡◌, ◌≢◌, ◌≤◌, ◌<◌, ◌⊎◌, ◌∙◌, refl, sym, ap, subst, inl, inr, true, String, Option, none, some,
  List, [], ◌∷◌, map, foldl, arith, min, All, All-IsIn, All-map, IsIn, if◌then◌else◌, leb, tests,
  ◌==◌, string_eq, Bool-cases, Option-cases,
}
use backbeat.Rules.Rule.{
  Rule, Filter, Expiration, Transition, Days, num, lowest, combine_days, as_days, or_text,
  get_rule_prefix,
}
use backbeat.Rules.Days.{
  Options, Reducer, expiration_days, transition_days, current_days, current_class,
}
use backbeat.Rules.Lowest.{earlier_day, decrement_day-some, lowest-min}

-- A rule that moves current objects to the class `c` and does nothing else to them.
abbrev pub OnlyMoves : Rule → String → Type 0
OnlyMoves r c =
    (r.expiration ≡ none)
    × (t : Transition) × (r.transitions ≡ some (t ∷ []))
    × (t.storage_class ≡ some c)

-- All transitions give days, or all give dates.
abbrev pub GivesDays : Transition → Type 0
GivesDays t = (n : ℕ) × (t.days ≡ some n)

abbrev pub GivesDate : Transition → Type 0
GivesDate t = (t.days ≡ none) × (n : ℕ) × (t.date ≡ some n)

abbrev pub AreAlike : Option (List Transition) → Type 0
AreAlike none = Unit
AreAlike (some ts) = All GivesDays ts ⊎ All GivesDate ts

abbrev pub IsOneOf : Transition → Option (List Transition) → Type 0
IsOneOf t o = (ts : List Transition) × (o ≡ some ts) × IsIn t ts

-- The prefix of a rule: its own or else that of its filter, where nothing and the empty text count as none.
abbrev pub HasNone : Option String → Type 0
HasNone o = (o ≡ none) ⊎ (o ≡ some "")

abbrev pub FilterHas : Option Filter → String → Type 0
FilterHas o p =
    (f : Filter) × (o ≡ some f)
    × ((f.and_prefix ≡ some (some p)) ⊎ ((f.and_prefix ≡ none) × (f.prefix ≡ some p)))

abbrev pub FilterHasNone : Option Filter → Type 0
FilterHasNone o =
    (o ≡ none)
    ⊎ ((f : Filter) × (o ≡ some f)
        × ((f.and_prefix ≡ some none) ⊎ ((f.and_prefix ≡ none) × (f.prefix ≡ none))))

pub data IsPrefix (r : Rule) : String → Type 0 where
  own : (p : String) → r.prefix ≡ some p → p ≢ "" → IsPrefix r p
  of_filter : (p : String) → HasNone r.prefix → FilterHas r.filter p → IsPrefix r p
  of_all : HasNone r.prefix → FilterHasNone r.filter → IsPrefix r ""

-- When a rule acts on an object: after a number of days, or at once if its date has passed.
pub data ActsAfter (options : Options) (now : ℕ) (r : Rule) : ℕ → Type 0 where
  expires :
      (e : Expiration) (n : ℕ)
      → r.expiration ≡ some e
      → e.days ≡ some n
      → 0 < n
      → ActsAfter options now r (earlier_day options.expire_one_day_earlier n)
  expires_at :
      (e : Expiration) (date : ℕ)
      → r.expiration ≡ some e
      → e.days ≡ none
      → e.date ≡ some date
      → date ≤ now
      → ActsAfter options now r 0
  moves :
      (t : Transition) (n : ℕ)
      → IsOneOf t r.transitions
      → t.days ≡ some n
      → ActsAfter options now r (earlier_day options.transition_one_day_earlier n)
  moves_at :
      (t : Transition) (date : ℕ)
      → IsOneOf t r.transitions
      → t.days ≡ none
      → t.date ≡ some date
      → date ≤ now
      → ActsAfter options now r 0

-- The days come to a number that is no higher than `d`.
abbrev pub AtMost : ℕ → Option Days → Type 0
AtMost d o = (e : ℕ) × (o ≡ some (num e)) × (e ≤ d)

or_text-none : (o : Option String) (b : String) → HasNone o → or_text o b ≡ b
or_text-none o b (inl e) = rw e refl
or_text-none o b (inr e) = rw e refl

or_text-some : (p b : String) → p ≢ "" → or_text (some p) b ≡ p
or_text-some p b named = elim (Bool-cases (p == "")) [
  | inl e ↦ absurd (named ((string_eq.beq_iff p "").0 e))
  | inr e ↦ rw e refl
]

or_text-empty : (p : String) → or_text (some p) "" ≡ p
or_text-empty p = elim (Bool-cases (p == "")) [
  | inl e ↦ rw e (sym ((string_eq.beq_iff p "").0 e))
  | inr e ↦ rw e refl
]

pub get_rule_prefix-IsPrefix : (r : Rule) (p : String) → IsPrefix r p → get_rule_prefix r ≡ p
unfolding get_rule_prefix
get_rule_prefix-IsPrefix r p (own q e named) = rw e (
    or_text-some q
      (or_text
        (elim r.filter [
          | none ↦ none
          | some f ↦ elim f.and_prefix [ some x ↦ x | none ↦ f.prefix ]
        ])
        "")
      named)
get_rule_prefix-IsPrefix r p (of_filter q no_own (f, e, inl a)) =
    or_text-none r.prefix _ no_own ∙ rw (e, a) (or_text-empty q)
get_rule_prefix-IsPrefix r p (of_filter q no_own (f, e, inr (n, a))) =
    or_text-none r.prefix _ no_own ∙ rw (e, n, a) (or_text-empty q)
get_rule_prefix-IsPrefix r p (of_all no_own (inl e)) = or_text-none r.prefix _ no_own ∙ rw e refl
get_rule_prefix-IsPrefix r p (of_all no_own (inr (f, e, inl a))) =
    or_text-none r.prefix _ no_own ∙ rw (e, a) refl
get_rule_prefix-IsPrefix r p (of_all no_own (inr (f, e, inr (n, a)))) =
    or_text-none r.prefix _ no_own ∙ rw (e, n, a) refl

pub current_class-OnlyMoves : (r : Rule) (c : String) → current_class r ≡ some c → OnlyMoves r c
unfolding current_class
current_class-OnlyMoves r c h = elim (Option-cases r.expiration) [
  | inr (e, x) ↦ absurd (none-ne-some _ (rw x at h))
  | inl x ↦ elim (Option-cases r.transitions) [
    | inl t ↦ absurd (none-ne-some _ (rw (x, t) at h))
    | inr (ts, t) ↦ only ts r c x t (rw (x, t) at h)
  ]
]
  where
    only :
        (ts : List Transition) (r : Rule) (c : String)
        → r.expiration ≡ none
        → r.transitions ≡ some ts
        → elim ts [ t ∷ [] ↦ t.storage_class | _ ↦ none ] ≡ some c
        → OnlyMoves r c
    only [] r c x e h = absurd (none-ne-some _ h)
    only (t ∷ []) r c x e h = (x, t, e, h)
    only (t ∷ u ∷ ts) r c x e h = absurd (none-ne-some _ h)

-- The lowest of numbers that are given is a number no higher than each.
module _ (f : Transition → Option ℕ) where
  abbrev Gives : Transition → Type 0
  Gives t = (n : ℕ) × (f t ≡ some n)

  abbrev IsAbove : ℕ → Transition → Type 0
  IsAbove m t = (n : ℕ) → f t ≡ some n → m ≤ n

  fold_bound :
      (o : Option ℕ) (a : ℕ) (ts : List Transition)
      → o ≡ some a
      → All Gives ts
      → (m : ℕ) × (foldl lowest o (map f ts) ≡ some m) × (m ≤ a) × All (IsAbove m) ts
  fold_bound o a [] h g = (a, h, omega arith, tt)
  fold_bound o a (t ∷ ts) h ((b, e), g) =
      let low = ap (λ x. lowest x (f t)) h ∙ ap (lowest (some a)) e ∙ lowest-min a b in
      let (m, same, below, all) = fold_bound (lowest o (f t)) (min a b) ts low g in
      (
        m,
        same,
        omega (arith, below),
        (λ n at. omega (arith, below, some-injective _ _ (sym e ∙ at)), all),
      )

  least_of :
      (t : Transition) (ts : List Transition)
      → All Gives (t ∷ ts)
      → (m : ℕ) × (foldl lowest (f t) (map f ts) ≡ some m) × All (IsAbove m) (t ∷ ts)
  least_of t ts ((a, e), g) =
      let (m, same, below, all) = fold_bound (f t) a ts e g in
      (m, same, (λ n at. omega (arith, below, some-injective _ _ (sym e ∙ at)), all))

leb-true : (m n : ℕ) → m ≤ n → leb m n ≡ true
leb-true m n h = elim (Bool-cases (leb m n)) [ inl e ↦ e | inr e ↦ absurd (omega (tests, e, h)) ]

module _ (this : Reducer) where
  abbrev moved : ℕ → ℕ
  moved = earlier_day this.options.transition_one_day_earlier

  take_days :
      (days : Option ℕ) (t : Transition) (ts : List Transition) (n m : ℕ)
      → t.days ≡ some n
      → foldl lowest t.days (map (λ (u : Transition). u.days) ts) ≡ some m
      → transition_days this days (some (t ∷ ts)) ≡ combine_days days (some (moved m))
  unfolding transition_days
  take_days days t ts n m at same = rw (at, same, decrement_day-some) refl

  take_date :
      (days : Option ℕ) (t : Transition) (ts : List Transition) (n m : ℕ)
      → t.days ≡ none
      → t.date ≡ some n
      → foldl lowest t.date (map (λ (u : Transition). u.date) ts) ≡ some m
      → transition_days this days (some (t ∷ ts))
        ≡ (if leb m this.current_date then some (num 0) else as_days days)
  unfolding transition_days
  take_date days t ts n m undated at same = elim (Bool-cases (leb m this.current_date)) [
    | inl e ↦ rw (undated, at, same, e) refl
    | inr e ↦ rw (undated, at, same, e) refl
  ]

  moved_mono : (m n : ℕ) → m ≤ n → moved m ≤ moved n
  moved_mono m n low = ground arith

  -- The days of a rule with the days of its expiration, from the form of its transitions.
  by_days :
      (days : Option ℕ) (t : Transition) (ts : List Transition)
      → All GivesDays (t ∷ ts)
      → (m : ℕ) × (transition_days this days (some (t ∷ ts)) ≡ combine_days days (some (moved m)))
        × All (IsAbove (λ u. u.days) m) (t ∷ ts)
  by_days days t ts g =
      let (m, same, all) = least_of (λ u. u.days) t ts g in
      (m, take_days days t ts g.0.0 m g.0.1 same, all)

  by_dates :
      (days : Option ℕ) (t : Transition) (ts : List Transition)
      → All GivesDate (t ∷ ts)
      → (m : ℕ) × (transition_days this days (some (t ∷ ts))
          ≡ (if leb m this.current_date then some (num 0) else as_days days))
        × All (IsAbove (λ u. u.date) m) (t ∷ ts)
  by_dates days t ts g =
      let (m, same, all) =
        least_of (λ u. u.date) t ts (All-map _ _ (t ∷ ts) (λ u (_, n, e). (n, e)) g) in
      (m, take_date days t ts g.0.1 m g.0.0 g.0.2 same, all)

  with_expiration :
      (e : ℕ) (o : Option (List Transition))
      → AreAlike o
      → AtMost e (transition_days this (some e) o)
  unfolding transition_days as_days combine_days
  with_expiration e none alike = (e, refl, omega arith)
  with_expiration e (some []) alike = (e, refl, omega arith)
  with_expiration e (some (t ∷ ts)) (inl days) =
      let (m, same, all) = by_days (some e) t ts days in (min e (moved m), same, omega arith)
  with_expiration e (some (t ∷ ts)) (inr dates) =
      let (m, same, all) = by_dates (some e) t ts dates in
      elim (Bool-cases (leb m this.current_date)) [
        | inl now ↦ (0, same ∙ rw now refl, omega arith)
        | inr later ↦ (e, same ∙ rw later refl, omega arith)
      ]

  moves_early :
      (days : Option ℕ) (o : Option (List Transition)) (t : Transition) (n : ℕ)
      → AreAlike o
      → IsOneOf t o
      → t.days ≡ some n
      → AtMost (moved n) (transition_days this days o)
  unfolding combine_days
  moves_early days none t n alike (ts, e, _) at = absurd (none-ne-some _ e)
  moves_early days (some []) t n alike (ts, e, i) at =
      absurd (subst (IsIn t) (sym (some-injective _ _ e)) i)
  moves_early days (some (u ∷ us)) t n (inr dates) (ts, e, i) at = absurd (
      none-ne-some _ (
        sym (All-IsIn GivesDate (u ∷ us) dates (subst (IsIn t) (sym (some-injective _ _ e)) i)).0
        ∙ at))
  moves_early none (some (u ∷ us)) t n (inl g) (ts, e, i) at =
      let (m, same, all) = by_days none u us g in
      let low =
        All-IsIn (IsAbove (λ v. v.days) m) (u ∷ us) all
          (subst (IsIn t) (sym (some-injective _ _ e)) i) n at in
      (moved m, same, moved_mono m n low)
  moves_early (some x) (some (u ∷ us)) t n (inl g) (ts, e, i) at =
      let (m, same, all) = by_days (some x) u us g in
      let low =
        All-IsIn (IsAbove (λ v. v.days) m) (u ∷ us) all
          (subst (IsIn t) (sym (some-injective _ _ e)) i) n at in
      (min x (moved m), same, omega (arith, moved_mono m n low))

  moves_now :
      (days : Option ℕ) (o : Option (List Transition)) (t : Transition) (date : ℕ)
      → AreAlike o
      → IsOneOf t o
      → t.days ≡ none
      → t.date ≡ some date
      → date ≤ this.current_date
      → AtMost 0 (transition_days this days o)
  moves_now days none t date alike (ts, e, _) undated at past = absurd (none-ne-some _ e)
  moves_now days (some []) t date alike (ts, e, i) undated at past =
      absurd (subst (IsIn t) (sym (some-injective _ _ e)) i)
  moves_now days (some (u ∷ us)) t date (inl g) (ts, e, i) undated at past = absurd (
      none-ne-some _ (
        sym undated
        ∙ (All-IsIn GivesDays (u ∷ us) g (subst (IsIn t) (sym (some-injective _ _ e)) i)).1))
  moves_now days (some (u ∷ us)) t date (inr g) (ts, e, i) undated at past =
      let (m, same, all) = by_dates days u us g in
      let low =
        All-IsIn (IsAbove (λ v. v.date) m) (u ∷ us) all
          (subst (IsIn t) (sym (some-injective _ _ e)) i) date at in
      let now : leb m this.current_date ≡ true =
        leb-true m this.current_date (omega (arith, low, past)) in
      (0, same ∙ rw now refl, omega arith)

  -- The days of a rule come to no more than those after which one of its actions is due.
  pub current_days-AtMost :
      (r : Rule) (d : ℕ)
      → AreAlike r.transitions
      → ActsAfter this.options this.current_date r d
      → AtMost d (current_days this r)
  unfolding current_days expiration_days
  current_days-AtMost r d alike (expires e n given at positive) =
      let due : expiration_days this r.expiration
          ≡ some (earlier_day this.options.expire_one_day_earlier n) =
        rw (given, at) (ground (arith, positive)) in
      subst (λ x. AtMost d (transition_days this x r.transitions)) (sym due)
        (with_expiration _ r.transitions alike)
  current_days-AtMost r d alike (expires_at e date given undated at past) =
      let due : expiration_days this r.expiration ≡ some 0 =
        rw (given, undated, at, leb-true date this.current_date past) refl in
      subst (λ x. AtMost 0 (transition_days this x r.transitions)) (sym due)
        (with_expiration 0 r.transitions alike)
  current_days-AtMost r d alike (moves t n one at) =
      moves_early (expiration_days this r.expiration) r.transitions t n alike one at
  current_days-AtMost r d alike (moves_at t date one undated at past) =
      moves_now (expiration_days this r.expiration) r.transitions t date alike one undated at past
