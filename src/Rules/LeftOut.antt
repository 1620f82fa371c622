-- ===== src/Rules/LeftOut.antt =====
-- `_reduceNonCurrentRules` of extensions/lifecycle/util/RulesReducer.js: the class that the listing of a rule
-- with an expiration and one transition leaves out.
use backbeat.Base.{
  ℕ, ◌≡◌, ◌≢◌, ◌<◌, ◌∙◌, refl, ap, inl, inr, Bool, true, String, Option, none, some, [], ◌∷◌, arith,
  ◌==◌, string_eq, Bool-cases, ◌||◌,
}
use backbeat.Rules.Rule.{
  Rule, NoncurrentTransition, Days, num, get_rule_prefix, combine_days, as_days,
}
use backbeat.Rules.Reducer.{
  Listing, given_class, new_reducer, sort_by_prefix, reduce_rule, aggregate, aggregate_by_prefix,
  to_listings,
}
use backbeat.Rules.Days.{
  Reducer, Options, noncurrent_days, noncurrent_class, noncurrent_expiration_days,
  noncurrent_transition_days, decrement_day,
}
use backbeat.Rules.Lowest.{earlier_day}
use backbeat.Rules.Folds.{non_currents-to_listings}
use backbeat.Rules.Coverage.{this}

combined : (e : ℕ) (o : Option ℕ) → (d : Days) × (combine_days (some e) o ≡ some d)
unfolding combine_days
combined e none = (_, refl)
combined e (some n) = (_, refl)

module _ (reducer : Reducer) where
  days_of :
      (e : ℕ) (o : Option ℕ) (class : Option String)
      → (d : Days) × (noncurrent_transition_days reducer
            (some e)
            (some (record { noncurrent_days = o; storage_class = class } ∷ []))
          ≡ some d)
  unfolding noncurrent_transition_days as_days
  days_of e none class = (num e, refl)
  days_of e (some n) class =
      combined e (decrement_day reducer.options.transition_one_day_earlier (some n))

  with_days :
      (e : ℕ) (t : NoncurrentTransition)
      → (d : Days) × (noncurrent_transition_days reducer (some e) (some (t ∷ [])) ≡ some d)
  with_days e t = days_of e t.noncurrent_days t.storage_class

  expires_after :
      (m : ℕ) → 0 < m → (e : ℕ) × (noncurrent_expiration_days reducer (some (some m)) ≡ some e)
  unfolding noncurrent_expiration_days decrement_day
  expires_after m positive =
      (earlier_day reducer.options.expire_one_day_earlier m, ground (arith, positive))

  has_days :
      (r : Rule) (t : NoncurrentTransition) (m : ℕ)
      → r.noncurrent_expiration ≡ some (some m)
      → 0 < m
      → r.noncurrent_transitions ≡ some (t ∷ [])
      → (d : Days) × (noncurrent_days reducer r ≡ some d)
  unfolding noncurrent_days
  has_days r t m expiry positive given =
      let (e, after) = expires_after m positive in
      let (d, same) = with_days e t in
      (
        d,
        rw (expiry, given)
            (ap (λ x. noncurrent_transition_days reducer x (some (t ∷ []))) after ∙ same),
      )

named_class : (c : String) → c ≢ "" → given_class (some c) ≡ some c
named_class c named = elim (Bool-cases (c == "")) [
  | inl e ↦ absurd (named ((string_eq.beq_iff c "").0 e))
  | inr e ↦ rw e refl
]

module _ (precedes : String → String → Bool) (versioning_status : String) (now : ℕ)
    (options : Options) (r : Rule) where
  -- A rule that is alone in a bucket with versions expires old versions, and has one transition, which
  -- moves old versions to a class. Its only listing of old versions leaves out that class, so that a
  -- version which was moved is in no listing for its expiration.
  pub moved_versions_left_out :
      (t : NoncurrentTransition) (m : ℕ) (c : String)
      → (versioning_status == "Enabled" || versioning_status == "Suspended") ≡ true
      → r.status ≡ "Enabled"
      → r.noncurrent_expiration ≡ some (some m)
      → 0 < m
      → r.noncurrent_transitions ≡ some (t ∷ [])
      → t.storage_class ≡ some c
      → c ≢ ""
      → (x : Listing) × ((to_listings
            (this precedes versioning_status now (r ∷ []) options)).non_currents
          ≡ x ∷ [])
        × (x.storage_class ≡ some c)
  unfolding new_reducer sort_by_prefix reduce_rule aggregate_by_prefix aggregate noncurrent_class
  moved_versions_left_out t m c versions on expiry positive given moves named =
      let reducer = this precedes versioning_status now (r ∷ []) options in
      let (d, days) = has_days reducer r t m expiry positive given in
      (
        record { prefix = get_rule_prefix r; days = d; storage_class = some c },
        non_currents-to_listings reducer versions
            ∙ rw
                (
                  (string_eq.beq_iff r.status "Enabled").1 on,
                  days,
                  given,
                  moves,
                  named_class c named,
                )
                refl,
        refl,
      )
