-- ===== src/Rules/Reducer.antt =====
-- Class `RulesReducer` of extensions/lifecycle/util/RulesReducer.js.
use backbeat.Base.{
  ℕ, Bool, ◌||◌, String, Option, none, some, List, [], ◌∷◌, foldl, if◌then◌else◌, ◌==◌, nat_eq,
  string_eq, opt_beq,
}
use text.Mathlib.Text.{starts_with}
use backbeat.Rules.Rule.{Rule, Days, less_days, get_rule_prefix}
use backbeat.Rules.Days.{
  Options, Reducer, current_class, current_days, noncurrent_class, noncurrent_days, orphan_days,
}

-- A listing to make; `storage_class` is the class whose objects it leaves out.
pub record Listing : Type 0 where
  pub prefix : String
  pub days : Days
  pub storage_class : Option String

-- `_sortByPrefix`. The comparison of texts by `localeCompare` is a parameter: `precedes a b` is
-- `a.localeCompare(b) <= 0`. The sort of arrays is stable.
module _ (precedes : String → String → Bool) where
  unfoldable pub insert_rule : Rule → List Rule → List Rule
  insert_rule r [] = r ∷ []
  insert_rule r (s ∷ rules) =
      let rest = insert_rule r rules in
      if precedes (get_rule_prefix r) (get_rule_prefix s) then r ∷ s ∷ rules else s ∷ rest

  unfoldable pub sort_by_prefix : List Rule → List Rule
  unfolding insert_rule
  sort_by_prefix [] = []
  sort_by_prefix (r ∷ rules) = insert_rule r (sort_by_prefix rules)

  -- The constructor.
  unfoldable pub new_reducer : String → ℕ → List Rule → Options → Reducer
  unfolding sort_by_prefix
  new_reducer versioning_status current_date rules options = record {
    is_versioning = versioning_status == "Enabled" || versioning_status == "Suspended";
    current_date = current_date;
    rules = sort_by_prefix rules;
    options = options;
  }

-- `if (storageClass) listing.storageClass = storageClass`
abbrev pub given_class : Option String → Option String
given_class none = none
given_class (some c) = if c == "" then none else some c

-- The update of the previous listing, which the rule shares.
unfoldable pub share_listing : Listing → Days → Option String → Listing
share_listing previous days storage_class = record {
  prefix = previous.prefix;
  days = if less_days days previous.days then days else previous.days;
  storage_class =
      if opt_beq previous.storage_class storage_class then previous.storage_class else none;
}

-- `_aggregateByPrefix` for days that are defined: only the last listing may be shared.
unfoldable pub aggregate : List Listing → String → Days → Option String → List Listing
unfolding share_listing
aggregate [] prefix days storage_class =
    record { prefix = prefix; days = days; storage_class = given_class storage_class } ∷ []
aggregate (previous ∷ []) prefix days storage_class =
    if starts_with prefix previous.prefix
    then share_listing previous days storage_class ∷ []
    else previous
      ∷ record { prefix = prefix; days = days; storage_class = given_class storage_class }
      ∷ []
aggregate (x ∷ y ∷ listings) prefix days storage_class =
    x ∷ aggregate (y ∷ listings) prefix days storage_class

unfoldable pub aggregate_by_prefix :
    List Listing → String → Option Days → Option String → List Listing
unfolding aggregate
aggregate_by_prefix listings prefix none storage_class = listings
aggregate_by_prefix listings prefix (some days) storage_class =
    aggregate listings prefix days storage_class

-- The three `_reduce…` functions: a rule that is not enabled is passed over.
unfoldable pub reduce_rule :
    (Rule → Option Days) → (Rule → Option String) → List Listing → Rule → List Listing
unfolding aggregate_by_prefix
reduce_rule days class listings r =
    if r.status == "Enabled"
    then aggregate_by_prefix listings (get_rule_prefix r) (days r) (class r)
    else listings

abbrev pub no_class : Rule → Option String
no_class r = none

pub record Listings : Type 0 where
  pub currents : List Listing
  pub non_currents : List Listing
  pub orphans : List Listing

abbrev pub no_listings : Listings
no_listings = record { currents = []; non_currents = []; orphans = [] }

module _ (this : Reducer) where
  -- One round of the loop over the rules of a bucket with versions.
  unfoldable pub reduce_versioned : Listings → Rule → Listings
  unfolding reduce_rule current_days current_class noncurrent_days noncurrent_class orphan_days
  reduce_versioned acc r = record {
    currents = reduce_rule (current_days this) current_class acc.currents r;
    non_currents = reduce_rule (noncurrent_days this) noncurrent_class acc.non_currents r;
    orphans = reduce_rule (orphan_days this) no_class acc.orphans r;
  }

  -- Without versions only `currents` is set; what is missing is read as empty.
  unfoldable pub reduce_non_versioned : Listings → Rule → Listings
  unfolding reduce_rule current_days current_class
  reduce_non_versioned acc r = record no_listings {
    currents = reduce_rule (current_days this) current_class acc.currents r;
  }

  unfoldable pub to_listings : Listings
  unfolding reduce_versioned reduce_non_versioned
  to_listings =
      if this.is_versioning
      then foldl reduce_versioned no_listings this.rules
      else foldl reduce_non_versioned no_listings this.rules
