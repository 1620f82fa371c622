-- ===== src/Rules/Rule.antt =====
-- Lifecycle rules as the S3 API returns them, and the numbers that are computed from them. Dates are
-- in milliseconds; `undefined` is `none`.
use backbeat.Base.{
  ℕ, Bool, false, String, Option, none, some, List, ltb, min, if◌then◌else◌, ◌==◌, string_eq,
}

-- `r.Expiration`
pub record Expiration : Type 0 where
  pub days : Option ℕ
  pub date : Option ℕ
  pub expired_object_delete_marker : Bool

-- An element of `r.Transitions`.
pub record Transition : Type 0 where
  pub days : Option ℕ
  pub date : Option ℕ
  pub storage_class : Option String

-- An element of `r.NoncurrentVersionTransitions`.
pub record NoncurrentTransition : Type 0 where
  pub noncurrent_days : Option ℕ
  pub storage_class : Option String

-- `r.Filter`; the prefix of its `And` where it has one.
pub record Filter : Type 0 where
  pub and_prefix : Option (Option String)
  pub prefix : Option String

-- `noncurrent_expiration` is `r.NoncurrentVersionExpiration`, as its `NoncurrentDays`.
pub record Rule : Type 0 where
  pub status : String
  pub prefix : Option String
  pub filter : Option Filter
  pub expiration : Option Expiration
  pub transitions : Option (List Transition)
  pub noncurrent_expiration : Option (Option ℕ)
  pub noncurrent_transitions : Option (List NoncurrentTransition)

-- A number of days that was computed: `Math.min` makes NaN of `undefined`.
pub data Days : Type 0 where
  num : ℕ → Days
  nan : Days

-- `a < b`, which is false as soon as one side is NaN.
abbrev pub less_days : Days → Days → Bool
less_days (num a) (num b) = ltb a b
less_days _ _ = false

-- `lowest`, on numbers and dates that may be `undefined`.
unfoldable pub lowest : Option ℕ → Option ℕ → Option ℕ
lowest (some a) (some b) = if ltb a b then some a else some b
lowest _ b = b

-- `a || b` on texts, of which the empty one is false.
abbrev pub or_text : Option String → String → String
or_text none b = b
or_text (some a) b = if a == "" then b else a

filter_prefix : Option Filter → Option String
filter_prefix none = none
filter_prefix (some f) = elim f.and_prefix [ some p ↦ p | none ↦ f.prefix ]

-- `_getRulePrefix`
unfoldable pub get_rule_prefix : Rule → String
unfolding filter_prefix
get_rule_prefix r = or_text r.prefix (or_text (filter_prefix r.filter) "")

-- `days === undefined ? d : Math.min(days, d)`
unfoldable pub combine_days : Option ℕ → Option ℕ → Option Days
combine_days none none = none
combine_days none (some b) = some (num b)
combine_days (some a) (some b) = some (num (min a b))
combine_days (some a) none = some nan

-- Days that were computed before any transition.
unfoldable pub as_days : Option ℕ → Option Days
as_days none = none
as_days (some a) = some (num a)
