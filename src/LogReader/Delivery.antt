-- ===== src/LogReader/Delivery.antt =====
-- What the topics of a batch have, and those of Kafka after it was sent.
pub mod Filters
pub mod Batches
pub mod Runs
use backbeat.Base.{
  ℕ, zero, suc, ◌+◌, ◌≤◌, ◌<◌, ◌≡◌, ◌∙◌, ◌⊎◌, refl, sym, ap, subst, inl, inr, Bool, true, false,
  not, ◌&&◌, String, Option, none, some, List, [], ◌∷◌, ◌++◌, arith, if◌then◌else◌, ◌==◌, string_eq,
  nat_eq, nat_beq_iff, IsIn, AnyOf, Bool-cases, Option-cases, beq_self,
}
use mathlib.Core.Option.{some-injective, none-ne-some}
use backbeat.Base.Assoc.{get, put, get-put}
use backbeat.LogReader.{
  Message, Entry, LogRecord, EntryToFilter, Extension, Topics, entries_of, publish, publish_all,
  to_filter, apply_extensions, process_log_entry, filter_entries, process_filter_entries,
  process_publish_entries, records_from,
}

-- All that is in the one is in the other.
abbrev pub Within : Topics → Topics → Type 0
Within a b = (t : String) (x : String × String) → IsIn x (entries_of a t) → IsIn x (entries_of b t)

IsIn-append : {A : Type 0} → (x : A) (xs ys : List A) → IsIn x xs → IsIn x (xs ++ ys)
IsIn-append x [] ys i = absurd i
IsIn-append x (y ∷ xs) ys (inl e) = inl e
IsIn-append x (y ∷ xs) ys (inr i) = inr (IsIn-append x xs ys i)

IsIn-append_right : {A : Type 0} → (x : A) (xs ys : List A) → IsIn x ys → IsIn x (xs ++ ys)
IsIn-append_right x [] ys i = i
IsIn-append_right x (y ∷ xs) ys i = inr (IsIn-append_right x xs ys i)

entries_of-put :
    (m : Topics) (topic t : String) (l : List (String × String))
    → entries_of (put m topic l) t ≡ (if topic == t then l else entries_of m t)
unfolding entries_of
entries_of-put m topic t l = ground (arith, get-put m topic t l)

-- A topic that gets more.
pub put-Within :
    (m : Topics) (topic : String) (l : List (String × String))
    → Within m (put m topic (entries_of m topic ++ l))
put-Within m topic l t x i = elim (Bool-cases (topic == t)) [
  | inl e ↦
      rw (entries_of-put m topic t (entries_of m topic ++ l), e)
        (subst (λ s. IsIn x (entries_of m s ++ l)) (sym ((string_eq.beq_iff topic t).0 e))
          (IsIn-append x (entries_of m t) l i))
  | inr e ↦ rw (entries_of-put m topic t (entries_of m topic ++ l), e) i
]

put-Has :
    (m : Topics) (topic : String) (l : List (String × String)) (x : String × String)
    → IsIn x l
    → IsIn x (entries_of (put m topic (entries_of m topic ++ l)) topic)
put-Has m topic l x i =
    rw (entries_of-put m topic topic (entries_of m topic ++ l), beq_self topic)
      (IsIn-append_right x (entries_of m topic) l i)

module _ (encode_uri_component : String → String) where
  abbrev pub Has : Topics → Message → Type 0
  Has topics m = IsIn (encode_uri_component m.key, m.message) (entries_of topics m.topic)

  pub publish_all-Within :
      (batch : Topics) (ms : List Message)
      → Within batch (publish_all encode_uri_component batch ms)
  unfolding publish_all publish
  publish_all-Within batch [] t x i = i
  publish_all-Within batch (m ∷ ms) t x i =
      publish_all-Within (publish encode_uri_component batch m) ms t x
        (put-Within batch m.topic ((encode_uri_component m.key, m.message) ∷ []) t x i)

  pub publish_all-Has :
      (batch : Topics) (ms : List Message) (m : Message)
      → IsIn m ms
      → Has (publish_all encode_uri_component batch ms) m
  unfolding publish_all publish
  publish_all-Has batch [] m i = absurd i
  publish_all-Has batch (n ∷ ms) m (inr i) =
      publish_all-Has (publish encode_uri_component batch n) ms m i
  publish_all-Has batch (n ∷ ms) m (inl e) =
      publish_all-Within (publish encode_uri_component batch n) ms m.topic
        (encode_uri_component m.key, m.message)
        (subst (λ o. Has (publish encode_uri_component batch o) m) e
          (put-Has batch m.topic ((encode_uri_component m.key, m.message) ∷ [])
            (encode_uri_component m.key, m.message) (inl refl)))

-- The topics of Kafka only get more.
pub process_publish_entries-Within :
    (sent : String → Bool) (batch kafka : Topics)
    → Within kafka (process_publish_entries sent batch kafka).0
unfolding process_publish_entries
process_publish_entries-Within sent [] kafka t x i = i
process_publish_entries-Within sent ((topic, []) ∷ rest) kafka t x i =
    process_publish_entries-Within sent rest kafka t x i
process_publish_entries-Within sent ((topic, y ∷ ys) ∷ rest) kafka t x i =
    elim (Bool-cases (sent topic)) [
      | inl e ↦ rw e (
          process_publish_entries-Within sent rest
            (put kafka topic (entries_of kafka topic ++ y ∷ ys)) t x
            (put-Within kafka topic (y ∷ ys) t x i))
      | inr e ↦ rw e (process_publish_entries-Within sent rest kafka t x i)
    ]

entries_of-cons :
    (topic t : String) (l : List (String × String)) (rest : Topics)
    → entries_of ((topic, l) ∷ rest) t ≡ (if topic == t then l else entries_of rest t)
unfolding entries_of get
entries_of-cons topic t l rest = ground arith

entries_of-nil : (t : String) → entries_of [] t ≡ []
unfolding entries_of get
entries_of-nil t = refl

-- If all is sent, all of the batch is in the topics.
pub publish_complete :
    (sent : String → Bool) (batch kafka : Topics)
    → (process_publish_entries sent batch kafka).1 ≡ true
    → Within batch (process_publish_entries sent batch kafka).0
unfolding process_publish_entries
publish_complete sent [] kafka h t x i = absurd (rw (entries_of-nil t) at i)
publish_complete sent ((topic, []) ∷ rest) kafka h t x i = elim (Bool-cases (topic == t)) [
  | inl e ↦ absurd (rw (entries_of-cons topic t [] rest, e) at i)
  | inr e ↦ publish_complete sent rest kafka h t x (rw (entries_of-cons topic t [] rest, e) at i)
]
publish_complete sent ((topic, y ∷ ys) ∷ rest) kafka h t x i = elim (Bool-cases (sent topic)) [
  | inr e ↦ absurd (ground (arith, rw e at h))
  | inl e ↦ elim (Bool-cases (topic == t)) [
    | inl f ↦ rw e (
        process_publish_entries-Within sent rest
          (put kafka topic (entries_of kafka topic ++ y ∷ ys)) t x
          (subst (λ s. IsIn x (entries_of (put kafka topic (entries_of kafka topic ++ y ∷ ys)) s))
            ((string_eq.beq_iff topic t).0 f)
            (put-Has kafka topic (y ∷ ys) x (rw (entries_of-cons topic t (y ∷ ys) rest, f) at i))))
    | inr f ↦ rw e (
        publish_complete sent rest (put kafka topic (entries_of kafka topic ++ y ∷ ys)) (rw e at h)
          t x (rw (entries_of-cons topic t (y ∷ ys) rest, f) at i))
  ]
]
