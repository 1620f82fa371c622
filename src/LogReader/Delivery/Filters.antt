-- ===== src/LogReader/Delivery/Filters.antt =====
-- What the entries of a batch of records are filtered into: all that the extensions make of them.
use backbeat.Base.{
  ℕ, zero, suc, ◌+◌, ◌≤◌, ◌<◌, ◌≡◌, ◌∙◌, sym, ap, subst, inl, inr, String, some, List, [], ◌∷◌,
  arith, ◌==◌, string_eq, nat_eq, nat_beq_iff, IsIn, Bool-cases, Option-cases,
}
use mathlib.Core.Option.{some-injective, none-ne-some}
use backbeat.LogReader.{
  Message, Entry, LogRecord, EntryToFilter, Extension, Topics, entries_of, publish_all, to_filter,
  apply_extensions, process_log_entry, filter_entries, process_filter_entries, records_from,
}
use backbeat.LogReader.Delivery.{Within, Has, publish_all-Within, publish_all-Has}

module _ (encode_uri_component transform_key : String → String) (extensions : List Extension) where
  -- The messages for an entry of a record are there, and those for the record.
  abbrev pub EntryDelivered : Topics → LogRecord → Entry → Type 0
  EntryDelivered topics r e =
      (value : String)
      → e.value ≡ some value
      → (ext : Extension) → IsIn ext extensions
      → (ms : List Message)
      → ext (to_filter encode_uri_component transform_key extensions r e value) ≡ some ms
      → (m : Message) → IsIn m ms
      → Has encode_uri_component topics m

  abbrev pub Delivered : Topics → LogRecord → Type 0
  Delivered topics r = (e : Entry) → IsIn e r.entries → EntryDelivered topics r e

  apply_extensions-Within :
      (exts : List Extension) (e : EntryToFilter) (batch after : Topics)
      → apply_extensions encode_uri_component transform_key extensions exts e batch ≡ some after
      → Within batch after
  unfolding apply_extensions
  apply_extensions-Within [] e batch after h t x i =
      subst (λ b. IsIn x (entries_of b t)) (some-injective _ _ h) i
  apply_extensions-Within (ext ∷ exts) e batch after h t x i = elim (Option-cases (ext e)) [
    | inl fails ↦ absurd (none-ne-some _ (rw (fails, apply_extensions) at h))
    | inr (ms, is) ↦
        apply_extensions-Within exts e (publish_all encode_uri_component batch ms) after
          (rw (is, apply_extensions) at h) t x
          (publish_all-Within encode_uri_component batch ms t x i)
  ]

  apply_extensions-Has :
      (exts : List Extension) (e : EntryToFilter) (batch after : Topics)
      → apply_extensions encode_uri_component transform_key extensions exts e batch ≡ some after
      → (ext : Extension) → IsIn ext exts
      → (ms : List Message) → ext e ≡ some ms
      → (m : Message) → IsIn m ms
      → Has encode_uri_component after m
  unfolding apply_extensions
  apply_extensions-Has [] e batch after h ext i ms is m j = absurd i
  apply_extensions-Has (x ∷ exts) e batch after h ext i ms is m j = elim (Option-cases (x e)) [
    | inl fails ↦ absurd (none-ne-some _ (rw (fails, apply_extensions) at h))
    | inr (ns, are) ↦
        let rest = rw (are, apply_extensions) at h in
        elim i [
          | inl same ↦
              let eq : ms ≡ ns =
                some-injective _ _ (sym is ∙ ap (λ (f : Extension). f e) same ∙ are) in
              apply_extensions-Within exts e (publish_all encode_uri_component batch ns) after rest
                m.topic (encode_uri_component m.key, m.message)
                (publish_all-Has encode_uri_component batch ns m (subst (IsIn m) eq j))
          | inr later ↦
              apply_extensions-Has exts e (publish_all encode_uri_component batch ns) after rest ext
                later ms is m j
        ]
  ]

  process_log_entry-Within :
      (r : LogRecord) (e : Entry) (batch after : Topics)
      → process_log_entry encode_uri_component transform_key extensions r e batch ≡ some after
      → Within batch after
  unfolding process_log_entry
  process_log_entry-Within r e batch after h t x i = elim (Option-cases e.value) [
    | inl nothing ↦
        subst (λ b. IsIn x (entries_of b t))
          (some-injective _ _ (rw (nothing, process_log_entry) at h)) i
    | inr (value, is) ↦
        apply_extensions-Within extensions
          (to_filter encode_uri_component transform_key extensions r e value) batch after
          (rw (is, process_log_entry) at h) t x i
  ]

  filter_entries-Within :
      (r : LogRecord) (es : List Entry) (batch after : Topics)
      → filter_entries encode_uri_component transform_key extensions r es batch ≡ some after
      → Within batch after
  unfolding filter_entries
  filter_entries-Within r [] batch after h t x i =
      subst (λ b. IsIn x (entries_of b t)) (some-injective _ _ h) i
  filter_entries-Within r (e ∷ es) batch after h t x i =
      elim (Option-cases
        (process_log_entry encode_uri_component transform_key extensions r e batch)) [
          | inl fails ↦ absurd (none-ne-some _ (rw (fails, filter_entries) at h))
          | inr (b, is) ↦
              filter_entries-Within r es b after (rw (is, filter_entries) at h) t x
                (process_log_entry-Within r e batch b is t x i)
        ]

  process_log_entry-EntryDelivered :
      (r : LogRecord) (e : Entry) (batch after : Topics)
      → process_log_entry encode_uri_component transform_key extensions r e batch ≡ some after
      → EntryDelivered after r e
  unfolding process_log_entry
  process_log_entry-EntryDelivered r e batch after h value has ext j ms is m k =
      apply_extensions-Has extensions
        (to_filter encode_uri_component transform_key extensions r e value) batch after
        (rw (has, process_log_entry) at h) ext j ms is m k

  filter_entries-EntryDelivered :
      (r : LogRecord) (es : List Entry) (batch after : Topics)
      → filter_entries encode_uri_component transform_key extensions r es batch ≡ some after
      → (e : Entry) → IsIn e es
      → EntryDelivered after r e
  unfolding filter_entries
  filter_entries-EntryDelivered r [] batch after h e i = absurd i
  filter_entries-EntryDelivered r (x ∷ es) batch after h e i =
      elim (Option-cases
        (process_log_entry encode_uri_component transform_key extensions r x batch)) [
          | inl fails ↦ absurd (none-ne-some _ (rw (fails, filter_entries) at h))
          | inr (b, next) ↦
              let rest = rw (next, filter_entries) at h in
              elim i [
                | inr later ↦ filter_entries-EntryDelivered r es b after rest e later
                | inl same ↦ λ value has ext j ms is m k.
                    filter_entries-Within r es b after rest m.topic
                      (encode_uri_component m.key, m.message)
                      (subst (EntryDelivered b r) (sym same)
                        (process_log_entry-EntryDelivered r x batch b next) value has ext j ms is m
                        k)
              ]
        ]

  process_filter_entries-Within :
      (rs : List LogRecord) (batch after : Topics)
      → process_filter_entries encode_uri_component transform_key extensions rs batch ≡ some after
      → Within batch after
  unfolding process_filter_entries
  process_filter_entries-Within [] batch after h t x i =
      subst (λ b. IsIn x (entries_of b t)) (some-injective _ _ h) i
  process_filter_entries-Within (r ∷ rs) batch after h t x i =
      elim (Option-cases
        (filter_entries encode_uri_component transform_key extensions r r.entries batch)) [
          | inl fails ↦ absurd (none-ne-some _ (rw (fails, process_filter_entries) at h))
          | inr (b, is) ↦
              process_filter_entries-Within rs b after (rw (is, process_filter_entries) at h) t x
                (filter_entries-Within r r.entries batch b is t x i)
        ]

  -- What is delivered stays so where topics get more.
  pub Delivered-mono : (a b : Topics) (r : LogRecord) → Within a b → Delivered a r → Delivered b r
  Delivered-mono a b r more h e i value has ext j ms is m k =
      more m.topic (encode_uri_component m.key, m.message) (h e i value has ext j ms is m k)

  pub process_filter_entries-Delivered :
      (rs : List LogRecord) (batch after : Topics)
      → process_filter_entries encode_uri_component transform_key extensions rs batch ≡ some after
      → (r : LogRecord) → IsIn r rs
      → Delivered after r
  unfolding process_filter_entries
  process_filter_entries-Delivered [] batch after h r i = absurd i
  process_filter_entries-Delivered (x ∷ rs) batch after h r i =
      elim (Option-cases
        (filter_entries encode_uri_component transform_key extensions x x.entries batch)) [
          | inl fails ↦ absurd (none-ne-some _ (rw (fails, process_filter_entries) at h))
          | inr (b, is) ↦
              let rest = rw (is, process_filter_entries) at h in
              elim i [
                | inr later ↦ process_filter_entries-Delivered rs b after rest r later
                | inl same ↦ subst (Delivered after) (sym same) (
                    Delivered-mono b after x (process_filter_entries-Within rs b after rest)
                      (filter_entries-EntryDelivered x x.entries batch b is))
              ]
        ]

pub records_from_has :
    (log : ℕ → LogRecord) (start n i : ℕ)
    → start ≤ i
    → i < start + n
    → IsIn (log i) (records_from log start n)
unfolding records_from
records_from_has log start zero i h k = absurd (omega arith)
records_from_has log start (suc n) i h k = elim (Bool-cases (start == i)) [
  | inl e ↦ inl (ap log (sym ((nat_beq_iff start i).0 e)))
  | inr e ↦ inr (records_from_has log (start + 1) n i (ground (arith, e)) (omega arith))
]
