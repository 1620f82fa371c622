-- ===== src/Oplog/Follows.antt =====
-- extensions/oplogPopulator/OplogPopulator.js: which buckets are listened to.
use backbeat.Base.{
  ℕ, ◌≡◌, subst, inl, inr, Bool, not, ◌&&◌, ◌||◌, String, Option, some, List, arith, if◌then◌else◌,
  Option-cases, ◌==◌, nat_eq, string_eq,
}
use mathlib.Core.Option.{some-injective}
use backbeat.Base.Assoc.{get, get-put, get-remove}
use backbeat.Oplog.Allocator.{
  get_connector, System, has, listen_to_bucket, stop_listening_to_bucket,
}
use backbeat.Oplog.Populator.{Change, is_write, is_enabled, handle_change}

pub has-listen_to_bucket :
    (s t : System) (b y : String) (date : Option String) (now : ℕ)
    → listen_to_bucket s b date now ≡ some t
    → has t y ≡ (y == b || has s y)
unfolding listen_to_bucket has
has-listen_to_bucket s t b y date now e = elim (Option-cases (get s.assigned b)) [
  | inr (i, known) ↦
      subst (λ (x : System). has x y ≡ (y == b || has s y))
        (some-injective _ _ (rw (known, listen_to_bucket) at e))
        (ground (arith, known, string_eq.beq_iff y b))
  | inl absent ↦ elim (Option-cases (get_connector s.connectors)) [
    | inl empty ↦ absurd (ground (arith, rw (absent, empty, listen_to_bucket) at e))
    | inr (i, chosen) ↦
        subst (λ (x : System). has x y ≡ (y == b || has s y))
          (some-injective _ _ (rw (absent, chosen, listen_to_bucket) at e))
          (ground (arith, get-put s.assigned b y i, string_eq.beq_iff y b, string_eq.beq_iff b y))
  ]
]

pub has-stop_listening_to_bucket :
    (s : System) (b y : String) (now : ℕ)
    → has (stop_listening_to_bucket s b now) y ≡ (not (y == b) && has s y)
unfolding stop_listening_to_bucket has
has-stop_listening_to_bucket s b y now =
    ground (arith, get-remove s.assigned b y, string_eq.beq_iff y b, string_eq.beq_iff b y)

module _ {M : Type 0} (tests : List (M → Bool)) (s t : System) (change : Change M) (now : ℕ) where
  open change use {operation_type, bucket, full_document}

  -- After a change event that is handled without an error, the bucket is listened to if the event is a write and an extension is active
  -- on the bucket, and no longer if it is deleted or none is. Other buckets, and other kinds of
  -- event, change nothing.
  pub has-handle_change :
      (y : String)
      → handle_change tests s change now ≡ some t
      → has t y ≡ (
          if (y == bucket) && (operation_type == "delete" || is_write operation_type)
          then not (operation_type == "delete") && is_enabled tests full_document
          else has s y)
  unfolding handle_change
  has-handle_change y e = ground (
    arith,
    has-listen_to_bucket s t bucket y (some change.event_date) now,
    has-stop_listening_to_bucket s bucket y now,
    string_eq.beq_iff y bucket,
  )
