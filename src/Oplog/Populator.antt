-- ===== src/Oplog/Populator.antt =====
-- extensions/oplogPopulator/OplogPopulator.js: the buckets that are listened to follow the metastore,
-- at the start and with each change event.
use backbeat.Base.{
  ℕ, zero, suc, Bool, false, not, ◌&&◌, ◌||◌, String, Option, none, some, List, [], ◌∷◌, ◌++◌,
  if◌then◌else◌, ◌==◌, nat_eq, string_eq, contains, filter_by,
}
use backbeat.Oplog.Connector.{Connector}
use backbeat.Oplog.Allocator.{System, has, listen_to_bucket, stop_listening_to_bucket}

-- A document of the change stream; a deletion has no `full_document`. `M` is the bucket metadata.
pub record Change (M : Type 0) : Type 0 where
  pub operation_type : String
  pub bucket : String
  pub full_document : Option M
  pub event_date : String

abbrev pub is_write : String → Bool
is_write op = op == "replace" || (op == "update" || op == "insert")

module _ {M : Type 0} where
  -- `_isBucketBackbeatEnabled`, over the tests of the active extensions.
  unfoldable pub is_bucket_backbeat_enabled : List (M → Bool) → M → Bool
  is_bucket_backbeat_enabled [] m = false
  is_bucket_backbeat_enabled (test ∷ tests) m = test m || is_bucket_backbeat_enabled tests m

  -- `null` counts as false.
  unfoldable pub is_enabled : List (M → Bool) → Option M → Bool
  is_enabled tests none = false
  is_enabled tests (some m) = is_bucket_backbeat_enabled tests m

  -- `_handleChangeStreamChangeEvent`; `none` is the error of the allocator.
  unfoldable pub handle_change : List (M → Bool) → System → Change M → ℕ → Option System
  handle_change tests s change now =
      if change.operation_type == "delete"
      then some (if has s change.bucket then stop_listening_to_bucket s change.bucket now else s)
      else if is_write change.operation_type
      then (if has s change.bucket && not (is_enabled tests change.full_document)
          then some (stop_listening_to_bucket s change.bucket now)
          else if not (has s change.bucket) && is_enabled tests change.full_document
          then listen_to_bucket s change.bucket (some change.event_date) now
          else some s)
      else some s

-- The part of `setup` about buckets: listen to the valid ones, then stop with those of the first
-- `old` connectors, which are there from before, that are not valid.
unfoldable pub listen_all : System → List String → ℕ → Option System
listen_all s [] now = some s
listen_all s (b ∷ bs) now = elim (listen_to_bucket s b none now) [
  | none ↦ none
  | some t ↦ listen_all t bs now
]

unfoldable pub stop_all : System → List String → ℕ → System
stop_all s [] now = s
stop_all s (b ∷ bs) now = stop_all (stop_listening_to_bucket s b now) bs now

unfoldable pub buckets_of : ℕ → List Connector → List String
buckets_of zero cs = []
buckets_of (suc n) [] = []
buckets_of (suc n) (c ∷ cs) = c.buckets ++ buckets_of n cs

unfoldable pub setup_buckets : System → ℕ → List String → ℕ → Option System
unfolding listen_all stop_all buckets_of
setup_buckets s old valid now = elim (listen_all s valid now) [
  | none ↦ none
  | some t ↦
      some (stop_all t (filter_by (λ b. not (contains valid b)) (buckets_of old t.connectors)) now)
]
