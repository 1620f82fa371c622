-- ===== src/Oplog/Allocator.antt =====
-- extensions/oplogPopulator/allocationStrategy/LeastFullConnector.js and modules/Allocator.js. The
-- connectors are objects that the manager's list and the allocator's map share: a reference to one
-- is its index in the list, which only grows.
use backbeat.Base.{
  ℕ, zero, suc, Bool, true, false, String, Option, none, some, List, [], ◌∷◌, ltb, if◌then◌else◌,
  string_eq,
}
use backbeat.Base.Assoc.{Assoc, get, put, remove}
use backbeat.Oplog.Connector.{Connector, bucket_count, set_resume_point, add_bucket, remove_bucket}

-- The rest of the `reduce`: the index and the count of the best connector so far, and the index of
-- the next one.
unfoldable pub least_from : ℕ → ℕ → ℕ → List Connector → ℕ
least_from best n i [] = best
least_from best n i (c ∷ cs) =
    let less = ltb (bucket_count c) n in
    least_from (if less then i else best) (if less then bucket_count c else n) (suc i) cs

-- `getConnector`; `none` is the TypeError of `reduce` on an empty array.
unfoldable pub get_connector : List Connector → Option ℕ
unfolding least_from
get_connector [] = none
get_connector (c ∷ cs) = some (least_from 0 (bucket_count c) 1 cs)

unfoldable pub update_at : List Connector → ℕ → (Connector → Connector) → List Connector
update_at [] i f = []
update_at (c ∷ cs) zero f = f c ∷ cs
update_at (c ∷ cs) (suc i) f = c ∷ update_at cs i f

-- The manager's `_connectors` and the allocator's `_bucketsToConnectors`.
pub record System : Type 0 where
  pub connectors : List Connector
  pub assigned : Assoc String ℕ

-- `_initConnectorToBucketMap`
unfoldable pub assign_all : Assoc String ℕ → ℕ → List String → Assoc String ℕ
assign_all m i [] = m
assign_all m i (b ∷ bs) = assign_all (put m b i) i bs

unfoldable pub assign_from : Assoc String ℕ → ℕ → List Connector → Assoc String ℕ
unfolding assign_all
assign_from m i [] = m
assign_from m i (c ∷ cs) = assign_from (assign_all m i c.buckets) (suc i) cs

unfoldable pub init_allocator : List Connector → System
unfolding assign_from
init_allocator connectors = record {
  connectors = connectors;
  assigned = assign_from [] 0 connectors;
}

unfoldable pub has : System → String → Bool
has s bucket = elim (get s.assigned bucket) [ none ↦ false | some _ ↦ true ]

unfoldable pub resume_at : Option String → Connector → Connector
resume_at none c = c
resume_at (some date) c = set_resume_point c date

-- `listenToBucket`, at the time `now`; `none` is the InternalError.
unfoldable pub listen_to_bucket : System → String → Option String → ℕ → Option System
unfolding get_connector update_at resume_at
listen_to_bucket s bucket event_date now = elim (get s.assigned bucket) [
  | some _ ↦ some s
  | none ↦ elim (get_connector s.connectors) [
    | none ↦ none
    | some i ↦ some (record {
      connectors = update_at s.connectors i (λ c. add_bucket (resume_at event_date c) bucket now);
      assigned = put s.assigned bucket i;
    })
  ]
]

-- `stopListeningToBucket`
unfoldable pub stop_listening_to_bucket : System → String → ℕ → System
unfolding update_at
stop_listening_to_bucket s bucket now = elim (get s.assigned bucket) [
  | none ↦ s
  | some i ↦ record {
    connectors = update_at s.connectors i (λ c. remove_bucket c bucket now);
    assigned = remove s.assigned bucket;
  }
]
