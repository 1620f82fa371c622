-- ===== src/Oplog/Manager.antt =====
-- extensions/oplogPopulator/modules/ConnectorsManager.js: the connectors at the start, from those that
-- Kafka Connect has and new ones, and the round of updates. A request to Kafka Connect and its answer
-- are one step here.
use backbeat.Base.{
  ℕ, zero, suc, ◌-◌, Bool, true, false, not, String, Option, none, some, List, [], ◌∷◌, ◌++◌, map,
  length, if◌then◌else◌, ◌==◌, string_eq, filter_by,
}
use backbeat.Oplog.Connector.{
  Config, Connector, new_connector, start_spawn, finish_spawn, finish_destroy, returned_false, sent,
  start_update_pipeline, finish_update_pipeline, destroy, spawn, update, leave, decide_connector,
}

-- `new Set` of an array.
unfoldable pub to_set : List String → List String
to_set [] = []
to_set (x ∷ xs) = x ∷ filter_by (λ y. not (y == x)) (to_set xs)

-- `_extractBucketsFromConfig`
unfoldable pub extract_buckets_from_config : Config → List String
extract_buckets_from_config c = elim c.pipeline [ none ↦ [] | some buckets ↦ buckets ]

-- The entries of `_getDefaultConnectorConfiguration`: an empty pipeline.
abbrev pub default_config : Config
default_config = record { pipeline = none; resume_point = none; partition_name = none }

-- `_getOldConnectors` for one connector: the old entries, overwritten by the default ones.
unfoldable pub get_old_connector : ℕ → String × Config → Connector
unfolding to_set extract_buckets_from_config
get_old_connector now (name, old) =
    new_connector name (record old { pipeline = default_config.pipeline })
      (to_set (extract_buckets_from_config old)) true now

-- `addConnector`
unfoldable pub add_connector : ℕ → String → Connector
add_connector now name = new_connector name default_config [] false now

unfoldable pub add_connectors : ℕ → (ℕ → String) → ℕ → List Connector
unfolding add_connector
add_connectors now names zero = []
add_connectors now names (suc n) = add_connector now (names n) ∷ add_connectors now names n

-- `initializeConnectors`, with the names that are generated.
unfoldable pub initialize_connectors :
    ℕ → List (String × Config) → (ℕ → String) → ℕ → List Connector
unfolding get_old_connector add_connectors
initialize_connectors nb_connectors old names now =
    map (get_old_connector now) old ++ add_connectors now names (nb_connectors - length old)

-- `_spawnOrDestroyConnector`: the connector afterwards, and whether it changed; `none` is an error.
unfoldable pub spawn_or_destroy_connector :
    Connector → Bool → String → ℕ → ℕ → Connector × Option Bool
unfolding decide_connector
spawn_or_destroy_connector c succeeds uuid before now = elim (decide_connector c) [
  | destroy ↦ (finish_destroy c succeeds, if succeeds then some true else none)
  | spawn ↦ (finish_spawn (start_spawn c uuid) succeeds, if succeeds then some true else none)
  | update ↦
      (let (c', request) = start_update_pipeline c true before in
        elim request [
          | returned_false ↦ (c', some false)
          | sent _ time ↦
              (finish_update_pipeline c' succeeds time now, if succeeds then some true else none)
        ])
  | leave ↦ (c, some false)
]

-- `_updateConnectors`, with the outcome of each request.
unfoldable pub update_connectors :
    (Connector → Bool) → (Connector → String) → ℕ → ℕ → List Connector → List Connector
unfolding spawn_or_destroy_connector
update_connectors succeeds uuids before now connectors =
    map (λ c. (spawn_or_destroy_connector c (succeeds c) (uuids c) before now).0) connectors
