-- ===== src/Oplog/Connector.antt =====
-- Class `Connector` of extensions/oplogPopulator/modules/Connector.js, and what ConnectorsManager
-- decides about one connector. A method that awaits Kafka Connect is two functions here: the one
-- before the request and the one after its answer.
use backbeat.Base.{
  ℕ, Bool, true, false, not, ◌&&◌, ◌||◌, String, Option, none, some, List, [], ◌∷◌, ◌++◌, ltb, leb,
  length, if◌then◌else◌, ◌==◌, nat_eq, string_eq, contains, filter_by,
}

-- The entries of the configuration that the class reads or writes: the buckets that the pipeline
-- matches (none for the empty pipeline), the resume point and the partition name.
pub record Config : Type 0 where
  pub pipeline : Option (List String)
  pub resume_point : Option String
  pub partition_name : Option String

-- `buckets` is a `Set`: in the order of insertion, each once.
pub record Connector : Type 0 where
  pub name : String
  pub config : Config
  pub buckets : List String
  pub is_running : Bool
  pub buckets_got_modified : Bool
  pub last_updated : ℕ
  pub is_updating : Bool

-- The constructor, at the time `now`.
unfoldable pub new_connector : String → Config → List String → Bool → ℕ → Connector
new_connector name config buckets is_running now = record {
  name = name;
  config = config;
  buckets = buckets;
  is_running = is_running;
  buckets_got_modified = true;
  last_updated = now;
  is_updating = false;
}

abbrev pub bucket_count : Connector → ℕ
bucket_count c = length c.buckets

-- A date is given as its ISO text; the empty text counts as unset.
unfoldable pub set_resume_point : Connector → String → Connector
set_resume_point c date = elim c.config.resume_point [
  | none ↦ record c { config = record c.config { resume_point = some date } }
  | some d ↦
      if d == "" then record c { config = record c.config { resume_point = some date } } else c
]

unfoldable pub update_partition_name : Connector → String → Connector
update_partition_name c uuid = record c { config = record c.config { partition_name = some uuid } }

-- `_updateConnectorState`
unfoldable pub update_connector_state : Connector → Bool → ℕ → ℕ → Connector
update_connector_state c modified time_before_update now =
    let should_update =
      not modified && (not (time_before_update == 0) && leb c.last_updated time_before_update) in
    record c {
      buckets_got_modified = if modified || should_update then modified else c.buckets_got_modified;
      last_updated = now;
    }

-- What a call of `updatePipeline` does at once: it returns false, or it sends the configuration and
-- waits, from the time that it notes.
pub data Started : Type 0 where
  returned_false : Started
  sent : List String → ℕ → Started

unfoldable pub start_update_pipeline : Connector → Bool → ℕ → Connector × Started
start_update_pipeline c do_update now =
    if not c.buckets_got_modified || c.is_updating
    then (c, returned_false)
    else let c' = record c { config = record c.config { pipeline = some c.buckets } } in
      if do_update && c.is_running
      then (record c' { is_updating = true }, sent c.buckets now)
      else (c', returned_false)

-- The rest of the call, when the request has succeeded or failed at the time `now`.
unfoldable pub finish_update_pipeline : Connector → Bool → ℕ → ℕ → Connector
unfolding update_connector_state
finish_update_pipeline c succeeded time_before_update now =
    if succeeded
    then record (update_connector_state c false time_before_update now) { is_updating = false }
    else update_connector_state (record c { is_updating = false }) true 0 now

add_to_set : List String → String → List String
add_to_set xs x = if contains xs x then xs else xs ++ x ∷ []

-- `addBucket` and `removeBucket`, as they are called: without a request.
unfoldable pub add_bucket : Connector → String → ℕ → Connector
unfolding add_to_set update_connector_state start_update_pipeline
add_bucket c bucket now =
    (start_update_pipeline
      (update_connector_state (record c { buckets = add_to_set c.buckets bucket }) true 0 now) false
      now).0

unfoldable pub remove_bucket : Connector → String → ℕ → Connector
unfolding update_connector_state start_update_pipeline
remove_bucket c bucket now =
    (start_update_pipeline
      (update_connector_state (record c { buckets = filter_by (λ b. not (b == bucket)) c.buckets })
        true 0 now)
      false now).0

-- `spawn`, for a connector that is not running: the new partition name, then the request.
unfoldable pub start_spawn : Connector → String → Connector
unfolding update_partition_name
start_spawn c uuid = if c.is_running then c else update_partition_name c uuid

unfoldable pub finish_spawn : Connector → Bool → Connector
finish_spawn c succeeded = if succeeded then record c { is_running = true } else c

-- The end of `destroy`.
unfoldable pub finish_destroy : Connector → Bool → Connector
finish_destroy c succeeded =
    if succeeded
    then record c { is_running = false; config = record c.config { resume_point = none } }
    else c

-- `_spawnOrDestroyConnector`: what is done about a connector.
pub data Decision : Type 0 where
  destroy spawn update leave : Decision

unfoldable pub decide_connector : Connector → Decision
decide_connector c =
    if c.is_running && bucket_count c == 0
    then destroy
    else if not c.is_running && ltb 0 (bucket_count c)
    then spawn
    else if c.is_running
    then update
    else leave
