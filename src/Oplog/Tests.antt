-- ===== src/Oplog/Tests.antt =====
-- Two connectors, and the theorems at them.
use backbeat.Base.{
  ℕ, ◌<◌, ◌≡◌, refl, Bool, true, false, String, none, some, List, [], ◌∷◌, ◌++◌, arith, contains,
  string_eq, nat_eq, filter_by,
}
use backbeat.Base.Assoc.{get, put}
use backbeat.Oplog.Connector.{
  Config, Connector, add_bucket, start_update_pipeline, finish_update_pipeline,
}
use backbeat.Oplog.Updates.{
  World, Action, add, scheduled, answered, act, acts, IsSynced, acts-IsSynced,
  same_millisecond_loses,
}
use backbeat.Oplog.Allocator.{System, has, listen_to_bucket, stop_listening_to_bucket}
use backbeat.Oplog.Assignment
use backbeat.Oplog.Assignment.{
  IsAssigned, listen_to_bucket-IsAssigned, stop_listening_to_bucket-IsAssigned,
}
use backbeat.Oplog.Populator.{
  Change, is_enabled, is_bucket_backbeat_enabled, handle_change, setup_buckets,
}

abbrev config : Config
config = record { pipeline = none; resume_point = none; partition_name = none }

abbrev connector : List String → Connector
connector buckets = record {
  name = "c";
  config = config;
  buckets = buckets;
  is_running = true;
  buckets_got_modified = true;
  last_updated = 1;
  is_updating = false;
}

abbrev world : World
world = record { connector = connector ("a" ∷ []); remote = []; flight = none }

world-IsSynced : IsSynced 1 world
world-IsSynced = record { clock = omega arith; synced = λ e. cc; current = refl }

abbrev quiet : List (ℕ × Action)
quiet = (2, scheduled) ∷ (5, answered true) ∷ []

quiet_unmodified : (acts world quiet).connector.buckets_got_modified ≡ false
unfolding act start_update_pipeline finish_update_pipeline
quiet_unmodified = refl

-- A bucket that comes while the update is under way: the connector knows that it is behind.
busy_modified :
    (acts world
      ((2, scheduled) ∷ (3, add "b") ∷ (5, answered true) ∷ [])).connector.buckets_got_modified
    ≡ true
unfolding act start_update_pipeline finish_update_pipeline add_bucket contains
busy_modified = refl

acts-IsSynced_example : (acts world quiet).remote ≡ (acts world quiet).connector.buckets
acts-IsSynced_example = acts-IsSynced world 1 quiet world-IsSynced (omega arith) quiet_unmodified

same_millisecond_loses_example :
    (let w' = acts world ((2, scheduled) ∷ (2, add "b") ∷ (5, answered true) ∷ []) in
      (w'.connector.buckets_got_modified ≡ false)
      × (w'.connector.buckets ≡ world.connector.buckets ++ "b" ∷ [])
      × (w'.remote ≡ world.connector.buckets))
unfolding contains
same_millisecond_loses_example =
    same_millisecond_loses world 2 5 "b" refl refl refl refl (omega arith) refl

abbrev two : System
two = record { connectors = connector ("a" ∷ []) ∷ connector [] ∷ []; assigned = ("a", 0) ∷ [] }

two-IsAssigned : IsAssigned two
unfolding contains get
two-IsAssigned = record { agrees = λ b i. at b i }
  where
    at :
        (b : String) (i : ℕ) → Assignment.holds two i b ≡ Assignment.is_index (get two.assigned b) i
    at b ℕ.zero = ground (arith, string_eq.beq_iff "a" b, string_eq.beq_iff b "a")
    at b (ℕ.suc ℕ.zero) = ground arith
    at b (ℕ.suc (ℕ.suc i)) = ground arith

abbrev listened : System
listened = record {
  connectors = connector ("a" ∷ []) ∷ add_bucket (connector []) "b" 4 ∷ [];
  assigned = ("a", 0) ∷ ("b", 1) ∷ [];
}

listen_to_b : listen_to_bucket two "b" none 4 ≡ some listened
unfolding listen_to_bucket get put
listen_to_b = refl

abbrev tests : List (Bool → Bool)
tests = (λ b. b) ∷ []

abbrev disabled : Change Bool
disabled = record {
  operation_type = "update";
  bucket = "a";
  full_document = some false;
  event_date = "d";
}

abbrev without_a : System
without_a = stop_listening_to_bucket two "a" 9

handle_disabled : handle_change tests two disabled 9 ≡ some without_a
unfolding handle_change has get is_enabled is_bucket_backbeat_enabled
handle_disabled = refl

abbrev set_up : System
set_up = stop_listening_to_bucket listened "a" 4

setup_two : setup_buckets two 2 ("b" ∷ []) 4 ≡ some set_up
unfolding setup_buckets listen_to_bucket get put contains filter_by add_bucket
setup_two = refl

assigned_old : (b : String) (i : ℕ) → get two.assigned b ≡ some i → i < 2
unfolding get
assigned_old b i h = ground (arith, h)
