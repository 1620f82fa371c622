-- ===== src/Oplog/Updates.antt =====
-- The configuration that Kafka Connect has, while buckets come and go and updates are under way.
use backbeat.Base.{
  ℕ, ◌≤◌, ◌<◌, ◌≡◌, Bool, true, false, String, Option, none, some, List, [], ◌∷◌, ◌++◌, arith,
  if◌then◌else◌, nat_eq, string_eq, contains,
}
use backbeat.Oplog.Connector.{
  Config, Connector, new_connector, Started, returned_false, sent, start_update_pipeline,
  finish_update_pipeline, add_bucket, remove_bucket,
}

-- A connector that is running, the buckets that its last successful update gave to Kafka Connect, and
-- the update under way.
pub record World : Type 0 where
  pub connector : Connector
  pub remote : List String
  pub flight : Option (List String × ℕ)

pub data Action : Type 0 where
  add remove : String → Action
  scheduled : Action
  answered : Bool → Action

started : World → Connector → Started → World
started w c returned_false = record w { connector = c }
started w c (sent buckets time) = record w { connector = c; flight = some (buckets, time) }

answer : World → Bool → ℕ → Option (List String × ℕ) → World
answer w ok now none = w
answer w ok now (some (buckets, time)) = record {
  connector = finish_update_pipeline w.connector ok time now;
  remote = if ok then buckets else w.remote;
  flight = none;
}

-- One action at the time `now`.
unfoldable pub act : World → ℕ → Action → World
unfolding started answer
act w now (add b) = record w { connector = add_bucket w.connector b now }
act w now (remove b) = record w { connector = remove_bucket w.connector b now }
act w now scheduled = let (c, s) = start_update_pipeline w.connector true now in started w c s
act w now (answered ok) = answer w ok now w.flight

-- A run, and that the clock advances between any two actions.
abbrev pub acts : World → List (ℕ × Action) → World
acts w [] = w
acts w ((now, a) ∷ rest) = acts (act w now a) rest

abbrev pub IsAfter : ℕ → List (ℕ × Action) → Type 0
IsAfter time [] = Unit
IsAfter time ((now, a) ∷ rest) = (time < now) × IsAfter now rest

-- What holds of the update under way: the buckets that it sent are the connector's, unless those
-- have changed since.
abbrev IsCurrent : Connector → ℕ → Option (List String × ℕ) → Type 0
IsCurrent c time none = c.is_updating ≡ false
IsCurrent c time (some (buckets, started_at)) =
    (c.is_updating ≡ true)
    × (c.buckets_got_modified ≡ true)
    × (0 < started_at)
    × (started_at ≤ time)
    × (c.last_updated ≤ started_at → buckets ≡ c.buckets)

pub record IsSynced (time : ℕ) (w : World) : Type 0 where
  pub clock : w.connector.last_updated ≤ time
  pub synced : w.connector.buckets_got_modified ≡ false → w.remote ≡ w.connector.buckets
  pub current : IsCurrent w.connector time w.flight

module _ (c : Connector) (remote : List String) (time now : ℕ) (late : time < now) where
  abbrev world : Option (List String × ℕ) → World
  world f = record { connector = c; remote = remote; flight = f }

  act-add :
      (f : Option (List String × ℕ)) (b : String)
      → IsSynced time (world f)
      → IsSynced now (act (world f) now (add b))
  unfolding act add_bucket
  act-add none b h = ground arith
  act-add (some (p, t)) b h = ground arith

  act-remove :
      (f : Option (List String × ℕ)) (b : String)
      → IsSynced time (world f)
      → IsSynced now (act (world f) now (remove b))
  unfolding act remove_bucket
  act-remove none b h = ground arith
  act-remove (some (p, t)) b h = ground arith

  act-scheduled :
      (f : Option (List String × ℕ))
      → IsSynced time (world f)
      → IsSynced now (act (world f) now scheduled)
  unfolding act start_update_pipeline
  act-scheduled none h = ground arith
  act-scheduled (some (p, t)) h = ground arith

  act-answered :
      (f : Option (List String × ℕ)) (ok : Bool)
      → IsSynced time (world f)
      → IsSynced now (act (world f) now (answered ok))
  unfolding act finish_update_pipeline
  act-answered none ok h = ground arith
  act-answered (some (p, t)) ok h = ground arith

act-IsSynced :
    (w : World) (time now : ℕ) (a : Action)
    → time < now
    → IsSynced time w
    → IsSynced now (act w now a)
act-IsSynced w time now (add b) late h = act-add w.connector w.remote time now late w.flight b h
act-IsSynced w time now (remove b) late h =
    act-remove w.connector w.remote time now late w.flight b h
act-IsSynced w time now scheduled late h =
    act-scheduled w.connector w.remote time now late w.flight h
act-IsSynced w time now (answered ok) late h =
    act-answered w.connector w.remote time now late w.flight ok h

-- No change is lost. From a state in which the connector is in step with Kafka Connect or knows that
-- it is not, as a new one is, buckets may be added and removed and updates scheduled and answered,
-- also while one is under way, at times that advance. Whenever the connector then takes its buckets
-- for unmodified, Kafka Connect has exactly them.
pub acts-IsSynced :
    (w : World) (time : ℕ) (run : List (ℕ × Action))
    → IsSynced time w
    → IsAfter time run
    → (acts w run).connector.buckets_got_modified ≡ false
    → (acts w run).remote ≡ (acts w run).connector.buckets
acts-IsSynced w time [] h after = h.synced
acts-IsSynced w time ((now, a) ∷ rest) h after =
    acts-IsSynced (act w now a) now rest (act-IsSynced w time now a after.0 h) after.1

pub new_connector-IsSynced :
    (name : String) (config : Config) (buckets remote : List String) (running : Bool) (now : ℕ)
    → IsSynced now (record {
      connector = new_connector name config buckets running now;
      remote = remote;
      flight = none;
    })
unfolding new_connector
new_connector-IsSynced name config buckets remote running now = ground arith

module _ (w : World) (t t' : ℕ) where
  -- What is scheduled for a running connector that has changed, and answered well before another
  -- change, brings Kafka Connect up to date.
  pub update_completes :
      w.flight ≡ none
      → w.connector.is_running ≡ true
      → w.connector.is_updating ≡ false
      → w.connector.buckets_got_modified ≡ true
      → 0 < t
      → w.connector.last_updated ≤ t
      → let w' = acts w ((t, scheduled) ∷ (t', answered true) ∷ []) in
        (w'.connector.buckets_got_modified ≡ false)
        × (w'.remote ≡ w.connector.buckets)
        × (w'.connector.buckets ≡ w.connector.buckets)
        × (w'.connector.is_updating ≡ false)
  unfolding act start_update_pipeline finish_update_pipeline
  update_completes none_yet running idle modified pos fresh = ground arith

  -- The clock is read in milliseconds. Let a running connector that has changed send an update. A new
  -- bucket that is added after it was sent, but within the same millisecond, is lost: when the update ends well the connector takes its buckets for
  -- unmodified, and Kafka Connect has not got the bucket.
  pub same_millisecond_loses :
      (b : String)
      → w.flight ≡ none
      → w.connector.is_running ≡ true
      → w.connector.is_updating ≡ false
      → w.connector.buckets_got_modified ≡ true
      → 0 < t
      → contains w.connector.buckets b ≡ false
      → let w' = acts w ((t, scheduled) ∷ (t, add b) ∷ (t', answered true) ∷ []) in
        (w'.connector.buckets_got_modified ≡ false)
        × (w'.connector.buckets ≡ w.connector.buckets ++ b ∷ [])
        × (w'.remote ≡ w.connector.buckets)
  unfolding act start_update_pipeline finish_update_pipeline add_bucket
  same_millisecond_loses b none_yet running idle modified pos absent = ground arith
