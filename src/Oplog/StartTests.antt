-- ===== src/Oplog/StartTests.antt =====
-- A start with one connector of an earlier run and one new one, and a round of updates.
use backbeat.Base.{
  ℕ, zero, suc, ◌≡◌, refl, true, false, String, none, some, List, [], ◌∷◌, arith, get_elem?, length,
  contains, string_eq,
}
use backbeat.Oplog.Connector.{Config, Connector, new_connector}
use backbeat.Oplog.Allocator.{System, has, init_allocator}
use backbeat.Oplog.Populator.{setup_buckets}
use backbeat.Oplog.Manager.{initialize_connectors, update_connectors, add_connectors, add_connector}
use backbeat.Oplog.Rounds.{update_connectors-settles}
use backbeat.Oplog.Start.{IsDisjoint, has-start}

abbrev old : List (String × Config)
old =
    (
      "o",
      record { pipeline = some ("a" ∷ "b" ∷ []); resume_point = some "d"; partition_name = none },
    )
    ∷ []

abbrev names : ℕ → String
names n = "new"

started_length : length (initialize_connectors 2 old names 7) ≡ 2
unfolding initialize_connectors add_connectors
started_length = refl

disjoint : IsDisjoint (initialize_connectors 2 old names 7)
unfolding initialize_connectors add_connectors add_connector new_connector contains
disjoint zero zero b p q = refl
disjoint zero (suc zero) b p q = absurd (ground arith)
disjoint zero (suc (suc j)) b p q = absurd (ground arith)
disjoint (suc zero) j b p q = absurd (ground arith)
disjoint (suc (suc i)) j b p q = absurd (ground arith)

has-start_example :
    (t : System) × (setup_buckets
        (init_allocator (initialize_connectors 2 old names 7))
        1
        ("b" ∷ "c" ∷ [])
        7
      ≡ some t)
    × ((b : String) → has t b ≡ contains {A = String} ("b" ∷ "c" ∷ []) b)
has-start_example =
    has-start 7 names 2 old ("b" ∷ "c" ∷ []) (omega (arith, started_length)) disjoint

abbrev full : Connector
full = record {
  name = "c";
  config = record { pipeline = none; resume_point = none; partition_name = none };
  buckets = "a" ∷ [];
  is_running = true;
  buckets_got_modified = true;
  last_updated = 1;
  is_updating = false;
}

update_connectors-settles_example :
    (c' : Connector) × (get_elem? (update_connectors (λ x. true) (λ x. "u") 3 5 (full ∷ [])) 0
      ≡ some c')
    × (c'.is_running ≡ true)
    × (c'.buckets ≡ "a" ∷ [])
    × (c'.buckets_got_modified ≡ false)
update_connectors-settles_example =
    update_connectors-settles (λ x. "u") 3 5 (full ∷ []) 0 full refl (omega arith) (omega arith)
      refl
