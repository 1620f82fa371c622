-- ===== src/Oplog/Rounds.antt =====
-- What a round of updates makes of a connector.
use backbeat.Base.{
  ℕ, zero, suc, ◌≤◌, ◌<◌, ◌≡◌, ap, true, false, ◌&&◌, String, none, some, List, [], ◌∷◌, map, arith,
  ltb, get_elem?, if◌then◌else◌, nat_eq,
}
use backbeat.Oplog.Connector.{
  Connector, bucket_count, start_spawn, finish_spawn, finish_destroy, start_update_pipeline,
  finish_update_pipeline, decide_connector,
}
use backbeat.Oplog.Manager.{spawn_or_destroy_connector, update_connectors}

spawn_or_destroy-settles :
    (c : Connector) (uuid : String) (before now : ℕ)
    → 0 < before
    → c.last_updated ≤ before
    → c.is_updating ≡ false
    → let c' = (spawn_or_destroy_connector c true uuid before now).0 in
      (c'.is_running ≡ ltb 0 (bucket_count c))
      × (c'.buckets ≡ c.buckets)
      × (c'.buckets_got_modified
          ≡ (if c.is_running && ltb 0 (bucket_count c) then false else c.buckets_got_modified))
unfolding spawn_or_destroy_connector decide_connector start_spawn finish_spawn finish_destroy
    start_update_pipeline finish_update_pipeline
spawn_or_destroy-settles c uuid before now pos fresh idle = ground arith

get_elem?-map :
    (f : Connector → Connector) (cs : List Connector) (i : ℕ) (c : Connector)
    → get_elem? cs i ≡ some c
    → get_elem? (map f cs) i ≡ some (f c)
get_elem?-map f [] i c h = absurd (ground arith)
get_elem?-map f (x ∷ cs) zero c h = ap (λ o. elim o [ none ↦ none | some y ↦ some (f y) ]) h
get_elem?-map f (x ∷ cs) (suc i) c h = get_elem?-map f cs i c h

-- After a round of updates in which Kafka Connect does all that it is asked, a connector that no other
-- update was under way for, and that did not change since the round began, runs exactly if it has
-- buckets, and keeps them. If it ran before and has buckets, it takes
-- them for unmodified, or else it does so exactly if it did before.
pub update_connectors-settles :
    (uuids : Connector → String) (before now : ℕ) (cs : List Connector) (i : ℕ) (c : Connector)
    → get_elem? cs i ≡ some c
    → 0 < before
    → c.last_updated ≤ before
    → c.is_updating ≡ false
    → (c' : Connector) × (get_elem? (update_connectors (λ x. true) uuids before now cs) i ≡ some c')
      × (c'.is_running ≡ ltb 0 (bucket_count c))
      × (c'.buckets ≡ c.buckets)
      × (c'.buckets_got_modified
          ≡ (if c.is_running && ltb 0 (bucket_count c) then false else c.buckets_got_modified))
unfolding update_connectors
update_connectors-settles uuids before now cs i c at pos fresh idle =
    let (runs, keeps, updated) = spawn_or_destroy-settles c (uuids c) before now pos fresh idle in
    (
      (spawn_or_destroy_connector c true (uuids c) before now).0,
      get_elem?-map (λ x. (spawn_or_destroy_connector x true (uuids x) before now).0) cs i c at,
      runs,
      keeps,
      updated,
    )
