-- ===== src/Replication/Replays/Order.antt =====
-- The order of the topics through which a failing replication is replayed.
use mathlib.Core.List.{append-nil, append_assoc}
use backbeat.Base.{
  ℕ, suc, ◌≤◌, ◌<◌, ◌≡◌, ◌⊎◌, ◌∙◌, ap, subst, inl, inr, refl, sym, true, false, String, none, some,
  List, [], ◌∷◌, ◌++◌, arith, if◌then◌else◌, string_eq, All, contains, length, length-append,
  get_elem?, ltb,
}
use backbeat.Replication.{
  failed, ObjectMd, Entry, Replay, replayed, Config, is_completed, to_retry_entry, send_to,
  push_replay_entry, replays, fails_finally, handle_failed_replication_entry, finish,
}
use backbeat.Replication.Update.{status_entry}
use backbeat.Replication.Metadata.{IsObjectMd}
use backbeat.Replication.Topics.{
  ReplayTopic, reversed, reshape_replay_topics, make_topic_names, in_order, reshape-in_order,
  in_order-contains, get_elem?-middle, length-reversed,
}
use backbeat.Replication.Replays.{
  follow, replays_of, IsFailed, finish-IsFailed, next_failed, updated_failed,
}

module _ {M : Type 0} (md : ObjectMd M) (config : Config) (refreshed : M) where
  module _ (laws : IsObjectMd md) (topics : List String)
      (configured : config.replay_topics ≡ some topics) where
    abbrev replay_of : Entry M → ℕ → Replay M
    replay_of e count = record { md = to_retry_entry md e.md e.site; replay_count = count }

    pushed :
        (e : Entry M) (t : String) (left post : List String)
        → topics ≡ reversed (t ∷ left) ++ post
        → contains config.producers t ≡ true
        → push_replay_entry md config topics e (suc (length left))
          ≡ replayed t (replay_of e (length left)) ∷ []
    unfolding push_replay_entry send_to reversed
    pushed e t left post split has =
        ap (send_to md config.producers (replay_of e (length left))) (
          ap (λ l. get_elem? l (length left)) (split ∙ append_assoc (reversed left) (t ∷ []) post)
          ∙ ap (get_elem? (reversed left ++ t ∷ post)) (sym (length-reversed left))
          ∙ get_elem?-middle (reversed left) post t)
        ∙ rw has refl

    handle_of :
        (e : Entry M)
        → handle_failed_replication_entry md config refreshed e
          ≡ replays md config refreshed e topics e.replay_count
    unfolding handle_failed_replication_entry
    handle_of e =
        ap
          (λ o. elim o [
            | none ↦ fails_finally md config refreshed e
            | some ts ↦ replays md config refreshed e ts e.replay_count
          ])
          configured

    enough :
        (t : String) (left post : List String)
        → topics ≡ reversed (t ∷ left) ++ post
        → suc (length left) ≤ length topics
    enough t left post split = omega (
      arith,
      ap length split,
      length-append (reversed (t ∷ left)) post,
      length-reversed (t ∷ left),
    )

    -- At a count that is not above the number of topics, or none for all.
    handled :
        (e : Entry M) (t : String) (left post : List String)
        → topics ≡ reversed (t ∷ left) ++ post
        → contains config.producers t ≡ true
        → (e.replay_count ≡ some (suc (length left)))
          ⊎ ((e.replay_count ≡ none) × (length topics ≡ suc (length left)))
        → handle_failed_replication_entry md config refreshed e
          ≡ (none, replayed t (replay_of e (length left)) ∷ [])
    unfolding replays
    handled e t left post split has (inr (is, all)) =
        handle_of e
        ∙ ap (replays md config refreshed e topics) is
        ∙ ap (λ n. (none, push_replay_entry md config topics e n)) all
        ∙ ap (λ es. (none, es)) (pushed e t left post split has)
    handled e t left post split has (inl is) =
        let fits : (if ltb (length topics) (suc (length left))
              then length topics
              else suc (length left))
            ≡ suc (length left) =
          ground (arith, enough t left post split) in
        handle_of e
        ∙ ap (replays md config refreshed e topics) is
        ∙ ap (λ n. (none, push_replay_entry md config topics e n)) fits
        ∙ ap (λ es. (none, es)) (pushed e t left post split has)

    -- A message with which a replay is sent, and the messages after it.
    follows :
        (fuel : ℕ) (e : Entry M) (t : String) (left post : List String) (m : M)
        → md.site_status e.md e.site ≡ some failed
        → is_completed (md.site_status refreshed e.site) ≡ false
        → topics ≡ reversed (t ∷ left) ++ post
        → contains config.producers t ≡ true
        → (e.replay_count ≡ some (suc (length left)))
          ⊎ ((e.replay_count ≡ none) × (length topics ≡ suc (length left)))
        → replays_of md config refreshed fuel
            (status_entry md e.site false (replay_of e (length left)))
          ≡ some (left, m)
        → replays_of md config refreshed (suc fuel) e ≡ some (t ∷ left, m)
    unfolding replays_of finish follow
    follows fuel e t left post m h k split has count rest =
        ap
          (λ u.
            follow md config refreshed e.site u (λ next. replays_of md config refreshed fuel next))
          (updated_failed md config refreshed laws e h k
            ∙ ap (finish md e) (handled e t left post split has count))
        ∙ rw (rest, follow) refl

    ends :
        (fuel : ℕ) (e : Entry M)
        → md.site_status e.md e.site ≡ some failed
        → is_completed (md.site_status refreshed e.site) ≡ false
        → e.replay_count ≡ some 0
        → (m : M) × (replays_of md config refreshed (suc fuel) e ≡ some ([], m))
          × IsFailed md config refreshed e.site m
    unfolding replays_of finish replays fails_finally
    ends fuel e h k is = (
      _,
      ap
          (λ u.
            follow md config refreshed e.site u (λ next. replays_of md config refreshed fuel next))
          (updated_failed md config refreshed laws e h k
            ∙ ap (finish md e) (handle_of e ∙ ap (replays md config refreshed e topics) is)),
      finish-IsFailed md config refreshed laws e,
    )

    replays_from :
        (left post : List String) (e : Entry M)
        → md.site_status e.md e.site ≡ some failed
        → is_completed (md.site_status refreshed e.site) ≡ false
        → topics ≡ reversed left ++ post
        → All (λ t. contains config.producers t ≡ true) left
        → e.replay_count ≡ some (length left)
        → (m : M) × (replays_of md config refreshed (suc (length left)) e ≡ some (left, m))
          × IsFailed md config refreshed e.site m
    unfolding status_entry reversed
    replays_from [] post e h k split has count = ends 0 e h k count
    replays_from (t ∷ left) post e h k split has count =
        let next = status_entry md e.site false (replay_of e (length left)) in
        let (m, rest, end) =
          replays_from left (t ∷ post) next
            (next_failed md config refreshed laws e.md e.site (length left) h) k
            (split ∙ append_assoc (reversed left) (t ∷ []) post) has.1 refl in
        (m, follows (suc (length left)) e t left post m h k split has.0 (inl count) rest, end)

  -- The first message, at the number of topics.
  first :
      (laws : IsObjectMd md) (order : List String)
      → config.replay_topics ≡ some (reversed order)
      → (e : Entry M) → 0 < length order
      → md.site_status e.md e.site ≡ some failed
      → is_completed (md.site_status refreshed e.site) ≡ false
      → e.replay_count ≡ none
      → All (λ t. contains config.producers t ≡ true) order
      → (m : M) × (replays_of md config refreshed (suc (length order)) e ≡ some (order, m))
        × IsFailed md config refreshed e.site m
  unfolding status_entry reversed
  first laws [] configured e some_retry h k count has = absurd (omega arith)
  first laws (t ∷ left) configured e some_retry h k count has =
      let topics = reversed (t ∷ left) in
      let next = status_entry md e.site false (replay_of laws topics configured e (length left)) in
      let (m, rest, end) =
        replays_from laws topics configured left (t ∷ []) next
          (next_failed md config refreshed laws e.md e.site (length left) h) k refl has.1 refl in
      (
        m,
        follows laws topics configured (suc (length left)) e t left [] m h k
            (sym (append-nil topics)) has.0 (inr (count, length-reversed (t ∷ left))) rest,
        end,
      )

  -- Replays end. Let the topics and producers be those of a configuration with some retries, and let a
  -- message tell for the first time that the replication to a site has failed, which the stored metadata do
  -- not tell as completed. If it goes on to fail at each replay, it is replayed through the configured
  -- topics, in their order and through each as often as it has retries, and then the metadata tell that it
  -- has failed, as a whole and at the site.
  pub replays_end :
      (laws : IsObjectMd md) (t : ReplayTopic) (ts : List ReplayTopic) (e : Entry M)
      → config.replay_topics ≡ reshape_replay_topics (some (t ∷ ts))
      → config.producers ≡ make_topic_names (some (t ∷ ts))
      → 0 < length (in_order (t ∷ ts))
      → md.site_status e.md e.site ≡ some failed
      → is_completed (md.site_status refreshed e.site) ≡ false
      → e.replay_count ≡ none
      → (m : M) × (replays_of md config refreshed (suc (length (in_order (t ∷ ts)))) e
          ≡ some (in_order (t ∷ ts), m))
        × IsFailed md config refreshed e.site m
  replays_end laws t ts e configured producers some_retry h k count =
      first laws (in_order (t ∷ ts)) (configured ∙ reshape-in_order t ts) e some_retry h k count (
        subst (λ ps. All (λ name. contains ps name ≡ true) (in_order (t ∷ ts))) (sym producers)
          (in_order-contains (t ∷ ts)))
