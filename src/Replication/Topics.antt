-- ===== src/Replication/Topics.antt =====
-- The topics of replays of extensions/replication/replicationStatusProcessor/ReplicationStatusProcessor.js:
-- `_reshapeReplayTopics` and `_makeTopicNames`.
use backbeat.Base.{
  ℕ, zero, suc, ◌≡◌, ◌∙◌, ap, refl, sym, inl, inr, Bool, true, false, not, ◌&&◌, ◌||◌, String,
  Option, none, some, List, [], ◌∷◌, ◌++◌, arith, if◌then◌else◌, ◌==◌, string_eq, Bool-cases, All,
  All-map, beq_self, contains, length, length-append, get_elem?,
}

pub record ReplayTopic : Type 0 where
  pub topic_name : String
  pub retries : ℕ

-- `Array.prototype.reverse`
unfoldable pub reversed : {A : Type 0} → List A → List A
reversed [] = []
reversed (x ∷ xs) = reversed xs ++ x ∷ []

-- The inner loop, which pushes to the array.
unfoldable pub push_times : ℕ → String → List String → List String
push_times zero topic prev = prev
push_times (suc n) topic prev = push_times n topic (prev ++ topic ∷ [])

unfoldable pub reshape_into : List ReplayTopic → List String → List String
unfolding push_times
reshape_into [] prev = prev
reshape_into (curr ∷ rest) prev = reshape_into rest (push_times curr.retries curr.topic_name prev)

unfoldable pub reshape_replay_topics : Option (List ReplayTopic) → Option (List String)
unfolding reshape_into reversed
reshape_replay_topics none = none
reshape_replay_topics (some []) = none
reshape_replay_topics (some (t ∷ ts)) = some (reshape_into (reversed (t ∷ ts)) [])

-- The names that are not among those seen.
first_ones : List String → List ReplayTopic → List String
first_ones seen [] = []
first_ones seen (t ∷ ts) =
    let rest = first_ones (t.topic_name ∷ seen) ts in
    if contains seen t.topic_name then rest else t.topic_name ∷ rest

unfoldable pub make_topic_names : Option (List ReplayTopic) → List String
unfolding first_ones
make_topic_names none = []
make_topic_names (some ts) = first_ones [] ts

-- The topics one after the other as they are configured, each as often as there are retries.
unfoldable pub times : ℕ → String → List String → List String
times zero topic rest = rest
times (suc n) topic rest = topic ∷ times n topic rest

unfoldable pub in_order : List ReplayTopic → List String
unfolding times
in_order [] = []
in_order (t ∷ ts) = times t.retries t.topic_name (in_order ts)

push_times-append :
    (n : ℕ) (topic : String) (prev : List String)
    → push_times n topic prev ++ topic ∷ [] ≡ push_times n topic (prev ++ topic ∷ [])
unfolding push_times
push_times-append zero topic prev = refl
push_times-append (suc n) topic prev = push_times-append n topic (prev ++ topic ∷ [])

reversed-times :
    (n : ℕ) (topic : String) (rest : List String)
    → reversed (times n topic rest) ≡ push_times n topic (reversed rest)
unfolding reversed times push_times
reversed-times zero topic rest = refl
reversed-times (suc n) topic rest =
    ap (λ l. l ++ topic ∷ []) (reversed-times n topic rest)
    ∙ push_times-append n topic (reversed rest)

reshape_into-append :
    (ts : List ReplayTopic) (t : ReplayTopic) (prev : List String)
    → reshape_into (ts ++ t ∷ []) prev ≡ push_times t.retries t.topic_name (reshape_into ts prev)
unfolding reshape_into
reshape_into-append [] t prev = refl
reshape_into-append (u ∷ ts) t prev =
    reshape_into-append ts t (push_times u.retries u.topic_name prev)

reshape_into-reversed :
    (ts : List ReplayTopic) → reshape_into (reversed ts) [] ≡ reversed (in_order ts)
unfolding reversed in_order reshape_into
reshape_into-reversed [] = refl
reshape_into-reversed (t ∷ ts) =
    reshape_into-append (reversed ts) t []
    ∙ ap (push_times t.retries t.topic_name) (reshape_into-reversed ts)
    ∙ sym (reversed-times t.retries t.topic_name (in_order ts))

pub reshape-in_order :
    (t : ReplayTopic) (ts : List ReplayTopic)
    → reshape_replay_topics (some (t ∷ ts)) ≡ some (reversed (in_order (t ∷ ts)))
unfolding reshape_replay_topics
reshape-in_order t ts = ap some (reshape_into-reversed (t ∷ ts))

abbrev has_name : List ReplayTopic → String → Bool
has_name [] name = false
has_name (t ∷ ts) name = name == t.topic_name || has_name ts name

contains-first_ones :
    (seen : List String) (ts : List ReplayTopic) (name : String)
    → contains (first_ones seen ts) name ≡ (has_name ts name && not (contains seen name))
unfolding first_ones contains
contains-first_ones seen [] name = refl
contains-first_ones seen (t ∷ ts) name = elim (Bool-cases (name == t.topic_name)) [
  | inl e ↦ ground (
    arith,
    e,
    ap (contains seen) ((string_eq.beq_iff name t.topic_name).0 e),
    contains-first_ones (t.topic_name ∷ seen) ts name,
  )
  | inr e ↦ ground (arith, e, contains-first_ones (t.topic_name ∷ seen) ts name)
]

All-times :
    (P : String → Type 0) (n : ℕ) (topic : String) (rest : List String)
    → P topic
    → All P rest
    → All P (times n topic rest)
unfolding times
All-times P zero topic rest p h = h
All-times P (suc n) topic rest p h = (p, All-times P n topic rest p h)

pub get_elem?-middle :
    (xs ys : List String) (x : String) → get_elem? (xs ++ x ∷ ys) (length xs) ≡ some x
get_elem?-middle [] ys x = refl
get_elem?-middle (y ∷ xs) ys x = get_elem?-middle xs ys x

pub length-reversed : (xs : List String) → length (reversed xs) ≡ length xs
unfolding reversed
length-reversed [] = refl
length-reversed (x ∷ xs) = omega (arith, length-append (reversed xs) (x ∷ []), length-reversed xs)

-- Each topic has a producer.
abbrev IsProduced : List ReplayTopic → String → Type 0
IsProduced ts name = has_name ts name ≡ true

in_order-IsProduced : (ts : List ReplayTopic) → All (IsProduced ts) (in_order ts)
unfolding in_order
in_order-IsProduced [] = tt
in_order-IsProduced (t ∷ ts) =
    All-times (IsProduced (t ∷ ts)) t.retries t.topic_name (in_order ts)
      (rw (beq_self t.topic_name) refl)
      (All-map (IsProduced ts) (IsProduced (t ∷ ts)) (in_order ts) (λ name h. ground (arith, h))
        (in_order-IsProduced ts))

pub in_order-contains :
    (ts : List ReplayTopic)
    → All (λ name. contains (make_topic_names (some ts)) name ≡ true) (in_order ts)
unfolding make_topic_names contains
in_order-contains ts =
    All-map (IsProduced ts) (λ name. contains (make_topic_names (some ts)) name ≡ true)
      (in_order ts) (λ name h. contains-first_ones [] ts name ∙ rw h refl) (in_order-IsProduced ts)
