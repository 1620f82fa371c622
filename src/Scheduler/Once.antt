-- ===== src/Scheduler/Once.antt =====
-- lib/tasks/TaskScheduler.js: the tasks under way and the cache of dedupe keys.
use backbeat.Base.{
  ℕ, suc, ◌-◌, ◌≡◌, ltb, ◌∙◌, refl, inl, inr, Bool, true, false, not, ◌&&◌, String, Option, none,
  some, List, [], ◌∷◌, arith, if◌then◌else◌, ◌==◌, string_eq, contains, filter_by, Bool-cases,
}
use backbeat.Scheduler.{
  Scheduler, PushOutcome, skipped, queued, alone, get_task_queue, to_queue, push, on_task_end,
  on_drain,
}

-- The scheduler, and the dedupe keys of the tasks that were accepted and have not ended.
pub record World : Type 0 where
  pub scheduler : Scheduler
  pub under_way : List String

pub data Action : Type 0 where
  pushed : Option String → Option String → Action
  ended : String → Action
  drained : String → Action

accepted : List String → Option String → PushOutcome → List String
accepted ks none _ = ks
accepted ks (some k) skipped = ks
accepted ks (some k) (queued _ _) = k ∷ ks
accepted ks (some k) alone = k ∷ ks

-- One task of a key less.
remove_one : List String → String → List String
remove_one [] k = []
remove_one (x ∷ xs) k = let rest = remove_one xs k in if x == k then xs else x ∷ rest

-- A task ends only if it is under way.
unfoldable pub act : World → Action → World
unfolding accepted remove_one
act w (pushed dedupe_key queue_key) =
    let (s, outcome) = push w.scheduler dedupe_key queue_key in
    record { scheduler = s; under_way = accepted w.under_way dedupe_key outcome }
act w (ended k) =
    if contains w.under_way k
    then record {
      scheduler = on_task_end w.scheduler (some k);
      under_way = remove_one w.under_way k;
    }
    else w
act w (drained key) = record w { scheduler = on_drain w.scheduler key }

abbrev pub acts : World → List Action → World
acts w [] = w
acts w (a ∷ rest) = acts (act w a) rest

unfoldable pub times : String → List String → ℕ
times k [] = 0
times k (x ∷ xs) = let rest = times k xs in if x == k then suc rest else rest

-- The cache has exactly the keys of the tasks under way, each of one task.
pub record IsOnce (w : World) : Type 0 where
  pub once :
      (k : String) → times k w.under_way ≡ (if contains w.scheduler.dedupe_cache k then 1 else 0)

contains-filter :
    (xs : List String) (k y : String)
    → contains (filter_by (λ x. not (x == k)) xs) y ≡ (not (y == k) && contains xs y)
unfolding contains filter_by
contains-filter [] k y = ground arith
contains-filter (x ∷ xs) k y = ground (
  arith,
  contains-filter xs k y,
  string_eq.beq_iff x k,
  string_eq.beq_iff y k,
  string_eq.beq_iff y x,
)

times-remove_one :
    (xs : List String) (k y : String)
    → times y (remove_one xs k) ≡ (if y == k then times y xs - 1 else times y xs)
unfolding times remove_one
times-remove_one [] k y = ground arith
times-remove_one (x ∷ xs) k y = ground (
  arith,
  times-remove_one xs k y,
  string_eq.beq_iff x k,
  string_eq.beq_iff y k,
  string_eq.beq_iff x y,
)

cache-to_queue :
    (s : Scheduler) (queue_key : Option String)
    → (to_queue s queue_key).0.dedupe_cache ≡ s.dedupe_cache
unfolding to_queue get_task_queue
cache-to_queue s none = refl
cache-to_queue s (some k) = ground arith

accepted-to_queue :
    (s : Scheduler) (queue_key : Option String) (ks : List String) (k : String)
    → accepted ks (some k) (to_queue s queue_key).1 ≡ k ∷ ks
unfolding to_queue get_task_queue accepted
accepted-to_queue s none ks k = refl
accepted-to_queue s (some key) ks k = elim (Bool-cases (contains s.task_queues key)) [
  | inl e ↦ rw e refl
  | inr e ↦ rw e refl
]

act-IsOnce : (w : World) (a : Action) → IsOnce w → IsOnce (act w a)
unfolding act push on_task_end on_drain times contains
act-IsOnce w (pushed none q) h = record { once = λ y. rw (cache-to_queue w.scheduler q) (h.once y) }
act-IsOnce w (pushed (some k) q) h = elim (Bool-cases (contains w.scheduler.dedupe_cache k)) [
  | inl e ↦ rw (e, push) h
  | inr e ↦
      rw (e, push)
        (record {
          once = λ y.
              rw
                (
                  accepted-to_queue
                      (record w.scheduler { dedupe_cache = k ∷ w.scheduler.dedupe_cache }) q
                      w.under_way k,
                  cache-to_queue
                      (record w.scheduler { dedupe_cache = k ∷ w.scheduler.dedupe_cache }) q,
                )
                (ground (arith, e, h.once y, string_eq.beq_iff k y, string_eq.beq_iff y k));
        })
]
act-IsOnce w (ended k) h = elim (Bool-cases (contains w.under_way k)) [
  | inl e ↦
      rw (e, act)
        (record {
          once = λ y. ground (
            arith,
            h.once y,
            times-remove_one w.under_way k y,
            contains-filter w.scheduler.dedupe_cache k y,
            string_eq.beq_iff y k,
          );
        })
  | inr e ↦ rw (e, act) h
]
act-IsOnce w (drained key) h = record { once = h.once }

-- Whatever tasks are pushed, end and leave their queues empty: if the dedupe cache has exactly the keys
-- of the tasks under way, each of one task, as it has at the start, this is so afterwards.
pub acts-IsOnce : (w : World) (run : List Action) → IsOnce w → IsOnce (acts w run)
acts-IsOnce w [] h = h
acts-IsOnce w (a ∷ rest) h = acts-IsOnce (act w a) rest (act-IsOnce w a h)

abbrev pub is_skipped : PushOutcome → Bool
is_skipped skipped = true
is_skipped (queued _ _) = false
is_skipped alone = false

to_queue-accepts : (s : Scheduler) (q : Option String) → is_skipped (to_queue s q).1 ≡ false
unfolding to_queue get_task_queue
to_queue-accepts s none = refl
to_queue-accepts s (some k) = elim (Bool-cases (contains s.task_queues k)) [
  | inl e ↦ rw e refl
  | inr e ↦ rw e refl
]

-- Where the dedupe cache has exactly the keys of the tasks under way, a task is skipped exactly if one
-- with its dedupe key is under way, and one without a dedupe key never is.
pub is_skipped-push :
    (w : World) (dedupe_key queue_key : Option String)
    → IsOnce w
    → is_skipped (push w.scheduler dedupe_key queue_key).1
      ≡ elim dedupe_key [ none ↦ false | some k ↦ ltb 0 (times k w.under_way) ]
unfolding push
is_skipped-push w none q h = to_queue-accepts w.scheduler q
is_skipped-push w (some k) q h = elim (Bool-cases (contains w.scheduler.dedupe_cache k)) [
  | inl e ↦ rw (e, push) (ground (arith, e, h.once k))
  | inr e ↦
      rw (e, push)
        (to_queue-accepts (record w.scheduler { dedupe_cache = k ∷ w.scheduler.dedupe_cache }) q
          ∙ ground (arith, e, h.once k))
]

remembered :
    (s : Scheduler) (k : String) (q : Option String)
    → contains (push s (some k) q).0.dedupe_cache k ≡ true
unfolding push contains
remembered s k q = elim (Bool-cases (contains s.dedupe_cache k)) [
  | inl e ↦ rw (e, push) e
  | inr e ↦
      rw (e, push)
        (rw (cache-to_queue (record s { dedupe_cache = k ∷ s.dedupe_cache }) q)
          (ground (arith, string_eq.beq_iff k k)))
]

known_skipped :
    (s : Scheduler) (k : String) (q : Option String)
    → contains s.dedupe_cache k ≡ true
    → (push s (some k) q).1 ≡ skipped
unfolding push
known_skipped s k q e = rw (e, push) refl

-- A task that is pushed right after one with its dedupe key is skipped.
pub push-again :
    (s : Scheduler) (k : String) (q q' : Option String)
    → (push (push s (some k) q).0 (some k) q').1 ≡ skipped
push-again s k q q' = known_skipped (push s (some k) q).0 k q' (remembered s k q)
