-- ===== src/Scheduler.antt =====
-- lib/tasks/TaskScheduler.js: tasks that run one after the other per queue key, and of which those are
-- skipped that another one stands for. The queues are those of the library async: what the scheduler
-- hands to them is in the outcome of a push, and they tell it the end of a task and that they are empty.
pub mod Once
pub mod Keys
pub mod Tests
use backbeat.Base.{
  Bool, true, false, not, String, Option, none, some, List, [], ◌∷◌, if◌then◌else◌, ◌==◌, string_eq,
  contains, filter_by,
}

-- `_taskQueues` by their keys, and `_dedupeCache`.
pub record Scheduler : Type 0 where
  pub task_queues : List String
  pub dedupe_cache : List String

-- What becomes of a task: it is skipped, it goes to the queue of a key, which is new or not, or it is
-- processed on its own.
pub data PushOutcome : Type 0 where
  skipped : PushOutcome
  queued : String → Bool → PushOutcome
  alone : PushOutcome

-- `_getTaskQueue`: a new queue if there is none.
unfoldable pub get_task_queue : Scheduler → String → Scheduler × PushOutcome
get_task_queue s key =
    if contains s.task_queues key
    then (s, queued key false)
    else (record s { task_queues = key ∷ s.task_queues }, queued key true)

unfoldable pub to_queue : Scheduler → Option String → Scheduler × PushOutcome
unfolding get_task_queue
to_queue s none = (s, alone)
to_queue s (some key) = get_task_queue s key

-- `push`, for a task with these keys; a key that is no text counts as none.
unfoldable pub push : Scheduler → Option String → Option String → Scheduler × PushOutcome
unfolding to_queue
push s none queue_key = to_queue s queue_key
push s (some dedupe_key) queue_key =
    if contains s.dedupe_cache dedupe_key
    then (s, skipped)
    else to_queue (record s { dedupe_cache = dedupe_key ∷ s.dedupe_cache }) queue_key

-- `onTaskEnd`
unfoldable pub on_task_end : Scheduler → Option String → Scheduler
on_task_end s none = s
on_task_end s (some key) = record s {
  dedupe_cache = filter_by (λ k. not (k == key)) s.dedupe_cache;
}

-- `drain` of a queue.
unfoldable pub on_drain : Scheduler → String → Scheduler
on_drain s key = record s { task_queues = filter_by (λ k. not (k == key)) s.task_queues }
