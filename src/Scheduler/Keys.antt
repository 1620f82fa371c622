-- ===== src/Scheduler/Keys.antt =====
-- extensions/replication/queueProcessor/taskSchedulerHelpers.js: the keys of the replication tasks.
use backbeat.Base.{◌≡◌, String, Option, none, some, string_eq}
use Prim.Native.String.{◌++◌}
use backbeat.Scheduler.Once.{push-again}
use backbeat.Scheduler.{Scheduler, PushOutcome, skipped, push}

-- What the functions read of an entry: the getters of an object entry, or the target of an action.
pub record ObjectEntry : Type 0 where
  pub canonical_key : String
  pub version_id : Option String
  pub content_md5 : String

pub record Target : Type 0 where
  pub bucket : String
  pub key : String
  pub version : Option String
  pub content_md5 : String

pub data QueueEntry : Type 0 where
  object : ObjectEntry → QueueEntry
  action : Target → QueueEntry
  other : QueueEntry

abbrev or_empty : Option String → String
or_empty none = ""
or_empty (some v) = v

unfoldable pub get_task_scheduler_queue_key : QueueEntry → Option String
get_task_scheduler_queue_key (object e) = some e.canonical_key
get_task_scheduler_queue_key (action t) = some (t.bucket ++ "/" ++ t.key)
get_task_scheduler_queue_key other = none

unfoldable pub get_task_scheduler_dedupe_key : QueueEntry → Option String
get_task_scheduler_dedupe_key (object e) =
    some (e.canonical_key ++ ":" ++ or_empty e.version_id ++ ":" ++ e.content_md5)
get_task_scheduler_dedupe_key (action t) =
    some (t.key ++ ":" ++ or_empty t.version ++ ":" ++ t.content_md5)
get_task_scheduler_dedupe_key other = none

abbrev pub push_entry : Scheduler → QueueEntry → Scheduler × PushOutcome
push_entry s e = push s (get_task_scheduler_dedupe_key e) (get_task_scheduler_queue_key e)

-- An action that is pushed right after one with the same key, version and MD5 is skipped, even if the
-- buckets of the two are different.
pub other_bucket_skipped :
    (s : Scheduler) (t : Target) (bucket : String)
    → (push_entry (push_entry s (action t)).0 (action (record t { bucket = bucket }))).1 ≡ skipped
unfolding get_task_scheduler_dedupe_key
other_bucket_skipped s t bucket =
    push-again s (t.key ++ ":" ++ or_empty t.version ++ ":" ++ t.content_md5)
      (get_task_scheduler_queue_key (action t))
      (get_task_scheduler_queue_key (action (record t { bucket = bucket })))
