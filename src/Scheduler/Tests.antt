-- ===== src/Scheduler/Tests.antt =====
-- A scheduler and two actions of different buckets, and the theorems at them.
use backbeat.Base.{◌≡◌, refl, none, some, List, [], ◌∷◌, contains, string_eq}
use backbeat.Scheduler.{skipped}
use backbeat.Scheduler.Once.{World, Action, pushed, ended, acts, times, IsOnce, acts-IsOnce}
use backbeat.Scheduler.Keys.{Target, action, push_entry, other_bucket_skipped}

abbrev new : World
new = record { scheduler = record { task_queues = []; dedupe_cache = [] }; under_way = [] }

new-IsOnce : IsOnce new
unfolding times contains
new-IsOnce = record { once = λ k. refl }

abbrev busy : List Action
busy =
    pushed (some "d") (some "q")
    ∷ pushed (some "d") (some "q")
    ∷ pushed (some "e") none
    ∷ ended "e"
    ∷ []

acts-IsOnce_example : IsOnce (acts new busy)
acts-IsOnce_example = acts-IsOnce new busy new-IsOnce

abbrev target : Target
target = record { bucket = "b"; key = "k"; version = none; content_md5 = "m" }

other_bucket_skipped_example :
    (push_entry
      (push_entry new.scheduler (action target)).0
      (action (record target { bucket = "c" }))).1
    ≡ skipped
other_bucket_skipped_example = other_bucket_skipped new.scheduler target "c"
