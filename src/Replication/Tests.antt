-- ===== src/Replication/Tests.antt =====
-- Two sites, replays through two topics, and the theorems at them.
use backbeat.Base.{
  inl, inr, subst, sym, ◌≡◌, refl, true, false, String, none, some, List, [], ◌∷◌, arith, length,
  All, ◌==◌, string_eq,
}
use backbeat.Replication.{
  throws, Status, completed, failed, pending, Backend, ObjectMd, Entry, Config,
  get_updated_source_entry, any_failed, any_pending, is_completed,
}
use backbeat.Replication.Update.{World, Event, update_replication_status, updates, is_known}
use backbeat.Replication.Metadata.{IsObjectMd, status_in, set_status_in, set_version_in}
use backbeat.Replication.Topics.{
  ReplayTopic, reshape_replay_topics, make_topic_names, in_order, times,
}
use backbeat.Replication.Made.{any_collected}
use backbeat.Replication.Final.{IsCompleted, IsKnown, completed_is_final, collected-IsCompleted}
use backbeat.Replication.Completes.{IsCompletion, completion_reached, completed_collects}
use backbeat.Replication.Agrees.{Agrees, update-Agrees}
use backbeat.Replication.Replays.{replays_of, IsFailed}
use backbeat.Replication.Replays.Order.{replays_end}

record Md : Type 0 where
  backends : List Backend
  status : Status

-- All that a clone has is shared with its original.
abbrev object_md : ObjectMd Md
object_md = record {
  backends = λ m. m.backends;
  site_status = λ m site. status_in m.backends site;
  replication_status = λ m. m.status;
  site_version_id = λ m site. none;
  is_nfs = λ m. false;
  content_md5 = λ m. "";
  same_tags = λ m n. true;
  data_store_name = λ m. "transient";
  clone = λ m. m;
  original_after = λ m c. c;
  set_backends = λ m bs. record m { backends = bs };
  set_site_status = λ m site status. record m { backends = set_status_in m.backends site status };
  set_replication_status = λ m status. record m { status = status };
  set_storage_class = λ m site. m;
  set_site_version_id =
      λ m site version. record m { backends = set_version_in m.backends site version };
  clear_origin_op = λ m. m;
}

object_md-IsObjectMd : IsObjectMd object_md
object_md-IsObjectMd = record {
  site_status_lem = λ m site. refl;
  clone_backends = λ m. refl;
  set_site_status_backends = λ m site status. refl;
  shared_backends = λ m site status. refl;
  set_backends_lem = λ m l. refl;
  set_replication_status_lem = λ m status. refl;
  set_replication_status_backends = λ m status. refl;
  set_storage_class_backends = λ m site. refl;
  set_version_backends = λ m site version. refl;
  set_version_status = λ m site version. refl;
  clear_backends = λ m. refl;
  clear_status = λ m. refl;
}

abbrev backend : String → Status → Backend
backend site status = record { site = site; status = status; data_store_version_id = none }

abbrev md_of : Status → Status → Status → Md
md_of a b whole = record { backends = backend "a" a ∷ backend "b" b ∷ []; status = whole }

abbrev replay_topics : List ReplayTopic
replay_topics = record { topic_name = "late"; retries = 1 } ∷ []

abbrev soon : ReplayTopic
soon = record { topic_name = "soon"; retries = 2 }

abbrev config : Config
config = record {
  replay_topics = reshape_replay_topics (some (soon ∷ replay_topics));
  producers = make_topic_names (some (soon ∷ replay_topics));
  monitor_failures = true;
  notifies = false;
  is_transient = λ name. name == "transient";
}

abbrev message : String → Status → Event Md
message site status = record {
  entry = record { md = md_of status status status; site = site; replay_count = none };
  get_ok = true;
  put_ok = true;
}

-- b fails, which leaves it pending for a replay, a and then b complete, and a late failure of a comes.
abbrev run : List (Event Md)
run = message "b" failed ∷ message "a" completed ∷ message "b" completed ∷ message "a" failed ∷ []

abbrev start : World Md
start = record { stored = md_of pending pending pending; sent = [] }

run_completes : (updates object_md config start run).stored ≡ md_of completed completed completed
unfolding update_replication_status get_updated_source_entry status_in set_status_in set_version_in
    is_known any_failed any_pending reshape_replay_topics make_topic_names
run_completes = refl

collects : any_collected (updates object_md config start run).sent ≡ true
unfolding update_replication_status get_updated_source_entry status_in set_status_in set_version_in
    is_known any_failed any_pending reshape_replay_topics make_topic_names
collects = refl

All-IsKnown : All IsKnown (md_of pending pending pending).backends
unfolding is_known
All-IsKnown = (refl, (refl, tt))

abbrev half_way : World Md
half_way = record { stored = md_of completed failed failed; sent = [] }

half_completed : status_in half_way.stored.backends "a" ≡ some completed
unfolding status_in
half_completed = refl

half_failed : status_in half_way.stored.backends "b" ≡ some failed
unfolding status_in
half_failed = refl

half_way-Agrees : Agrees object_md half_way.stored
half_way-Agrees = inl (refl, inr (inl refl))

completed_is_final_example :
    status_in (updates object_md config half_way run).stored.backends "a" ≡ some completed
completed_is_final_example =
    completed_is_final object_md object_md-IsObjectMd config half_way run "a" half_completed

collected-IsCompleted_example : All IsCompleted (updates object_md config start run).stored.backends
collected-IsCompleted_example =
    collected-IsCompleted object_md object_md-IsObjectMd config start.stored run All-IsKnown
      collects

update-Agrees_example :
    Agrees object_md
      (update_replication_status object_md config half_way (message "b" completed)).0.stored
update-Agrees_example =
    update-Agrees object_md object_md-IsObjectMd config half_way (message "b" completed) failed
      half_failed half_way-Agrees

abbrev first_failure : Entry Md
first_failure = (message "b" failed).entry

some_retry : length (in_order (soon ∷ replay_topics)) ≡ 3
unfolding in_order times
some_retry = refl

tells_failed : status_in first_failure.md.backends "b" ≡ some failed
unfolding status_in
tells_failed = refl

not_completed : is_completed (status_in start.stored.backends "b") ≡ false
unfolding status_in
not_completed = refl

replays_end_example :
    (m : Md) × (replays_of object_md config start.stored 4 first_failure
      ≡ some ("soon" ∷ "soon" ∷ "late" ∷ [], m))
    × IsFailed object_md config start.stored "b" m
unfolding in_order times
replays_end_example =
    replays_end object_md config start.stored object_md-IsObjectMd soon replay_topics first_failure
      refl refl (omega arith) tells_failed not_completed refl

completion : IsCompletion object_md object_md-IsObjectMd config (message "b" completed)
unfolding status_in throws
completion = record { tells = refl; not_nfs = refl; no_throw = refl; got = refl; put = refl }

completion_reached_example :
    status_in
      (updates object_md config half_way
        (message "b" failed ∷ message "b" completed ∷ run)).stored.backends
      "b"
    ≡ some completed
completion_reached_example =
    completion_reached object_md object_md-IsObjectMd config half_way (message "b" failed ∷ []) run
      (message "b" completed) failed half_failed completion

some_left : ¬ All IsCompleted start.stored.backends
some_left h = grind (arith, h.0)

run-All : All IsCompleted (updates object_md config start run).stored.backends
run-All = subst (λ m. All IsCompleted m.backends) (sym run_completes) (refl, (refl, tt))

completed_collects_example : any_collected (updates object_md config start run).sent ≡ true
completed_collects_example =
    completed_collects object_md object_md-IsObjectMd config (λ m. refl) start.stored run some_left
      run-All
