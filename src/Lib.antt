-- ===== src/Lib.antt =====
-- Verification of Backbeat, which replicates, expires, transitions and ingests objects in the
-- background, driven by messages of Kafka.
--
-- The consumer of a Kafka topic keeps an offset ledger to know what it may commit. The lifecycle
-- extension turns the lifecycle rules of a bucket into listings of objects, one of which a bucket
-- task makes, while it sends messages to itself for the others and for the next page. The oplog
-- populator spreads the buckets that some extension is active on over Kafka Connect connectors,
-- which write the changes of these buckets to a topic. A location's services can be paused and
-- resumed. Log readers turn the records of a log into messages for the extensions. When an object
-- was copied to a site, or could not be, a message of the status topic tells so, and the metadata
-- of the object are updated, or the copy is tried again through a topic of replays. Tasks retry
-- their actions, and a dispatcher shares work out among processes. The offset ledger is part of the
-- state of the consumer; the populator of the replication is an extension of the log reader; the
-- other parts modelled share no state. Dates are numbers, and `null` and `undefined` are `none`.
--
-- Files and code:
-- - Base and Base/: tests, lists, equality and association lists that the components share.
-- - Ledger: class OffsetLedger of lib/OffsetLedger.js. The state of a partition is a
--   `PartitionOffsets`; `committable` is _getPartitionCommittableOffset, `consume` and `process`
--   are the parts of onOffsetConsumed and onOffsetProcessed on a partition's object,
--   `on_offset_consumed`, `on_offset_processed`, `get_committable_offset` and
--   `get_processing_count` are the methods on the whole ledger. Ledger/Order, Safety and Progress
--   are about one partition, Ledger/Table and Counts about the whole ledger.
-- - Rules/Rule, Rules/Days, Rules/Reducer: extensions/lifecycle/util/RulesReducer.js.
--   `current_days`, `noncurrent_days` and `orphan_days` find the days in _reduceCurrentRules,
--   _reduceNonCurrentRules and _reduceOrphanDeleteMarkerRule; `reduce_rule` is the rest of these
--   three; `aggregate_by_prefix` is _aggregateByPrefix and `to_listings` is toListings. The order
--   of texts by localeCompare is a parameter, and so nothing is said of how many listings there
--   are. Rules/Due tells without the reducer what a rule does to current objects; Rules/Coverage
--   and Rules/LeftOut are about what is listed.
-- - Rules/Params: extensions/lifecycle/util/rules.js, with rulesToParams. The scale of a day
--   (timeProgressionFactor) is a parameter.
-- - Rules/Process: processBucketEntry of extensions/lifecycle/tasks/LifecycleTask.js with the
--   methods of LifecycleTaskV2.js, from the answers to its requests; what it does with multipart
--   uploads is left out. Rules/Requeue and Rules/Resume are about it.
-- - Rules/Task: _skipEntry, _handleRemainingListings, _getObjectList and _getObjectVersions of
--   extensions/lifecycle/tasks/LifecycleTaskV2.js, each from the parameters that rulesToParams
--   returned and the answer to the listing request. Whether the comparison with the rules failed is
--   part of that answer.
-- - Retention: noncurrentVersionCompare, _ncvHeapAdd, _ncvHeapObjectsClear and _ncvHeapBucketClear
--   of extensions/lifecycle/tasks/LifecycleTask.js. `MinHeap` of the library arsenal is an
--   interface with what the task relies on; `heap_add` is the part of _ncvHeapAdd on one heap.
--   Retention/Keeps is about one heap, Retention/Heaps about all.
-- - Expiry, with its data in Expiry/Data: _checkAndApplyExpirationRule, _checkAndApplyEODMRule,
--   _checkAndApplyNCVExpirationRule and _checkAndApplyNCVTransitionRule of
--   extensions/lifecycle/tasks/LifecycleTask.js, and _checkAndApplyEODMRule of LifecycleTaskV2.js
--   beside it. The rules that apply to an entity and the dates, which arsenal finds, are
--   parameters. Expiry/Compare: _compareObject, _compareVersion and _compareIsLatestVersion of the
--   one file, _compare and what it calls of the other. Expiry/Merge:
--   _mergeSortedVersionsAndDeleteMarkers and _addStaleDateToVersions. Expiry/Apply:
--   _applyTransitionRule, from the answers of the services that it calls.
-- - Retry: retry of lib/tasks/BackbeatTask.js; `handle_res` is _handleRes. Retry/Bounds is about
--   answers and timers in any order, Retry/Ends about an action that answers each call, with fuel
--   for its calls and as many as the limits allow, Retry/Entries about _retryEntry of
--   extensions/lifecycle/tasks/LifecycleTask.js.
-- - Provision: class ProvisionDispatcher of lib/provisioning/ProvisionDispatcher.js.
--   Provision/World: a dispatcher with its writes to ZooKeeper, all of which are begun at once,
--   where the code begins 20 at a time.
-- - LogReader: setup and processLogEntries of lib/queuePopulator/LogReader.js with the steps of the
--   latter, and publish of lib/queuePopulator/QueuePopulatorExtension.js. A batch is given by the
--   answers of the log, Kafka and ZooKeeper and by the number of records read, which the limit and
--   the timeout of the code only bound. LogReader/Delivery is about batches, crashes and restarts:
--   as in bin/queuePopulator.js the process ends at an error of a batch.
-- - Replication: _updateReplicationStatus of
--   extensions/replication/tasks/UpdateReplicationStatus.js with the methods that it calls, and the
--   entries of lib/models/ObjectQueueEntry.js. Replication/Topics: _reshapeReplayTopics and
--   _makeTopicNames of
--   extensions/replication/replicationStatusProcessor/ReplicationStatusProcessor.js. The metadata
--   are those of ObjectMD of arsenal, a parameter; Replication/Metadata has what the code relies on
--   in it, also that a clone shares its backends with the original, since a status is computed from
--   the original after it was set in the clone. Replication/Update: messages about one object come
--   one after the other, as the scheduler of tasks orders them. Replication/Data: backends, entries
--   and messages. Replication/Populator: filter of
--   extensions/replication/ReplicationQueuePopulator.js, an extension of LogReader.
--   Replication/Replays: a replication that fails each time, with fuel for the messages.
-- - Oplog/Connector: extensions/oplogPopulator/modules/Connector.js, and the decision of
--   _spawnOrDestroyConnector of extensions/oplogPopulator/modules/ConnectorsManager.js. A method
--   that waits for Kafka Connect is a function up to the request and a function from the answer, so
--   that other calls can come between; Oplog/Updates runs such sequences.
-- - Oplog/Manager: _getOldConnectors, addConnector, initializeConnectors and _updateConnectors of
--   extensions/oplogPopulator/modules/ConnectorsManager.js. Oplog/Rounds is about a round of
--   updates, Oplog/Start about the start of the populator.
-- - Oplog/Allocator: extensions/oplogPopulator/modules/Allocator.js and
--   extensions/oplogPopulator/allocationStrategy/LeastFullConnector.js. A reference to a connector
--   is its index in the list of the manager.
-- - Oplog/Populator: _isBucketBackbeatEnabled, _handleChangeStreamChangeEvent and the buckets of
--   setup in extensions/oplogPopulator/OplogPopulator.js. The tests of the extensions are
--   parameters.
-- - Location: lib/models/LocationStatus.js. The status objects are cells of a store, since services
--   can share one.
-- - Location/Manager: lib/util/LocationStatusManager.js. `pause_place`, `resume_place` and
--   `delete_schedule_place` are what pauseService, resumeService and deleteScheduledResumeService
--   do at one location, `pause_service_for`, `resume_service_for` and
--   `delete_scheduled_resume_service` at a list of them; `fire` is the run of a job of node-
--   schedule. A change and the answer of MongoDB to its update are one step. Location/Jobs is about
--   scheduled resumes.
-- - Consumer: _getAvailableSlotsInPipeline, _tryConsume, _onEntryProcessingDone and
--   onEntryCommittable of lib/BackbeatConsumer.js, over the ledger of Ledger. The queue of the
--   library async is the interface `Queue`, with what the consumer relies on: a new task adds at
--   most one to the tasks running and waiting, and the end of a task adds none. `act` is one
--   request, answer, end of a task or late call of onEntryCommittable; Consumer/Flow, Commits and
--   Stored are about sequences of them. Consumer/Rebalance: the part of _onRebalance about revoked
--   partitions.
-- - MapLimit: lib/util/mapLimitWaitPendingIfError.js. The rounds of its loop and the answers of the
--   iteratee are actions, in any order; each call is answered once.
-- - Scheduler: class TaskScheduler of lib/tasks/TaskScheduler.js. `push` answers what becomes of
--   the task, `on_task_end` and `on_drain` are the callbacks. Scheduler/Once is about the dedupe
--   cache. Scheduler/Keys: extensions/replication/queueProcessor/taskSchedulerHelpers.js; an MD5
--   that is missing would be the text "undefined".
-- - Ledger/Tests, Rules/Tests, Oplog/Tests, Oplog/StartTests, Location/Tests, Consumer/Tests,
--   MapLimit/Tests, Retention/Tests, Scheduler/Tests, Expiry/Tests, LogReader/Tests,
--   Replication/Tests, Replication/Populator/Tests, Retry/Tests, Provision/Tests: concrete inputs.
--
-- All loops are structural recursion, but that of retries, and of replays, whose fuel is the number
-- of calls or messages that their theorems name. Numbers are natural numbers without a bound:
-- offsets, days and times stay far below the 2^53 to which JavaScript counts exactly.
--
-- Not modelled are the calls of Kafka, Kafka Connect, MongoDB, ZooKeeper, Redis and storage back
-- ends, logs and metrics, the tasks that copy data to other locations, the API, and the extensions
-- of notification, ingestion and garbage collection.
pub mod Base
pub mod Ledger
pub mod Rules
pub mod Oplog
pub mod Location
pub mod Consumer
pub mod MapLimit
pub mod Retention
pub mod Scheduler
pub mod Retry
pub mod Provision
pub mod Expiry
pub mod LogReader
pub mod Replication
