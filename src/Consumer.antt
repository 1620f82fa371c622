-- ===== src/Consumer.antt =====
-- lib/BackbeatConsumer.js: how many messages are asked of Kafka, and which offsets are stored for the
-- next commit. The client of Kafka and the queue of the library async are third-party code.
pub mod Flow
pub mod Commits
pub mod Stored
pub mod Rebalance
pub mod Tests
use backbeat.Base.{
  ℕ, ◌+◌, ◌-◌, ◌≤◌, ◌≡◌, Bool, true, false, String, Option, none, some, List, [], ◌∷◌, not, ◌||◌,
  ltb, if◌then◌else◌, length, foldl, ◌==◌, nat_eq, zero, suc, get_elem?,
}
use backbeat.Ledger.{Ledger, whole, on_offset_consumed, on_offset_processed}

-- An entry as the client gives it, and one whose topic, partition and offset are defined.
pub record Entry : Type 0 where
  pub topic : Option String
  pub partition : Option ℕ
  pub offset : Option ℕ

pub record Message : Type 0 where
  pub topic : String
  pub partition : ℕ
  pub offset : ℕ

unfoldable pub defined : Entry → Option Message
defined e = elim e.topic [
  | none ↦ none
  | some t ↦ elim e.partition [
    | none ↦ none
    | some p ↦ elim e.offset [
      | none ↦ none
      | some o ↦ some (record { topic = t; partition = p; offset = o })
    ]
  ]
]

-- The queue of async, as far as the consumer relies on it: how many tasks run and wait, a new task,
-- and the end of one.
pub record Queue (Q : Type 0) : Type 0 where
  pub running : Q → ℕ
  pub waiting : Q → ℕ
  pub push : Q → Message → Q
  pub finish : Q → Message → Q
  pub load-push :
      (q : Q) (m : Message) → running (push q m) + waiting (push q m) ≤ running q + waiting q + 1
  pub load-finish :
      (q : Q) (m : Message) → running (finish q m) + waiting (finish q m) ≤ running q + waiting q

-- The timer that reports and resets `messages_consumed` is not modelled.
-- `stored` is what was given to `offsetsStore`, the latest first.
pub record Consumer (Q : Type 0) : Type 0 where
  pub concurrency : ℕ
  pub processing_queue : Q
  pub consume_pending_requests : ℕ
  pub offset_ledger : Ledger
  pub messages_consumed : ℕ
  pub try_consumed_timeout : Bool
  pub stored : List (Message)

module _ {Q : Type 0} (queue : Queue Q) where
  -- Subtraction stops at 0, as the function does.
  unfoldable pub get_available_slots_in_pipeline : Consumer Q → ℕ
  get_available_slots_in_pipeline s =
      s.concurrency
      - queue.running s.processing_queue
      - queue.waiting s.processing_queue
      - s.consume_pending_requests

  -- `_tryConsume` up to the request, with the number of messages that it asks for.
  unfoldable pub try_consume : Consumer Q → Bool → Consumer Q × Option ℕ
  unfolding get_available_slots_in_pipeline
  try_consume s nominal =
      if not nominal
      then (record s { try_consumed_timeout = true }, none)
      else let n = get_available_slots_in_pipeline s in
        if n == 0 then (record s { try_consumed_timeout = false }, none) else (
          record s {
            try_consumed_timeout = false;
            consume_pending_requests = s.consume_pending_requests + n;
          },
          some n,
        )

  -- A consumed entry: its offset goes to the ledger and the message to the queue.
  unfoldable pub start_message : Consumer Q → Message → Consumer Q
  start_message s m =
      elim (on_offset_consumed s.offset_ledger m.topic m.partition (whole m.offset)) [
        | none ↦ s
        | some l ↦ record s {
          offset_ledger = l;
          messages_consumed = s.messages_consumed + 1;
          processing_queue = queue.push s.processing_queue m;
        }
      ]

  unfoldable pub start_entry : Consumer Q → Entry → Consumer Q
  unfolding defined start_message
  start_entry s e = elim (defined e) [ none ↦ s | some m ↦ start_message s m ]

  -- The callback of a request for `n` messages; `none` is an error.
  unfoldable pub on_consumed : Consumer Q → ℕ → Option (List Entry) → Consumer Q
  unfolding start_entry
  on_consumed s n none = record s {
    consume_pending_requests = s.consume_pending_requests - n;
    try_consumed_timeout = true;
  }
  on_consumed s n (some entries) =
      let s' =
        foldl start_entry (record s { consume_pending_requests = s.consume_pending_requests - n })
          entries in
      record s' { try_consumed_timeout = ltb (length entries) n || s'.try_consumed_timeout }

  unfoldable pub on_entry_committable : Consumer Q → Bool → Message → Consumer Q
  on_entry_committable s is_paused m =
      let (l, committable_offset) =
        on_offset_processed s.offset_ledger m.topic m.partition m.offset in
      elim committable_offset [
        | none ↦ record s { offset_ledger = l }
        | some c ↦
            if is_paused
            then record s { offset_ledger = l }
            else record s { offset_ledger = l; stored = record m { offset = c } ∷ s.stored }
      ]

  -- `_onEntryProcessingDone`, after the queue has ended the task; `committable` is false only when the
  -- task said so.
  unfoldable pub on_entry_processing_done : Consumer Q → Bool → Bool → Message → Consumer Q
  unfolding on_entry_committable
  on_entry_processing_done s committable is_paused m =
      let s' = record s { processing_queue = queue.finish s.processing_queue m } in
      if committable then on_entry_committable s' is_paused m else s'

-- The consumer and the sizes of the requests under way.
pub record World (Q : Type 0) : Type 0 where
  pub consumer : Consumer Q
  pub requests : List ℕ

pub data Action : Type 0 where
  tried : Bool → Action
  received : ℕ → Option (List Entry) → Action
  done : Bool → Bool → Message → Action
  committed : Bool → Message → Action

unfoldable pub remove_at : ℕ → List ℕ → List ℕ
remove_at i [] = []
remove_at zero (n ∷ ns) = ns
remove_at (suc i) (n ∷ ns) = n ∷ remove_at i ns

add_request : List ℕ → Option ℕ → List ℕ
add_request ns none = ns
add_request ns (some n) = n ∷ ns

module _ {Q : Type 0} (queue : Queue Q) where
  -- An answer that no request asked for does not come.
  unfoldable pub act : World Q → Action → World Q
  unfolding add_request
  act w (tried nominal) =
      let (s, request) = try_consume queue w.consumer nominal in
      record { consumer = s; requests = add_request w.requests request }
  act w (received i answer) = elim (get_elem? w.requests i) [
    | none ↦ w
    | some n ↦ record {
      consumer = on_consumed queue w.consumer n answer;
      requests = remove_at i w.requests;
    }
  ]
  act w (done committable is_paused m) = record w {
    consumer = on_entry_processing_done queue w.consumer committable is_paused m;
  }
  act w (committed is_paused m) = record w {
    consumer = on_entry_committable queue w.consumer is_paused m;
  }

  unfoldable pub acts : World Q → List Action → World Q
  acts w [] = w
  acts w (a ∷ rest) = acts (act w a) rest
