-- ===== src/Consumer/Rebalance.antt =====
-- `_onRebalance` of lib/BackbeatConsumer.js, when partitions are revoked.
use backbeat.Base.{
  ◌≡◌, refl, sym, ap, Bool, true, false, Option, none, some, List, [], ◌∷◌, ◌++◌, if◌then◌else◌,
}

pub data Status : Type 0 where
  idle drained timeout : Status

-- What is asked of the client of Kafka, and the event `unassign`.
pub data Effect : Type 0 where
  commit unassign disconnect : Effect
  emitted : Status → Effect

-- `on_drain` and `timer` are the callback of the queue and the timeout that wait for the end,
-- `called` is the mark of `jsutil.once`, and `publishing` is the end that waits until offsets are
-- published.
pub record Rebalance : Type 0 where
  pub on_drain : Bool
  pub timer : Bool
  pub called : Bool
  pub publishing : Option Status
  pub effects : List Effect

-- `unassign`. `publishes`: the consumer is configured to publish offsets first, and the callback for it
-- comes later. Where it comes at once, as with no offsets to publish, the effects are in the order that
-- they have without publishing, so that this is the case `false`.
unfoldable pub unassign_with : Bool → Rebalance → Status → Rebalance
unassign_with publishes r status =
    if r.called
    then r
    else if publishes
    then record {
      on_drain = false;
      timer = false;
      called = true;
      publishing = some status;
      effects = r.effects ++ commit ∷ [];
    }
    else record {
      on_drain = false;
      timer = false;
      called = true;
      publishing = none;
      effects = r.effects ++ commit ∷ unassign ∷ emitted status ∷ [];
    }

-- The answer to a revocation, for a consumer whose queue is idle or not.
unfoldable pub on_revoke : Bool → Bool → Rebalance
unfolding unassign_with
on_revoke publishes is_idle =
    if is_idle
    then unassign_with publishes
        (record {
          on_drain = false;
          timer = false;
          called = false;
          publishing = none;
          effects = [];
        })
        idle
    else record { on_drain = true; timer = true; called = false; publishing = none; effects = [] }

-- What happens afterwards: the queue is drained, the time is over, or offsets were published.
pub data Happening : Type 0 where
  queue_drained time_over published : Happening

unfoldable pub happen : Bool → Rebalance → Happening → Rebalance
unfolding unassign_with
happen publishes r queue_drained = if r.on_drain then unassign_with publishes r drained else r
happen publishes r time_over =
    if r.timer
    then (let r' = unassign_with publishes r timeout in
        record r' { timer = false; effects = r'.effects ++ disconnect ∷ [] })
    else r
happen publishes r published = elim r.publishing [
  | none ↦ r
  | some status ↦ record r {
    publishing = none;
    effects = r.effects ++ unassign ∷ emitted status ∷ [];
  }
]

abbrev pub happens : Bool → Rebalance → List Happening → Rebalance
happens publishes r [] = r
happens publishes r (h ∷ hs) = happens publishes (happen publishes r h) hs

-- What is expected after the end with a status, from the happenings that follow.
abbrev pub was_published : List Happening → Bool
was_published [] = false
was_published (published ∷ hs) = true
was_published (queue_drained ∷ hs) = was_published hs
was_published (time_over ∷ hs) = was_published hs

abbrev pub leave : Status → List Effect
leave status = unassign ∷ emitted status ∷ []

abbrev pub give_up : Status → List Effect
give_up timeout = disconnect ∷ []
give_up drained = []
give_up idle = []

abbrev pub ended : Bool → Status → List Happening → List Effect
ended true status hs = commit ∷ (give_up status ++ (if was_published hs then leave status else []))
ended false status hs = commit ∷ (leave status ++ give_up status)

abbrev pub expected : Bool → List Happening → List Effect
expected publishes [] = []
expected publishes (queue_drained ∷ hs) = ended publishes drained hs
expected publishes (time_over ∷ hs) = ended publishes timeout hs
expected publishes (published ∷ hs) = expected publishes hs

append-[] : (es : List Effect) → es ++ [] ≡ es
append-[] [] = refl
append-[] (e ∷ es) = ap (λ xs. e ∷ xs) (append-[] es)

abbrev over : Option Status → List Effect → Rebalance
over p es = record { on_drain = false; timer = false; called = true; publishing = p; effects = es }

happens-over :
    (b : Bool) (es : List Effect) (hs : List Happening) → (happens b (over none es) hs).effects ≡ es
unfolding happen
happens-over b es [] = refl
happens-over b es (queue_drained ∷ hs) = happens-over b es hs
happens-over b es (time_over ∷ hs) = happens-over b es hs
happens-over b es (published ∷ hs) = happens-over b es hs

happens-publishing :
    (b : Bool) (s : Status) (es : List Effect) (hs : List Happening)
    → (happens b (over (some s) es) hs).effects ≡ es ++ (if was_published hs then leave s else [])
unfolding happen
happens-publishing b s es [] = sym (append-[] es)
happens-publishing b s es (queue_drained ∷ hs) = happens-publishing b s es hs
happens-publishing b s es (time_over ∷ hs) = happens-publishing b s es hs
happens-publishing b s es (published ∷ hs) = happens-over b (es ++ leave s) hs

happens-waiting :
    (b : Bool) (hs : List Happening) → (happens b (on_revoke b false) hs).effects ≡ expected b hs
unfolding happen on_revoke
happens-waiting b [] = refl
happens-waiting true (queue_drained ∷ hs) = happens-publishing true drained (commit ∷ []) hs
happens-waiting true (time_over ∷ hs) =
    happens-publishing true timeout (commit ∷ disconnect ∷ []) hs
happens-waiting false (queue_drained ∷ hs) = happens-over false (ended false drained hs) hs
happens-waiting false (time_over ∷ hs) = happens-over false (ended false timeout hs) hs
happens-waiting b (published ∷ hs) = happens-waiting b hs

-- When partitions are revoked, the consumer commits once and then gives them up once, whatever happens
-- afterwards: at once if it is idle, or else when the queue is drained or the time is over, whichever
-- comes first. If offsets are published first and the callback for it comes later, the partitions are
-- given up then. Only if the time was over first does the consumer disconnect.
pub on_revoke-effects :
    (publishes is_idle : Bool) (hs : List Happening)
    → (happens publishes (on_revoke publishes is_idle) hs).effects
      ≡ (if is_idle then ended publishes idle hs else expected publishes hs)
unfolding on_revoke
on_revoke-effects publishes false hs = happens-waiting publishes hs
on_revoke-effects true true hs = happens-publishing true idle (commit ∷ []) hs
on_revoke-effects false true hs = happens-over false (ended false idle hs) hs
