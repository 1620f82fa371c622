-- ===== src/MapLimit.antt =====
-- lib/util/mapLimitWaitPendingIfError.js: a map with a bound on the calls under way, which after an
-- error waits for those and starts no other.
pub mod Calls
pub mod Known
pub mod Ends
pub mod Tests
use backbeat.Base.{
  ℕ, suc, ◌+◌, ◌-◌, Bool, true, false, Option, none, some, List, [], ◌∷◌, ◌++◌, ltb, if◌then◌else◌,
  ◌==◌, nat_eq, contains,
}
use backbeat.Base.Assoc.{Assoc, put}

-- The state that the calls share. `requested` are the indices that the iteratee was called with, in
-- order, `waiting` those that it has not answered, and `called` what the callback was called with.
pub record State (E R : Type 0) : Type 0 where
  pub results : Assoc ℕ R
  pub n_pending_requests : ℕ
  pub next_idx : ℕ
  pub pending_error : Option E
  pub requested : List ℕ
  pub waiting : List ℕ
  pub called : List (Option E × Assoc ℕ R)

unfoldable pub remove_first : List ℕ → ℕ → List ℕ
remove_first [] i = []
remove_first (x ∷ xs) i = let rest = remove_first xs i in if x == i then xs else x ∷ rest

module _ {E R : Type 0} (size limit : ℕ) where
  -- The start, before the first round of the loop; nothing to do is answered at once.
  unfoldable pub start : State E R
  start = record {
    results = [];
    n_pending_requests = 0;
    next_idx = 0;
    pending_error = none;
    requested = [];
    waiting = [];
    called = if size == 0 then (none, []) ∷ [] else [];
  }

  -- `processNext`, up to the answer of the iteratee.
  unfoldable pub process_next : State E R → State E R
  process_next s = record s {
    next_idx = s.next_idx + 1;
    n_pending_requests = s.n_pending_requests + 1;
    requested = s.requested ++ s.next_idx ∷ [];
    waiting = s.next_idx ∷ s.waiting;
  }

  -- One round of the `while` loop. When its condition has failed, it stays so.
  unfoldable pub loop_round : State E R → State E R
  unfolding process_next
  loop_round s =
      if ltb s.next_idx (if ltb size limit then size else limit) then process_next s else s

  unfoldable pub call_back : State E R → State E R
  call_back s = record s { called = s.called ++ (s.pending_error, s.results) ∷ [] }

  -- The answer of the iteratee: an error or none, and a result.
  unfoldable pub on_answer : State E R → ℕ → Option E → R → State E R
  unfolding process_next call_back
  on_answer s idx none res =
      let s' = record s {
        n_pending_requests = s.n_pending_requests - 1;
        results = put s.results idx res;
        waiting = remove_first s.waiting idx;
      } in
      if ltb s'.next_idx size
      then process_next s'
      else if s'.n_pending_requests == 0
      then call_back s'
      else s'
  on_answer s idx (some err) res =
      let s' = record s {
        n_pending_requests = s.n_pending_requests - 1;
        results = put s.results idx res;
        waiting = remove_first s.waiting idx;
        next_idx = size;
        pending_error = elim s.pending_error [ none ↦ some err | some first ↦ some first ];
      } in
      if s'.n_pending_requests == 0 then call_back s' else s'

-- A round of the loop, or the answer to a call with an index. The loop and the answers may alternate,
-- as they do when the iteratee answers before it returns.
pub data Action : Type 0 where
  looped : Action
  answered : ℕ → Action

module _ {E R : Type 0} (size limit : ℕ) (iteratee : ℕ → Option E × R) where
  -- The iteratee answers each of its calls once.
  unfoldable pub act : State E R → Action → State E R
  unfolding loop_round on_answer
  act s looped = loop_round size limit s
  act s (answered i) =
      if contains s.waiting i then on_answer size limit s i (iteratee i).0 (iteratee i).1 else s

  abbrev pub acts : State E R → List Action → State E R
  acts s [] = s
  acts s (a ∷ rest) = acts (act s a) rest
