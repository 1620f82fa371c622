-- ===== src/MapLimit/Calls.antt =====
-- How many calls are under way, in which order they are made, and when the callback is called.
use backbeat.Base.{
  ℕ, zero, suc, ◌+◌, ◌-◌, ◌≤◌, ◌<◌, ◌≡◌, ◌∙◌, refl, inl, inr, Bool, true, false, not, ◌&&◌, Option,
  none, some, List, [], ◌∷◌, ◌++◌, arith, ltb, if◌then◌else◌, length, length-append, contains, ◌==◌,
  nat_eq, nat_beq_iff, Bool-cases, ap, sym,
}
use backbeat.Base.Assoc.{put}
use backbeat.MapLimit.{
  State, Action, looped, answered, start, process_next, call_back, loop_round, on_answer,
  remove_first, act, acts,
}

pub length-remove_first :
    (xs : List ℕ) (i : ℕ) → contains xs i ≡ true → length (remove_first xs i) + 1 ≡ length xs
unfolding remove_first contains
length-remove_first [] i h = absurd (ground arith)
length-remove_first (x ∷ xs) i h =
    ground (arith, length-remove_first xs i, nat_beq_iff x i, nat_beq_iff i x)

-- The first indices.
abbrev pub range : ℕ → List ℕ
range zero = []
range (suc n) = range n ++ n ∷ []

abbrev pub settled : {E : Type 0} → Option E → Bool
settled none = false
settled (some e) = true

module _ {E R : Type 0} (size limit : ℕ) where
  pub record IsReady (s : State E R) : Type 0 where
    pub counted : s.n_pending_requests ≡ length s.waiting
    pub few : s.n_pending_requests ≤ limit
    pub started : s.n_pending_requests ≤ s.next_idx
    pub inside : s.next_idx ≤ size
    pub in_order : s.requested ≡ range (length s.requested)
    pub no_other : length s.requested ≤ s.next_idx
    pub all_so_far : settled s.pending_error ≡ false → length s.requested ≡ s.next_idx
    pub no_more : settled s.pending_error ≡ true → s.next_idx ≡ size

  -- While there is more to do, something that was begun is under way.
  pub record IsSound (s : State E R) : Type 0 where
    pub ready : IsReady s
    pub busy : s.next_idx < size → 0 < s.next_idx → 0 < s.n_pending_requests
    pub called_once :
        length s.called
        ≡ (if (s.n_pending_requests == 0) && not (ltb s.next_idx size) then 1 else 0)

  pub start-IsSound : IsSound (start size limit)
  unfolding start
  start-IsSound = ground arith

  process_next-IsSound :
      (s : State E R)
      → s.next_idx < size
      → s.n_pending_requests < limit
      → length s.called ≡ 0
      → IsReady s
      → IsSound (process_next size limit s)
  unfolding process_next
  process_next-IsSound s more room silent h =
      let unsettled : settled s.pending_error ≡ false = ground (arith, h.no_more) in
      let here = h.all_so_far unsettled in
      let longer : length (s.requested ++ s.next_idx ∷ []) ≡ suc (length s.requested) =
        omega (arith, length-append s.requested (s.next_idx ∷ [])) in
      record {
        ready = record {
          counted = omega (arith, h.counted);
          few = omega arith;
          started = omega (arith, h.started);
          inside = omega arith;
          in_order = rw longer (
              ap (λ xs. xs ++ s.next_idx ∷ []) h.in_order
              ∙ ap (λ n. range (length s.requested) ++ n ∷ []) (sym here));
          no_other = omega (arith, longer, here);
          all_so_far = λ e. omega (arith, longer, here);
          no_more = λ e. absurd (ground (arith, e, unsettled));
        };
        busy = λ a b. omega arith;
        called_once = ground (arith, silent);
      }

  loop_round-IsSound : (s : State E R) → IsSound s → IsSound (loop_round size limit s)
  unfolding loop_round
  loop_round-IsSound s h =
      elim (Bool-cases (ltb s.next_idx (if ltb size limit then size else limit))) [
        | inl e ↦
            rw (e, loop_round)
              (process_next-IsSound s (ground (arith, e)) (ground (arith, e, h.ready.started))
                (ground (arith, e, h.called_once)) h.ready)
        | inr e ↦ rw (e, loop_round) h
      ]

  -- The state after the answer to a call, before anything follows from it.
  abbrev answered_ok : State E R → ℕ → R → State E R
  answered_ok s i res = record s {
    n_pending_requests = s.n_pending_requests - 1;
    results = put s.results i res;
    waiting = remove_first s.waiting i;
  }

  answered_ok-IsReady :
      (s : State E R) (i : ℕ) (res : R)
      → contains s.waiting i ≡ true
      → IsSound s
      → IsReady (answered_ok s i res)
  answered_ok-IsReady s i res mine h =
      let fewer = length-remove_first s.waiting i mine in
      record {
        counted = omega (arith, fewer, h.ready.counted);
        few = omega (arith, h.ready.few);
        started = omega (arith, h.ready.started);
        inside = h.ready.inside;
        in_order = h.ready.in_order;
        no_other = h.ready.no_other;
        all_so_far = h.ready.all_so_far;
        no_more = h.ready.no_more;
      }

  -- The end of an answer after which nothing new is begun.
  call_back-IsSound :
      (s : State E R)
      → s.next_idx ≡ size
      → length s.called ≡ 0
      → IsReady s
      → IsSound (if s.n_pending_requests == 0 then call_back size limit s else s)
  unfolding call_back
  call_back-IsSound s all silent h = elim (Bool-cases (s.n_pending_requests == 0)) [
    | inl e ↦ rw e (record {
      ready = record {
        counted = h.counted;
        few = h.few;
        started = h.started;
        inside = h.inside;
        in_order = h.in_order;
        no_other = h.no_other;
        all_so_far = h.all_so_far;
        no_more = h.no_more;
      };
      busy = λ a b. omega (arith, all);
      called_once =
          ground
            (arith, e, silent, all, length-append s.called ((s.pending_error, s.results) ∷ []));
    })
    | inr e ↦ rw e (record {
      ready = h;
      busy = λ a b. omega (arith, all);
      called_once = ground (arith, e, silent);
    })
  ]

  on_answer-IsSound :
      (s : State E R) (i : ℕ) (err : Option E) (res : R)
      → contains s.waiting i ≡ true
      → IsSound s
      → IsSound (on_answer size limit s i err res)
  unfolding on_answer
  on_answer-IsSound s i none res mine h =
      let fewer = length-remove_first s.waiting i mine in
      let silent : length s.called ≡ 0 = ground (arith, h.called_once, h.ready.counted, fewer) in
      elim (Bool-cases (ltb s.next_idx size)) [
        | inl e ↦
            rw (e, on_answer)
              (process_next-IsSound (answered_ok s i res) (ground (arith, e))
                (omega (arith, fewer, h.ready.counted, h.ready.few)) silent
                (answered_ok-IsReady s i res mine h))
        | inr e ↦
            rw (e, on_answer)
              (call_back-IsSound (answered_ok s i res) (ground (arith, e, h.ready.inside)) silent
                (answered_ok-IsReady s i res mine h))
      ]
  on_answer-IsSound s i (some err) res mine h =
      let fewer = length-remove_first s.waiting i mine in
      let after = answered_ok-IsReady s i res mine h in
      call_back-IsSound _ refl (ground (arith, h.called_once, h.ready.counted, fewer)) (record {
        counted = after.counted;
        few = after.few;
        started = omega (arith, after.started, after.inside);
        inside = omega arith;
        in_order = after.in_order;
        no_other = omega (arith, after.no_other, after.inside);
        all_so_far = λ e. absurd (ground (arith, e));
        no_more = λ e. refl;
      })

  module _ (iteratee : ℕ → Option E × R) where
    pub act-IsSound :
        (s : State E R) (a : Action) → IsSound s → IsSound (act size limit iteratee s a)
    unfolding act
    act-IsSound s looped h = loop_round-IsSound s h
    act-IsSound s (answered i) h = elim (Bool-cases (contains s.waiting i)) [
      | inl e ↦ rw (e, act) (on_answer-IsSound s i (iteratee i).0 (iteratee i).1 e h)
      | inr e ↦ rw (e, act) h
    ]

    pub acts-IsSound :
        (s : State E R) (run : List Action) → IsSound s → IsSound (acts size limit iteratee s run)
    acts-IsSound s [] h = h
    acts-IsSound s (a ∷ rest) h =
        acts-IsSound (act size limit iteratee s a) rest (act-IsSound s a h)
