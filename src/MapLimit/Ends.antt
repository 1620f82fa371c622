-- ===== src/MapLimit/Ends.antt =====
-- lib/util/mapLimitWaitPendingIfError.js: the end of a run, and the callback.
use backbeat.Base.{
  ℕ, zero, suc, ◌+◌, ◌-◌, ◌*◌, ◌≤◌, ◌<◌, ◌≡◌, ◌∙◌, ◌⊎◌, refl, sym, subst, inl, inr, true, not, ◌&&◌,
  Option, none, some, List, [], ◌∷◌, arith, ltb, length, contains, ◌==◌, nat_eq, nat_beq_iff,
  Bool-cases, ap,
}
use backbeat.Base.Assoc.{Assoc, get}
use backbeat.Base.Increasing.{contains-append_one}
use backbeat.MapLimit.{
  State, Action, looped, answered, start, process_next, call_back, loop_round, on_answer, act, acts,
}
use backbeat.MapLimit.Calls.{
  range, IsSound, start-IsSound, acts-IsSound, settled, length-remove_first,
}
use backbeat.MapLimit.Known.{IsKnown, start-IsKnown, acts-IsKnown}

contains-range : (n i : ℕ) → i < n → contains (range n) i ≡ true
unfolding contains
contains-range zero i h = absurd (omega arith)
contains-range (suc n) i h =
    ground (arith, contains-append_one (range n) n i, contains-range n i, nat_beq_iff i n)

module _ {E R : Type 0} (size limit : ℕ) (iteratee : ℕ → Option E × R) (run : List Action) where
  abbrev pub after : State E R
  after = acts size limit iteratee (start size limit) run

  after-IsSound : IsSound size limit after
  after-IsSound = acts-IsSound size limit iteratee (start size limit) run (start-IsSound size limit)

  after-IsKnown : IsKnown size limit iteratee after
  after-IsKnown =
      acts-IsKnown size limit iteratee (start size limit) run (start-IsSound size limit)
        (start-IsKnown size limit iteratee)

  -- However rounds of the loop and answers follow one another, never more calls of the iteratee wait
  -- for their answers than the limit, the calls that were made are those of the first items, each made
  -- once and in order, and the callback is called at most once.
  pub acts-bounds :
      (length after.waiting ≤ limit)
      × (after.requested ≡ range (length after.requested))
      × (length after.requested ≤ size)
      × (length after.called ≤ 1)
  acts-bounds =
      let h = after-IsSound in
      (
        omega (arith, h.ready.few, h.ready.counted),
        h.ready.in_order,
        omega (arith, h.ready.no_other, h.ready.inside),
        ground (arith, h.called_once),
      )

  module _ (e : Option E) (results : Assoc ℕ R) (called : after.called ≡ (e, results) ∷ []) where
    -- When the callback has been called, with an error or not, no call of the iteratee is under way, and
    -- the results that it was called with hold that of every call that was made.
    pub callback_complete :
        (after.waiting ≡ [])
        × ((i : ℕ) → contains after.requested i ≡ true → get results i ≡ some (iteratee i).1)
    unfolding contains
    callback_complete =
        let h = after-IsKnown in
        let (same_error, same, idle) = h.reported e results called in
        (idle, λ i asked. rw same (h.known i asked (ground (arith, idle))))

    -- If the callback was called without an error, the iteratee was called for every item, and none of
    -- its answers was an error.
    pub callback-ok :
        e ≡ none
        → (i : ℕ) → i < size
        → ((iteratee i).0 ≡ none) × (get results i ≡ some (iteratee i).1)
    unfolding contains
    callback-ok ok i less =
        let h = after-IsKnown in
        let v = after-IsSound in
        let (same_error, same, idle) = h.reported e results called in
        let asked : contains after.requested i ≡ true =
          subst (λ xs. contains xs i ≡ true) (sym v.ready.in_order)
            (contains-range (length after.requested) i (
              ground (
                arith,
                less,
                ap settled (sym same_error ∙ ok),
                v.ready.all_so_far,
                ap length called,
                v.called_once,
              ))) in
        (h.clean i (sym same_error ∙ ok) asked (ground (arith, idle)), callback_complete.1 i asked)

    -- If the callback was called with an error, this is the error of one of the calls that were made.
    pub callback-error :
        (err : E)
        → e ≡ some err
        → (i : ℕ) × (contains after.requested i ≡ true) × ((iteratee i).0 ≡ some err)
    callback-error err bad =
        let h = after-IsKnown in h.culprit err (sym (h.reported e results called).0 ∙ bad)

module _ {E R : Type 0} (size limit : ℕ) (iteratee : ℕ → Option E × R) where
  -- What is left to do.
  abbrev pub measure : State E R → ℕ
  measure s = 2 * (size - s.next_idx) + length s.waiting

  on_answer-measure :
      (s : State E R) (i : ℕ) (err : Option E) (res : R)
      → contains s.waiting i ≡ true
      → IsSound size limit s
      → measure (on_answer size limit s i err res) < measure s
  unfolding on_answer process_next call_back
  on_answer-measure s i none res mine h =
      ground (arith, length-remove_first s.waiting i mine, h.ready.inside)
  on_answer-measure s i (some err) res mine h =
      ground (arith, length-remove_first s.waiting i mine, h.ready.inside)

  act-measure_le :
      (s : State E R) (a : Action)
      → IsSound size limit s
      → measure (act size limit iteratee s a) ≤ measure s
  unfolding act loop_round process_next
  act-measure_le s looped h = ground arith
  act-measure_le s (answered i) h = elim (Bool-cases (contains s.waiting i)) [
    | inl e ↦ rw (e, act) (omega (arith, on_answer-measure s i (iteratee i).0 (iteratee i).1 e h))
    | inr e ↦ rw (e, act) (omega arith)
  ]

  progress :
      (s : State E R) (w : List ℕ)
      → s.waiting ≡ w
      → 0 < limit
      → IsSound size limit s
      → s.called ≡ []
      → (a : Action) × (measure (act size limit iteratee s a) < measure s)
  unfolding act loop_round process_next contains
  progress s [] idle pos h silent =
      (looped, ground (arith, idle, silent, h.called_once, h.busy, h.ready.counted))
  progress s (i ∷ w) there pos h silent =
      let mine : contains s.waiting i ≡ true = ground (arith, there, nat_beq_iff i i) in
      (answered i, rw (mine, act) (on_answer-measure s i (iteratee i).0 (iteratee i).1 mine h))

  -- The callback is called, whenever the limit is not 0 and answers come: as long as it has not been,
  -- some action lowers the number of actions that are left, and no action raises it.
  pub acts-progress :
      (run : List Action)
      → 0 < limit
      → (let s = after size limit iteratee run in
          (((a : Action) × (measure (act size limit iteratee s a) < measure s))
            ⊎ (length s.called ≡ 1))
          × ((a : Action) → measure (act size limit iteratee s a) ≤ measure s))
  acts-progress run pos =
      let s = after size limit iteratee run in
      let h = after-IsSound size limit iteratee run in
      (
        elim (Bool-cases ((s.n_pending_requests == 0) && not (ltb s.next_idx size))) [
          | inl e ↦ inr (ground (arith, e, h.called_once))
          | inr e ↦ inl (progress s s.waiting refl pos h (ground (arith, e, h.called_once)))
        ],
        λ a. act-measure_le s a h,
      )
