-- ===== src/MapLimit/Known.antt =====
-- What is known of the calls while they are under way.
use backbeat.Base.{
  ℕ, ◌-◌, ◌≡◌, ◌∙◌, refl, inl, inr, true, false, Option, none, some, List, [], ◌∷◌, arith, ltb,
  if◌then◌else◌, length, contains, ◌==◌, nat_eq, nat_beq_iff, Bool-cases, Option-cases, ap, subst,
}
use backbeat.Base.Assoc.{Assoc, get, put, get-put}
use backbeat.Base.Increasing.{contains-append_one}
use backbeat.MapLimit.{
  State, Action, looped, answered, start, process_next, call_back, loop_round, on_answer,
  remove_first, act, acts,
}
use backbeat.MapLimit.Calls.{IsSound, act-IsSound, length-remove_first}

contains-remove_first :
    (xs : List ℕ) (i j : ℕ) → (i == j) ≡ false → contains (remove_first xs i) j ≡ contains xs j
unfolding remove_first contains
contains-remove_first [] i j ne = refl
contains-remove_first (x ∷ xs) i j ne =
    ground
      (arith, ne, contains-remove_first xs i j, nat_beq_iff x i, nat_beq_iff j x, nat_beq_iff i j)

contains-of_remove_first :
    (xs : List ℕ) (i j : ℕ) → contains (remove_first xs i) j ≡ true → contains xs j ≡ true
unfolding remove_first contains
contains-of_remove_first [] i j h = h
contains-of_remove_first (x ∷ xs) i j h = ground (arith, h, contains-of_remove_first xs i j)

module _ {E R : Type 0} (size limit : ℕ) (iteratee : ℕ → Option E × R) where
  -- What was asked for is waited for or known, and errors are neither lost nor made up.
  pub record IsKnown (s : State E R) : Type 0 where
    pub asked : (i : ℕ) → contains s.waiting i ≡ true → contains s.requested i ≡ true
    pub known :
        (i : ℕ)
        → contains s.requested i ≡ true
        → contains s.waiting i ≡ false
        → get s.results i ≡ some (iteratee i).1
    pub clean :
        (i : ℕ)
        → s.pending_error ≡ none
        → contains s.requested i ≡ true
        → contains s.waiting i ≡ false
        → (iteratee i).0 ≡ none
    pub culprit :
        (e : E)
        → s.pending_error ≡ some e
        → (i : ℕ) × (contains s.requested i ≡ true) × ((iteratee i).0 ≡ some e)
    pub reported :
        (e : Option E) (r : Assoc ℕ R)
        → s.called ≡ (e, r) ∷ []
        → (e ≡ s.pending_error) × (r ≡ s.results) × (s.waiting ≡ [])

  pub start-IsKnown : IsKnown (start size limit)
  unfolding start contains
  start-IsKnown = record {
    asked = λ i a. absurd (ground (arith, a));
    known = λ i a b. absurd (ground (arith, a));
    clean = λ i e a b. absurd (ground (arith, a));
    culprit = λ e h. absurd (ground (arith, h));
    reported = λ e r h. ground (arith, h);
  }

  process_next-IsKnown :
      (s : State E R) → s.called ≡ [] → IsKnown s → IsKnown (process_next size limit s)
  unfolding process_next contains
  process_next-IsKnown s silent h = record {
    asked = λ i a. ground (arith, a, h.asked i, contains-append_one s.requested s.next_idx i);
    known = λ i a b.
        h.known i (ground (arith, a, b, contains-append_one s.requested s.next_idx i))
          (ground (arith, b));
    clean = λ i e a b.
        h.clean i e (ground (arith, a, b, contains-append_one s.requested s.next_idx i))
          (ground (arith, b));
    culprit = λ e p.
        (let (i, asked, bad) = h.culprit e p in
          (i, ground (arith, asked, contains-append_one s.requested s.next_idx i), bad));
    reported = λ e r c. absurd (ground (arith, silent, c));
  }

  -- The answer to the call with the index `i`.
  abbrev took : State E R → ℕ → ℕ → Option E → State E R
  took s i n err = record s {
    n_pending_requests = s.n_pending_requests - 1;
    results = put s.results i (iteratee i).1;
    waiting = remove_first s.waiting i;
    next_idx = n;
    pending_error = err;
  }

  took-known :
      (s : State E R) (i n : ℕ) (err : Option E)
      → IsKnown s
      → (j : ℕ) → contains s.requested j ≡ true
      → contains (remove_first s.waiting i) j ≡ false
      → get (put s.results i (iteratee i).1) j ≡ some (iteratee j).1
  took-known s i n err h j a b = elim (Bool-cases (i == j)) [
    | inl e ↦
        get-put s.results i j (iteratee i).1
        ∙ rw e (ap (λ k. some (iteratee k).1) (ground (arith, e)))
    | inr e ↦
        get-put s.results i j (iteratee i).1
        ∙ rw e (h.known j a (ground (arith, b, contains-remove_first s.waiting i j e)))
  ]

  took_ok-IsKnown :
      (s : State E R) (i : ℕ)
      → s.called ≡ []
      → (iteratee i).0 ≡ none
      → IsKnown s
      → IsKnown (took s i s.next_idx s.pending_error)
  took_ok-IsKnown s i silent ok h = record {
    asked = λ j a. h.asked j (contains-of_remove_first s.waiting i j a);
    known = took-known s i s.next_idx s.pending_error h;
    clean = λ j e a b. elim (Bool-cases (i == j)) [
      | inl same ↦ subst (λ k. (iteratee k).0 ≡ none) (ground (arith, same)) ok
      | inr ne ↦ h.clean j e a (ground (arith, b, contains-remove_first s.waiting i j ne))
    ];
    culprit = h.culprit;
    reported = λ e r c. absurd (ground (arith, silent, c));
  }

  took_error-IsKnown :
      (s : State E R) (i : ℕ) (err : E)
      → s.called ≡ []
      → contains s.requested i ≡ true
      → (iteratee i).0 ≡ some err
      → IsKnown s
      → IsKnown (took s i size (elim s.pending_error [ none ↦ some err | some first ↦ some first ]))
  took_error-IsKnown s i err silent asked bad h = record {
    asked = λ j a. h.asked j (contains-of_remove_first s.waiting i j a);
    known = took-known s i size s.pending_error h;
    clean = λ j e a b. absurd (ground (arith, e));
    culprit = λ e p. elim (Option-cases s.pending_error) [
      | inl none_yet ↦ (i, asked, bad ∙ ground (arith, p, none_yet))
      | inr (first, there) ↦ h.culprit e (ground (arith, p, there))
    ];
    reported = λ e r c. absurd (ground (arith, silent, c));
  }

  call_back-IsKnown :
      (s : State E R)
      → s.called ≡ []
      → s.n_pending_requests ≡ length s.waiting
      → IsKnown s
      → IsKnown (if s.n_pending_requests == 0 then call_back size limit s else s)
  unfolding call_back
  call_back-IsKnown s silent counted h = elim (Bool-cases (s.n_pending_requests == 0)) [
    | inr e ↦ rw e h
    | inl e ↦ rw e (record {
      asked = h.asked;
      known = h.known;
      clean = h.clean;
      culprit = h.culprit;
      reported = λ x r c. ground (arith, silent, c, e, counted);
    })
  ]

  on_answer-IsKnown :
      (s : State E R) (i : ℕ) (err : Option E)
      → (iteratee i).0 ≡ err
      → contains s.waiting i ≡ true
      → IsSound size limit s
      → IsKnown s
      → IsKnown (on_answer size limit s i err (iteratee i).1)
  unfolding on_answer
  on_answer-IsKnown s i none same mine sound h =
      let fewer = length-remove_first s.waiting i mine in
      let silent : s.called ≡ [] = ground (arith, sound.called_once, sound.ready.counted, fewer) in
      let after = took_ok-IsKnown s i silent same h in
      elim (Bool-cases (ltb s.next_idx size)) [
        | inl e ↦ rw (e, on_answer) (process_next-IsKnown _ silent after)
        | inr e ↦
            rw (e, on_answer)
              (call_back-IsKnown _ silent (omega (arith, fewer, sound.ready.counted)) after)
      ]
  on_answer-IsKnown s i (some err) same mine sound h =
      let fewer = length-remove_first s.waiting i mine in
      let silent : s.called ≡ [] = ground (arith, sound.called_once, sound.ready.counted, fewer) in
      call_back-IsKnown _ silent (omega (arith, fewer, sound.ready.counted))
        (took_error-IsKnown s i err silent (h.asked i mine) same h)

  act-IsKnown :
      (s : State E R) (a : Action)
      → IsSound size limit s
      → IsKnown s
      → IsKnown (act size limit iteratee s a)
  unfolding act loop_round
  act-IsKnown s looped sound h =
      elim (Bool-cases (ltb s.next_idx (if ltb size limit then size else limit))) [
        | inl e ↦
            rw (e, loop_round) (process_next-IsKnown s (ground (arith, e, sound.called_once)) h)
        | inr e ↦ rw (e, loop_round) h
      ]
  act-IsKnown s (answered i) sound h = elim (Bool-cases (contains s.waiting i)) [
    | inl e ↦ rw (e, act) (on_answer-IsKnown s i (iteratee i).0 refl e sound h)
    | inr e ↦ rw (e, act) h
  ]

  pub acts-IsKnown :
      (s : State E R) (run : List Action)
      → IsSound size limit s
      → IsKnown s
      → IsKnown (acts size limit iteratee s run)
  acts-IsKnown s [] sound h = h
  acts-IsKnown s (a ∷ rest) sound h =
      acts-IsKnown (act size limit iteratee s a) rest (act-IsSound size limit iteratee s a sound)
        (act-IsKnown s a sound h)
