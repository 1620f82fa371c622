-- ===== src/Retry/Ends.antt =====
-- A call of `retry` whose action answers each of its calls once: it ends, and with which answer.
use backbeat.Base.{
  ℕ, zero, suc, ◌+◌, ◌*◌, ◌≤◌, ◌<◌, ◌≡◌, Bool, false, Option, none, some, refl, arith, leb, leb→lt,
  ◌⊎◌, Bool-cases, inl, inr, sym, subst, ◌==◌, nat_eq, nat_beq_iff,
}
use backbeat.Retry.{
  RetryParams, Args, begin, Failure, Answer, success, failed, Retry, Step, called, ignored, again,
  handle_res, done_once, on_failure, give_up, timeout_reached, mark_retryable,
}
use backbeat.Retry.Bounds.{lt_of_going_on}

-- What `done` was called with, and after how many retries.
pub record Ended (R : Type 0) : Type 0 where
  pub answer : Answer R
  pub retries : ℕ

-- An error is marked before it is passed on.
abbrev pub passed : {R : Type 0} → Answer R → Answer R
passed (success x) = success x
passed (failed err) = failed (mark_retryable err)

abbrev pub IsFailed : {R : Type 0} → Answer R → Type 0
IsFailed (success _) = ⊥
IsFailed (failed _) = Unit

-- Going on before the timeout, or at the first failure.
early_of_going_on :
    (r : Retry) (now start : ℕ)
    → r.start_time ≡ some start
    → give_up r now ≡ false
    → (r.nb_retries ≡ 0) ⊎ (now < start + r.timeout_s * 1000)
unfolding give_up timeout_reached
early_of_going_on r now start e g = elim (Bool-cases (leb (start + r.timeout_s * 1000) now)) [
  | inl late ↦ inl (ground (arith, rw (e, timeout_reached) at g))
  | inr early ↦ inr (leb→lt _ _ early)
]

less_of_early : (n k least : ℕ) → (n ≡ 0) ⊎ (n * least < suc k * least) → n < suc k
less_of_early n k least (inl e) = omega arith
less_of_early n k least (inr h) = grind arith

-- The answers of the action, the time until each, and the delays.
module _ {S R : Type 0} (should_retry : S → Failure → Bool) (on_retry : S → Failure → S)
    (answer : ℕ → Answer R) (elapsed duration : ℕ → ℕ) where
  conclude : Step S R → ℕ → (S → Retry → Option (Ended R)) → Option (Ended R)
  conclude step retries run = elim step.outcome [
    | called a ↦ some (record { answer = a; retries = retries })
    | ignored ↦ none
    | again ↦ run step.shared step.retry
  ]

  -- The action is called at a time; fuel counts its calls.
  unfoldable pub run_from : ℕ → S → Retry → ℕ → Option (Ended R)
  unfolding conclude
  run_from zero s r now = none
  run_from (suc fuel) s r now =
      let t = now + elapsed r.nb_retries in
      conclude (handle_res should_retry on_retry s r t (answer r.nb_retries)) r.nb_retries
        λ s' r'. run_from fuel s' r' (t + duration r.nb_retries)

  -- It ends by `m` retries, with the answer of the last call, and those before failed.
  abbrev pub EndsBy : ℕ → ℕ → Option (Ended R) → Type 0
  EndsBy m from result =
      (e : Ended R) × (result ≡ some e)
      × (e.retries ≤ m)
      × (e.answer ≡ passed (answer e.retries))
      × ((j : ℕ) → from ≤ j → j < e.retries → IsFailed (answer j))

  stops :
      (m fuel : ℕ) (s : S) (r : Retry) (now : ℕ)
      → r.nb_retries ≤ m
      → r.cb_called ≡ false
      → handle_res should_retry on_retry s r (now + elapsed r.nb_retries) (answer r.nb_retries)
        ≡ done_once s r (passed (answer r.nb_retries))
      → EndsBy m r.nb_retries (run_from (suc fuel) s r now)
  unfolding run_from done_once
  stops m fuel s r now less first e = (
    record { answer = passed (answer r.nb_retries); retries = r.nb_retries },
    rw e (rw (first, done_once) refl),
    less,
    refl,
    λ j a b. absurd (omega arith),
  )

  abbrev retried : Retry → Retry
  retried r = record r { nb_retries = r.nb_retries + 1 }

  goes_on :
      (m fuel : ℕ) (s : S) (r : Retry) (now : ℕ) (err : Failure)
      → answer r.nb_retries ≡ failed err
      → handle_res should_retry on_retry s r (now + elapsed r.nb_retries) (answer r.nb_retries)
        ≡ record { shared = on_retry s (mark_retryable err); retry = retried r; outcome = again }
      → EndsBy m (r.nb_retries + 1) (
          run_from fuel
            (on_retry s (mark_retryable err))
            (retried r)
            (now + elapsed r.nb_retries + duration r.nb_retries))
      → EndsBy m r.nb_retries (run_from (suc fuel) s r now)
  unfolding run_from
  goes_on m fuel s r now err is e (last, ends, less, same, before) = (
    last,
    rw e ends,
    less,
    same,
    λ j a b. elim (Bool-cases (j == r.nb_retries)) [
      | inl i ↦ subst (λ k. IsFailed (answer k)) (sym ((nat_beq_iff j r.nb_retries).0 i)) (rw is tt)
      | inr i ↦ before j (ground (arith, i)) b
    ],
  )

  -- `Enough` is what the fuel is enough for.
  module _ (m : ℕ) (Enough : ℕ → Retry → ℕ → Type 0)
      (not_zero : (r : Retry) (now : ℕ) → Enough 0 r now → ⊥)
      (few : (fuel : ℕ) (r : Retry) (now : ℕ) → Enough fuel r now → r.nb_retries ≤ m)
      (keep : (fuel : ℕ) (r : Retry) (now : ℕ)
        → Enough (suc fuel) r now
        → give_up r (now + elapsed r.nb_retries) ≡ false
        → Enough fuel (retried r) (now + elapsed r.nb_retries + duration r.nb_retries)) where
    ends :
        (fuel : ℕ) (s : S) (r : Retry) (now : ℕ)
        → Enough fuel r now
        → r.cb_called ≡ false
        → (a : Answer R) → answer r.nb_retries ≡ a
        → EndsBy m r.nb_retries (run_from fuel s r now)
    unfolding handle_res on_failure
    ends zero s r now h first a is = absurd (not_zero r now h)
    ends (suc fuel) s r now h first (success x) is =
        stops m fuel s r now (few (suc fuel) r now h) first (rw is refl)
    ends (suc fuel) s r now h first (failed err) is =
        let err' = mark_retryable err in
        let t = now + elapsed r.nb_retries in
        let less = few (suc fuel) r now h in
        elim (Bool-cases (should_retry s err')) [
          | inr e ↦ stops m fuel s r now less first (rw (is, handle_res) (rw (e, on_failure) refl))
          | inl e ↦ elim (Bool-cases (give_up r t)) [
            | inl g ↦
                stops m fuel s r now less first (rw (is, handle_res) (rw (e, g, on_failure) refl))
            | inr g ↦
                goes_on m fuel s r now err is (rw (is, handle_res) (rw (e, g, on_failure) refl)) (
                  ends fuel (on_retry s err') (retried r) (t + duration r.nb_retries)
                    (keep fuel r now h g) first (answer (r.nb_retries + 1)) refl)
          ]
        ]

  -- Let the arguments of a call of `retry` say a number of retries that is not 0, and let the action
  -- answer each of its calls. Then the call ends, by that number of retries. `done` is called with the
  -- last answer, a network error being marked first, and all answers before the last are errors.
  pub max_ends :
      (s : S) (params : RetryParams) (args : Args) (now m : ℕ)
      → args.max_retries ≡ some (suc m)
      → EndsBy (suc m) 0 (run_from (suc m + 1) s (begin params args now) now)
  unfolding begin
  max_ends s params args now m e =
      ends (suc m)
        (λ fuel r t.
          (r.max_retries ≡ some (suc m)) × (r.nb_retries ≤ suc m) × (suc m < r.nb_retries + fuel))
        (λ r t h. omega arith) (λ fuel r t h. h.1)
        (λ fuel r t h going_on.
          let less = lt_of_going_on r (t + elapsed r.nb_retries) (suc m) h.0 going_on in
          (h.0, omega arith, omega arith))
        (suc m + 1) s (begin params args now) now (rw (e, begin) refl, omega arith, omega arith)
        refl (answer 0) refl

  -- Let a call of `retry` have a timeout, which delays of `least` reach in `suc k` of them, and let no
  -- delay be shorter. If the action answers each of its calls, the call ends by `suc k` retries, also
  -- where no number of retries is said. `done` is called with the last answer, a network error being
  -- marked first, and all answers before the last are errors.
  pub timeout_ends :
      (s : S) (params : RetryParams) (args : Args) (now least k : ℕ)
      → args.no_timeout ≡ false
      → params.timeout_s * 1000 ≤ suc k * least
      → ((j : ℕ) → least ≤ duration j)
      → EndsBy (suc k) 0 (run_from (suc k + 1) s (begin params args now) now)
  unfolding begin
  timeout_ends s params args now least k e enough slow =
      ends (suc k)
        (λ fuel r t.
          (r.start_time ≡ some now)
          × (r.timeout_s ≡ params.timeout_s)
          × (r.nb_retries ≤ suc k)
          × (suc k < r.nb_retries + fuel)
          × (now + r.nb_retries * least ≤ t))
        (λ r t h. omega arith) (λ fuel r t h. h.2)
        (λ fuel r t h going_on.
          let less : r.nb_retries < suc k =
            less_of_early r.nb_retries k least
              (elim (early_of_going_on r (t + elapsed r.nb_retries) now h.0 going_on) [
                | inl z ↦ inl z
                | inr early ↦ inr (ground (arith, early, h.1, h.2, enough))
              ]) in
          (h.0, h.1, omega arith, omega arith, grind (arith, slow r.nb_retries)))
        (suc k + 1) s (begin params args now) now
        (rw (e, begin) refl, refl, omega arith, omega arith, omega arith) refl (answer 0) refl
