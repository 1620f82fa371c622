-- ===== src/MapLimit/Tests.antt =====
-- Three items, two at a time, and the theorems at them.
use backbeat.Base.{
  ℕ, ◌+◌, ◌≤◌, ◌<◌, ◌≡◌, ◌⊎◌, refl, true, Option, none, some, List, [], ◌∷◌, arith, length,
  contains, if◌then◌else◌, ◌==◌, nat_eq,
}
use backbeat.Base.Assoc.{Assoc, get, put}
use backbeat.MapLimit.{
  Action, looped, answered, start, process_next, call_back, loop_round, on_answer, remove_first,
  act,
}
use backbeat.MapLimit.Calls.{range}
use backbeat.MapLimit.Ends.{after, acts-bounds, callback_complete, measure, acts-progress}

abbrev doubles : ℕ → Option ℕ × ℕ
doubles i = (none, i + i)

abbrev second_fails : ℕ → Option ℕ × ℕ
second_fails i = (if i == 1 then some 7 else none, i + i)

-- The third item is begun when the first call has answered.
abbrev in_turn : List Action
in_turn = looped ∷ looped ∷ answered 0 ∷ looped ∷ answered 2 ∷ answered 1 ∷ []

abbrev results : Assoc ℕ ℕ
results = (0, 0) ∷ (2, 4) ∷ (1, 2) ∷ []

-- After the error of the second call the third item is not begun.
abbrev early : List Action
early = looped ∷ looped ∷ answered 1 ∷ answered 0 ∷ []

abbrev first_two : Assoc ℕ ℕ
first_two = (1, 2) ∷ (0, 0) ∷ []

called_in_turn : (after 3 2 doubles in_turn).called ≡ (none, results) ∷ []
unfolding start act loop_round process_next on_answer remove_first contains put call_back
called_in_turn = refl

called_early : (after 3 2 second_fails early).called ≡ (some 7, first_two) ∷ []
unfolding start act loop_round process_next on_answer remove_first contains put call_back
called_early = refl

acts-bounds_example :
    (length (after 3 2 doubles in_turn).waiting ≤ 2)
    × ((after 3 2 doubles in_turn).requested ≡ range (length (after 3 2 doubles in_turn).requested))
    × (length (after 3 2 doubles in_turn).requested ≤ 3)
    × (length (after 3 2 doubles in_turn).called ≤ 1)
acts-bounds_example = acts-bounds 3 2 doubles in_turn

callback_complete_example :
    ((after 3 2 second_fails early).waiting ≡ [])
    × ((i : ℕ)
        → contains (after 3 2 second_fails early).requested i ≡ true
        → get first_two i ≡ some (second_fails i).1)
callback_complete_example = callback_complete 3 2 second_fails early (some 7) first_two called_early

acts-progress_example :
    (let s = after 3 2 doubles in_turn in
      (((a : Action) × (measure 3 2 doubles (act 3 2 doubles s a) < measure 3 2 doubles s))
        ⊎ (length s.called ≡ 1))
      × ((a : Action) → measure 3 2 doubles (act 3 2 doubles s a) ≤ measure 3 2 doubles s))
acts-progress_example = acts-progress 3 2 doubles in_turn (omega arith)
