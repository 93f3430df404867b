-- ===== src/LessonEngine/Hints/Reveal.antt =====
-- Hints come one at a time, in the order of the task, and stop.
use Prim.Native.String.{String}
use linuxpracticelab.Common.{
  ℕ, zero, suc, ◌+◌, ◌-◌, ◌≤◌, ◌<◌, ◌≡◌, ◌↔◌, true, some, List, [], ◌∷◌, length, get_or, get_elem?,
  take, ◌==◌, is_empty_of_lt, le→leb, lt→leb_false, is_empty, arith, refl, ap, Bool-cases, inl, inr,
}
use mathlib.Core.Path.{subst}
use native.Mathlib.Decide.{dec_lt}
use linuxpracticelab.SharedTypes.Lesson.{Task}
use linuxpracticelab.LessonEngine.Hints.{
  AttemptState, HintReveal, HintOutcome, hint, solution_available, reveal_next_hint,
}

-- Requests `n` hints in a row, hints being allowed, and collects the outcomes.
unfoldable pub reveal_times : ℕ → Task → AttemptState → List HintOutcome × AttemptState
reveal_times zero task s = ([], s)
reveal_times (suc n) task s =
    let (outcome, s') = reveal_next_hint s task true in
    let (outcomes, s'') = reveal_times n task s' in (outcome ∷ outcomes, s'')

-- The texts of the hints among some outcomes.
abbrev pub texts : List HintOutcome → List String
texts [] = []
texts (hint h ∷ os) = h.text ∷ texts os
texts (_ ∷ os) = texts os

take-nil : (n : ℕ) → take {A = String} n [] ≡ []
take-nil zero = refl
take-nil (suc n) = refl

get_elem?-lt : (hs : List String) (i : ℕ) → i < length hs → get_elem? hs i ≡ some (get_or hs i "")
get_elem?-lt [] i h = absurd (omega arith)
get_elem?-lt (x ∷ xs) zero h = refl
get_elem?-lt (x ∷ xs) (suc i) h = get_elem?-lt xs i (omega arith)

-- The hint that a request answers with, while hints are left.
abbrev next_hint : AttemptState → Task → HintReveal
next_hint s task = record {
  index = s.hints_revealed;
  text = get_or task.hints s.hints_revealed "";
  remaining = length task.hints - (s.hints_revealed + 1);
  solution_next = length task.hints - (s.hints_revealed + 1) == 0;
}

abbrev advanced : AttemptState → AttemptState
advanced s = record s { hints_revealed = s.hints_revealed + 1 }

reveal_more :
    (s : AttemptState) (task : Task)
    → s.hints_revealed < length task.hints
    → reveal_next_hint s task true ≡ (hint (next_hint s task), advanced s)
unfolding reveal_next_hint
reveal_more s task h = rw (is_empty_of_lt task.hints s.hints_revealed h, lt→leb_false _ _ h) refl

reveal_done :
    (s : AttemptState) (task : Task)
    → length task.hints ≤ s.hints_revealed
    → reveal_next_hint s task true ≡ (solution_available, s)
unfolding reveal_next_hint
reveal_done s task h = elim (Bool-cases (is_empty task.hints)) [
  | inl e ↦ rw e
  | inr e ↦ rw (e, le→leb _ _ h)
]

next_after :
    (s : AttemptState) (task : Task)
    → ((next_hint s task).solution_next ≡ true)
      ↔ ((reveal_next_hint (advanced s) task true).0 ≡ solution_available)
next_after s task = elim (dec_lt (s.hints_revealed + 1) (length task.hints)) [
  | yes p ↦ (λ e. absurd (ground arith), λ e. cc (reveal_more (advanced s) task p))
  | no p ↦ (
    λ e. ap (λ (x : HintOutcome × AttemptState). x.0) (reveal_done (advanced s) task (omega arith)),
    λ e. ground arith,
  )
]

-- A request that is answered with a hint gives the hint at the index it names, says how many are
-- left after it, and announces the solution exactly if the next request would offer it.
pub reveal_next_hint_lem :
    (s : AttemptState) (task : Task) (h : HintReveal)
    → (reveal_next_hint s task true).0 ≡ hint h
    → (get_elem? task.hints h.index ≡ some h.text)
      × (h.index + 1 + h.remaining ≡ length task.hints)
      × ((h.solution_next ≡ true)
          ↔ ((reveal_next_hint (reveal_next_hint s task true).1 task true).0 ≡ solution_available))
reveal_next_hint_lem s task h e = elim (dec_lt s.hints_revealed (length task.hints)) [
  | no p ↦ cc (reveal_done s task (omega arith))
  | yes p ↦
      let more = reveal_more s task p in
      let same : next_hint s task ≡ h = cc more in
      rw more (
        subst
          (λ (g : HintReveal).
            (get_elem? task.hints g.index ≡ some g.text)
            × (g.index + 1 + g.remaining ≡ length task.hints)
            × ((g.solution_next ≡ true)
                ↔ ((reveal_next_hint (advanced s) task true).0 ≡ solution_available)))
          same (get_elem?-lt task.hints s.hints_revealed p, omega arith, next_after s task))
]
