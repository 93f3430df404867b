-- ===== src/SharedTypes/Progress/Ladder.antt =====
-- The mastery ladder: what decides a rung, and how the rungs compare.
use linuxpracticelab.Common.{ℕ, ◌^◌, ◌≤◌, ◌<◌, ◌≡◌, ◌≢◌, ◌↔◌, Bool, true, false, not, ◌||◌, arith}
use linuxpracticelab.SharedTypes.Float.{
  Float64, percent_of_mono, percent_of-le-hundred, percent_of_self,
}
use linuxpracticelab.SharedTypes.Progress.{
  MasteryStatus, rank, evaluate, score, needs_revisiting, ModuleProgress, completion_percent,
}

-- An attempt comes back for review exactly if it failed or the solution was shown, whatever the
-- number of hints opened and whether or not it was an assessment.
pub needs_revisiting-evaluate :
    (pass is_assessment : Bool) (hints : ℕ) (revealed : Bool)
    → needs_revisiting (evaluate pass is_assessment hints revealed) ≡ not pass || revealed
unfolding needs_revisiting evaluate
needs_revisiting-evaluate pass is_assessment hints revealed = ground arith

-- Opening more hints, or the solution, never raises the rung of an attempt.
pub evaluate_antitone :
    (pass is_assessment : Bool) (h h' : ℕ) (r r' : Bool)
    → h ≤ h'
    → (r ≡ true → r' ≡ true)
    → rank (evaluate pass is_assessment h' r') ≤ rank (evaluate pass is_assessment h r)
unfolding evaluate
evaluate_antitone p a h h' true true le imp = ground arith
evaluate_antitone p a h h' true false le imp = ground (arith, imp)
evaluate_antitone p a h h' false true le imp = ground arith
evaluate_antitone p a h h' false false le imp = ground arith

-- The score and the ladder order the rungs alike.
pub score_le_iff : (m n : MasteryStatus) → (score m ≤ score n) ↔ (rank m ≤ rank n)
unfolding score
score_le_iff m n = ground arith

pub score-le-hundred : (m : MasteryStatus) → score m ≤ 100
unfolding score
score-le-hundred m = ground arith

-- A module's completion is at most 100 percent while no more lessons are completed than it has,
-- it is 100 percent once all of its lessons are completed, and completing a further lesson never
-- lowers it.
pub completion_percent_bounds :
    (fl : Float64) (p : ModuleProgress) (more : ℕ)
    → p.completed_lessons ≤ more
    → more ≤ p.total_lessons
    → p.total_lessons < 2 ^ 32
    → (completion_percent fl p ≤ completion_percent fl (record p { completed_lessons = more }))
      × (completion_percent fl p ≤ 100)
      × (p.total_lessons ≢ 0
          → completion_percent fl (record p { completed_lessons = p.total_lessons }) ≡ 100)
unfolding completion_percent
completion_percent_bounds fl p more a b c = (
  ground (arith, percent_of_mono fl p.completed_lessons more p.total_lessons),
  ground (arith, percent_of-le-hundred fl p.completed_lessons p.total_lessons),
  λ h. ground (arith, percent_of_self fl p.total_lessons),
)
