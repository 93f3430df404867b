-- ===== src/ProgressStore/Lessons/Mastery.antt =====
-- The calls of the store in sequence, and what they may not take away from a learner.
use Prim.Native.String.{String}
use linuxpracticelab.Common.{
  ℕ, ◌≤◌, ◌≡◌, ◌≢◌, ◌⊎◌, All, ◌==◌, ==_iff, inl, inr, Bool, true, false, Option, none, some, List,
  [], ◌∷◌, arith, refl, ap, ◌∙◌, sym, suc, Bool-cases,
}
use linuxpracticelab.Common.Int.{ℤ}
use linuxpracticelab.SharedTypes.Progress.{MasteryStatus, rank}
use linuxpracticelab.ProgressStore.Codes.{mastery_str, stored_codes}
use linuxpracticelab.ProgressStore.Lessons.{
  Row, Rows, Call, start, attempt, hint, reset, reset_profile, complete, call, calls,
  existing_mastery, new_row, at_key, upsert, find_row, start_lesson, record_lesson_attempt,
  add_hint_used, row_mastery, better, best_mastery, complete_lesson, or_now,
}
use linuxpracticelab.ProgressStore.Lessons.Table.{
  KeepsKey, at_key_iff, written, find_row-upsert, find_row-upsert_other,
}

-- A mastery on one scale with its absence.
abbrev pub standing : Option MasteryStatus → ℕ
standing none = 0
standing (some m) = suc (rank m)

-- A later row of the same lesson: nothing that was recorded is taken back.
pub record Follows (r r' : Row) : Type 0 where
  pub mastery_kept : standing (row_mastery r) ≤ standing (row_mastery r')
  pub attempts_kept : r.attempts ≤ r'.attempts
  pub hints_kept : r.hints_used ≤ r'.hints_used
  pub revealed_kept : r.solution_revealed ≡ true → r'.solution_revealed ≡ true
  pub completion_kept : (t : ℤ) → r.completed_at ≡ some t → r'.completed_at ≡ some t
  pub start_kept : r'.first_started_at ≡ r.first_started_at

Follows-refl : (r : Row) → Follows r r
Follows-refl r = record {
  mastery_kept = omega arith;
  attempts_kept = omega arith;
  hints_kept = omega arith;
  revealed_kept = λ h. h;
  completion_kept = λ t h. h;
  start_kept = refl;
}

Follows-trans : (a b c : Row) → Follows a b → Follows b c → Follows a c
Follows-trans a b c f g = record {
  mastery_kept = omega (arith, f.mastery_kept, g.mastery_kept);
  attempts_kept = omega (arith, f.attempts_kept, g.attempts_kept);
  hints_kept = omega (arith, f.hints_kept, g.hints_kept);
  revealed_kept = λ h. g.revealed_kept (f.revealed_kept h);
  completion_kept = λ t h. g.completion_kept t (f.completion_kept t h);
  start_kept = g.start_kept ∙ f.start_kept;
}

-- The row under a key after a change of the table, where there was one before.
abbrev Later : ℕ → String → Row → Rows → Type 0
Later p l r rs = (r' : Row) × (find_row p l rs ≡ some r') × Follows r r'

upsert-Later :
    (fresh : Row) (update : Row → Row)
    → KeepsKey update
    → (p : ℕ) (l : String) (rs : Rows) (r : Row) → find_row p l rs ≡ some r
    → (find_row fresh.profile_id fresh.lesson_id rs ≡ some r → Follows r (update r))
    → Later p l r (upsert fresh update rs)
upsert-Later fresh update keeps p l rs r found follows = elim (Bool-cases (at_key p l fresh)) [
  | inl e ↦
      let (a, b) = (at_key_iff p l fresh).0 e in
      let same : find_row fresh.profile_id fresh.lesson_id rs ≡ some r = rw (a, b) found in
      (update r, rw (← a, ← b) (find_row-upsert fresh update keeps rs ∙ rw same), follows same)
  | inr e ↦ (r, find_row-upsert_other fresh update keeps p l e rs ∙ found, Follows-refl r)
]

better_lem :
    (previous now : MasteryStatus)
    → (rank previous ≤ rank (better previous now)) × (rank now ≤ rank (better previous now))
unfolding better
better_lem previous now = ground arith

best_mastery_lem :
    (previous : Option MasteryStatus) (m : MasteryStatus)
    → (standing previous ≤ suc (rank (best_mastery previous m)))
      × (rank m ≤ rank (best_mastery previous m))
unfolding best_mastery
best_mastery_lem none m = (omega arith, omega arith)
best_mastery_lem (some previous) m = let (a, b) = better_lem previous m in (omega arith, b)

-- A row whose mastery column holds the text of a mastery.
pub row_mastery_written :
    (r : Row) (m : MasteryStatus) → r.mastery ≡ some (mastery_str m) → row_mastery r ≡ some m
unfolding row_mastery
row_mastery_written r m e = rw e (stored_codes.1 m)

keeps_mastery :
    (r r' : Row) → r'.mastery ≡ r.mastery → standing (row_mastery r) ≤ standing (row_mastery r')
unfolding row_mastery
keeps_mastery r r' e = rw e (omega arith)

or_now_kept : (o : Option ℤ) (now t : ℤ) → o ≡ some t → or_now o now ≡ some t
or_now_kept none now t h = cc
or_now_kept (some u) now t h = h

best_kept :
    (previous : Option MasteryStatus) (m : MasteryStatus) (r r' : Row)
    → row_mastery r ≡ previous
    → r'.mastery ≡ some (mastery_str (best_mastery previous m))
    → standing (row_mastery r) ≤ standing (row_mastery r')
best_kept previous m r r' e w =
    rw (e, row_mastery_written r' (best_mastery previous m) w) ((best_mastery_lem previous m).0)

-- An update that writes neither the mastery nor the completion.
touched :
    (r r' : Row)
    → r'.mastery ≡ r.mastery
    → r.attempts ≤ r'.attempts
    → r.hints_used ≤ r'.hints_used
    → r'.solution_revealed ≡ r.solution_revealed
    → r'.completed_at ≡ r.completed_at
    → r'.first_started_at ≡ r.first_started_at
    → Follows r r'
touched r r' mastery attempts hints revealed completed started = record {
  mastery_kept = keeps_mastery r r' mastery;
  attempts_kept = attempts;
  hints_kept = hints;
  revealed_kept = λ h. revealed ∙ h;
  completion_kept = λ t h. completed ∙ h;
  start_kept = started;
}

existing_mastery-some : (o : Option Row) (r : Row) → o ≡ some r → row_mastery r ≡ existing_mastery o
existing_mastery-some o r e = sym (ap existing_mastery e)

-- The call is not a reset of the profile.
abbrev pub Spares : ℕ → Call → Type 0
Spares p (reset q) = q ≢ p
Spares p _ = Unit

-- A reset leaves the rows of the other profiles.
find_row-reset_profile :
    (q p : ℕ) (l : String) (rs : Rows) → q ≢ p → find_row p l (reset_profile q rs) ≡ find_row p l rs
unfolding find_row reset_profile
find_row-reset_profile q p l [] apart = refl
find_row-reset_profile q p l (r ∷ rs) apart =
    let ih = find_row-reset_profile q p l rs apart in
    elim (Bool-cases (r.profile_id == q)) [
      | inr e ↦ rw (e, ih)
      | inl e ↦
          let same : r.profile_id ≡ q = (==_iff r.profile_id q).0 e in
          let other : at_key p l r ≡ false = elim (Bool-cases (at_key p l r)) [
            | inl f ↦ absurd (apart (sym same ∙ ((at_key_iff p l r).0 f).0))
            | inr f ↦ f
          ] in
          rw (e, other, ih)
    ]

call-Later :
    (c : Call) (p : ℕ) (l : String) (rs : Rows) (r : Row)
    → Spares p c
    → find_row p l rs ≡ some r
    → Later p l r (call c rs)
unfolding call start_lesson record_lesson_attempt add_hint_used complete_lesson new_row
call-Later (start q k now) p l rs r spared found =
    upsert-Later _ _ (λ x. (refl, refl)) p l rs r found
      (λ same. touched r _ refl (omega arith) (omega arith) refl refl refl)
call-Later (attempt q k now) p l rs r spared found =
    upsert-Later _ _ (λ x. (refl, refl)) p l rs r found
      (λ same. touched r _ refl (omega arith) (omega arith) refl refl refl)
call-Later (hint q k now) p l rs r spared found =
    upsert-Later _ _ (λ x. (refl, refl)) p l rs r found
      (λ same. touched r _ refl (omega arith) (omega arith) refl refl refl)
call-Later (reset q) p l rs r spared found =
    (r, find_row-reset_profile q p l rs spared ∙ found, Follows-refl r)
call-Later (complete q k m hints revealed now) p l rs r spared found =
    upsert-Later _ _ (λ x. (refl, refl)) p l rs r found
      (λ same. record {
        mastery_kept =
            best_kept (existing_mastery (find_row q k rs)) m r _
              (existing_mastery-some (find_row q k rs) r same) refl;
        attempts_kept = omega arith;
        hints_kept = omega arith;
        revealed_kept = λ h. rw h;
        completion_kept = λ t h. or_now_kept r.completed_at now t h;
        start_kept = refl;
      })

-- Over any sequence of starts, attempts, hints and completions, of any profile, and of resets of
-- other profiles, a row that is there stays, and keeps its mastery or improves it, never counts
-- attempts or hints down, and keeps a revealed solution, the first completion and the start.
pub calls-Follows :
    (cs : List Call) (p : ℕ) (l : String) (rs : Rows) (r : Row)
    → All (Spares p) cs
    → find_row p l rs ≡ some r
    → (r' : Row) × (find_row p l (calls cs rs) ≡ some r') × Follows r r'
unfolding calls
calls-Follows [] p l rs r spared found = (r, found, Follows-refl r)
calls-Follows (c ∷ cs) p l rs r (this, spared) found =
    let (r1, found1, f) = call-Later c p l rs r this found in
    let (r2, found2, g) = calls-Follows cs p l (call c rs) r1 spared found1 in
    (r2, found2, Follows-trans r r1 r2 f g)

-- The mastery that the store has on record for a lesson.
abbrev pub recorded : ℕ → String → Rows → Option MasteryStatus
recorded p l rs = existing_mastery (find_row p l rs)

best_mastery_either :
    (previous : Option MasteryStatus) (m : MasteryStatus)
    → (best_mastery previous m ≡ m) ⊎ (previous ≡ some (best_mastery previous m))
unfolding best_mastery better
best_mastery_either none m = inl refl
best_mastery_either (some previous) m = ground arith

recorded_of_written :
    (fresh : Row) (update : Row → Row) (o : Option Row) (best : MasteryStatus)
    → fresh.mastery ≡ some (mastery_str best)
    → ((r : Row) → (update r).mastery ≡ some (mastery_str best))
    → existing_mastery (some (written fresh update o)) ≡ some best
recorded_of_written fresh update none best a b = row_mastery_written fresh best a
recorded_of_written fresh update (some r) best a b = row_mastery_written (update r) best (b r)

other_key :
    (r : Row) (q : ℕ) (k : String)
    → ¬ ((q ≡ r.profile_id) × (k ≡ r.lesson_id))
    → at_key q k r ≡ false
other_key r q k apart = elim (Bool-cases (at_key q k r)) [
  | inl e ↦ let (a, b) = (at_key_iff q k r).0 e in absurd (apart (sym a, sym b))
  | inr e ↦ e
]

-- Completing a lesson puts the better of the new mastery and the recorded one on record, answers
-- with it, and leaves what is recorded of every other lesson and profile alone.
pub complete_lesson_lem :
    (p : ℕ) (l : String) (m : MasteryStatus) (hints : ℕ) (revealed : Bool) (now : ℤ) (rs : Rows)
    → let best = (complete_lesson p l m hints revealed now rs).0 in
      let after = (complete_lesson p l m hints revealed now rs).1 in
      (recorded p l after ≡ some best)
      × (rank m ≤ rank best)
      × (standing (recorded p l rs) ≤ suc (rank best))
      × ((best ≡ m) ⊎ (recorded p l rs ≡ some best))
      × ((q : ℕ) (k : String) → ¬ ((q ≡ p) × (k ≡ l)) → find_row q k after ≡ find_row q k rs)
unfolding complete_lesson new_row
complete_lesson_lem p l m hints revealed now rs = (
  ap existing_mastery (find_row-upsert _ _ (λ x. (refl, refl)) rs)
      ∙ recorded_of_written _ _ (find_row p l rs) (best_mastery (recorded p l rs) m) refl
          (λ r. refl),
  (best_mastery_lem (recorded p l rs) m).1,
  (best_mastery_lem (recorded p l rs) m).0,
  best_mastery_either (recorded p l rs) m,
  λ q k apart.
      find_row-upsert_other _ _ (λ x. (refl, refl)) q k (other_key (new_row p l now) q k apart) rs,
)
