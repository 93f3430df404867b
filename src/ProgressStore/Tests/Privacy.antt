-- ===== src/ProgressStore/Tests/Privacy.antt =====
-- Two learners on one computer, and the commands that they typed.
use Prim.Native.String.{String}
use linuxpracticelab.Common.{ℕ, ◌≡◌, false, List, [], ◌∷◌, refl, inl, All, Has}
use linuxpracticelab.Common.Int.{ℤ, pos, minus, earlier}
use linuxpracticelab.ProgressStore.History.{
  do_not_save, last_session, days, Command, record_command, delete, expired, prune_command_history,
  record_all,
}
use linuxpracticelab.ProgressStore.History.Privacy.{Allowed, history-Allowed}

abbrev typed_at : ℕ → String → String → ℤ → Command
typed_at profile session text time = record {
  profile_id = profile;
  session_id = session;
  command = text;
  created_at = time;
}

abbrev history : List Command
history =
    typed_at 1 "s1" "ls" (pos 0)
    ∷ typed_at 2 "s1" "pwd" (pos 0)
    ∷ typed_at 1 "s2" "cd" (pos 90000)
    ∷ []

prune_run :
    (prune_command_history (days 1) 1 "s2" (pos 90000) history
      ≡ (1, typed_at 2 "s1" "pwd" (pos 0) ∷ typed_at 1 "s2" "cd" (pos 90000) ∷ []))
    × (prune_command_history do_not_save 1 "s2" (pos 90000) history
        ≡ (2, typed_at 2 "s1" "pwd" (pos 0) ∷ []))
    × (prune_command_history last_session 1 "s1" (pos 90000) history
        ≡ (1, typed_at 1 "s1" "ls" (pos 0) ∷ typed_at 2 "s1" "pwd" (pos 0) ∷ []))
    × (record_all do_not_save 1 "s2" (("rm", pos 90001) ∷ []) history ≡ history)
unfolding prune_command_history delete expired minus earlier record_all record_command
prune_run = (refl, refl, refl, refl)

abbrev later : List (String × ℤ)
later = ("rm", pos 90001) ∷ []

not_before : All (λ (t : String × ℤ). earlier t.1 (pos 90000) ≡ false) later
unfolding earlier
not_before = (refl, tt)

typed_there : Has (typed_at 1 "s2" "rm" (pos 90001)) (
    record_all last_session 1 "s2" later
      ((prune_command_history last_session 1 "s2" (pos 90000) [])).1)
unfolding record_all record_command prune_command_history delete
typed_there = inl refl

history-Allowed_example : Allowed last_session "s2" (pos 90000) (typed_at 1 "s2" "rm" (pos 90001))
history-Allowed_example =
    history-Allowed last_session 1 "s2" (pos 90000) later not_before []
      (typed_at 1 "s2" "rm" (pos 90001)) typed_there refl
