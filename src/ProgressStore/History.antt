-- ===== src/ProgressStore/History.antt =====
-- crates/progress-store/src/lib.rs: the command history and its retention. The setting has been
-- parsed; the `AUTOINCREMENT` ids, which only break ties in listings, are left out.
pub mod Privacy
use Prim.Native.String.{String}
use text.Mathlib.Text.{◌==◌ as str_eq}
use linuxpracticelab.Common.{
  ℕ, ◌+◌, ◌-◌, ◌*◌, Bool, true, false, not, ◌&&◌, List, [], ◌∷◌, ◌++◌, select, length, ◌==◌,
  if◌then◌else◌,
}
use linuxpracticelab.Common.Int.{ℤ, minus, earlier}

pub data HistoryRetention : Type 0 where
  do_not_save last_session : HistoryRetention
  days : ℕ → HistoryRetention
  forever : HistoryRetention

pub record Command : Type 0 where
  pub profile_id : ℕ
  pub session_id : String
  pub command : String
  pub created_at : ℤ

abbrev pub saves : HistoryRetention → Bool
saves do_not_save = false
saves _ = true

-- Returns whether the command was stored, beside the new table.
unfoldable pub record_command :
    HistoryRetention → ℕ → String → String → ℤ → List Command → Bool × List Command
record_command retention profile session text now rows =
    if saves retention
    then (
      true,
      rows
          ++ record { profile_id = profile; session_id = session; command = text; created_at = now }
            ∷ [],
    )
    else (false, rows)

-- `DELETE … WHERE`, with the count of the rows that it removes.
unfoldable pub delete : (Command → Bool) → List Command → ℕ × List Command
delete gone rows = (length (select gone rows), select (λ c. not (gone c)) rows)

-- The rows of a profile that a policy no longer allows. `earlier` compares exactly, and
-- `now - days * 86_400` does not leave the range of `i64` for the times that occur.
unfoldable pub expired : HistoryRetention → ℕ → String → ℤ → Command → Bool
expired do_not_save profile session now c = c.profile_id == profile
expired last_session profile session now c =
    c.profile_id == profile && not (str_eq c.session_id session)
expired (days d) profile session now c =
    c.profile_id == profile && earlier c.created_at (minus now (d * 86400))
expired forever profile session now c = false

unfoldable pub prune_command_history :
    HistoryRetention → ℕ → String → ℤ → List Command → ℕ × List Command
prune_command_history retention profile session now rows =
    delete (expired retention profile session now) rows

-- The commands of one session, each with its time, recorded one after the other.
unfoldable pub record_all :
    HistoryRetention → ℕ → String → List (String × ℤ) → List Command → List Command
record_all retention profile session [] rows = rows
record_all retention profile session ((text, now) ∷ typed) rows =
    record_all retention profile session typed
      ((record_command retention profile session text now rows).1)
