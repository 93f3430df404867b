-- ===== src/ProgressStore/Migrations.antt =====
-- crates/progress-store/src/migrations.rs: bringing a database to the schema of this build. What a
-- script does to the content of a database is up to SQLite, and so a parameter: it may fail, and
-- then the transaction leaves the content as it was. Versions are not negative.
pub mod Versions
use linuxpracticelab.Common.{
  ℕ, Bool, true, false, Option, none, some, List, [], ◌∷◌, ltb, leb, if◌then◌else◌,
}

pub record Database (Content : Type 0) : Type 0 where
  pub user_version : ℕ
  pub content : Content

pub data Applied : Type 0 where
  up_to_date : ℕ → Applied
  too_new : ℕ → ℕ → Applied
  failed : ℕ → Applied

-- The version of the last entry.
abbrev pub latest_from : {Script : Type 0} → ℕ → List (ℕ × Script) → ℕ
latest_from v [] = v
latest_from v ((w, script) ∷ ms) = latest_from w ms

abbrev pub latest_version : {Script : Type 0} → List (ℕ × Script) → ℕ
latest_version ms = latest_from 0 ms

abbrev pub outcome : ℕ → Option ℕ → Applied
outcome target none = up_to_date target
outcome target (some version) = failed version

module _ {Content Script : Type 0} (execute : Script → Content → Option Content) where
  -- The loop. `current` was read before it; each script runs in a transaction with its version.
  unfoldable pub apply_from : ℕ → List (ℕ × Script) → Database Content → Option ℕ × Database Content
  apply_from current [] db = (none, db)
  apply_from current ((version, script) ∷ ms) db =
      if leb version current then apply_from current ms db else (elim (execute script db.content) [
        | none ↦ (some version, db)
        | some c ↦ apply_from current ms (record { user_version = version; content = c })
      ])

  unfoldable pub apply : List (ℕ × Script) → Database Content → Applied × Database Content
  apply ms db =
      let target = latest_version ms in
      let done = apply_from db.user_version ms db in
      if ltb target db.user_version
      then (too_new db.user_version target, db)
      else (outcome target done.0, done.1)
