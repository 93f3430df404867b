-- ===== src/ProgressStore/Tests/Upgrade.antt =====
-- A database whose content is the list of the scripts that ran; script 0 cannot run.
use linuxpracticelab.Common.{ℕ, zero, suc, ◌≡◌, ◌≤◌, Option, none, some, List, [], ◌∷◌, arith, refl}
use linuxpracticelab.ProgressStore.Migrations.{
  Database, up_to_date, too_new, failed, latest_version, apply_from, apply,
}
use linuxpracticelab.ProgressStore.Migrations.Versions.{IsAscending, Runs, apply_lem}

abbrev run : ℕ → List ℕ → Option (List ℕ)
run zero done = none
run (suc script) done = some (suc script ∷ done)

abbrev always : ℕ → List ℕ → Option (List ℕ)
always script done = some (script ∷ done)

abbrev scripts : List (ℕ × ℕ)
scripts = (1, 10) ∷ (2, 20) ∷ (4, 40) ∷ []

abbrev old : Database (List ℕ)
old = record { user_version = 1; content = 10 ∷ [] }

three_scripts :
    (apply run scripts old
      ≡ (up_to_date 4, record { user_version = 4; content = 40 ∷ 20 ∷ 10 ∷ [] }))
    × (apply run ((1, 10) ∷ (2, 0) ∷ (4, 40) ∷ []) old ≡ (failed 2, old))
    × (apply run ((1, 10) ∷ []) (record old { user_version = 3 })
        ≡ (too_new 3 1, record old { user_version = 3 }))
unfolding apply apply_from
three_scripts = (refl, refl, refl)

scripts-IsAscending : IsAscending always 0 scripts
scripts-IsAscending = (omega arith, (omega arith, (omega arith, tt)))

apply_lem_example :
    ((n : ℕ) (db' : Database (List ℕ))
      → apply always scripts old ≡ (up_to_date n, db')
      → (n ≡ latest_version scripts)
        × (db'.user_version ≡ n)
        × (apply always scripts db' ≡ (up_to_date n, db')))
    × (Runs always
        → old.user_version ≤ latest_version scripts
        → (db' : Database (List ℕ)) × (apply always scripts old
            ≡ (up_to_date (latest_version scripts), db')))
apply_lem_example = apply_lem always scripts old scripts-IsAscending
