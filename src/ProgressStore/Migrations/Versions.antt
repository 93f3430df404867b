-- ===== src/ProgressStore/Migrations/Versions.antt =====
-- Where the migrations lead to.
use linuxpracticelab.Common.{
  ℕ, ◌≤◌, ◌<◌, ◌≡◌, inl, inr, true, false, Option, none, some, List, [], ◌∷◌, arith, refl, ap, sym,
  ◌∙◌, ltb, leb, Bool-cases, Option-cases, if◌then◌else◌,
}
use linuxpracticelab.ProgressStore.Migrations.{
  Database, Applied, up_to_date, too_new, failed, latest_from, latest_version, apply_from, outcome,
  apply,
}

module _ {Content Script : Type 0} (execute : Script → Content → Option Content) where
  -- Each version is above the one before.
  abbrev pub IsAscending : ℕ → List (ℕ × Script) → Type 0
  IsAscending low [] = Unit
  IsAscending low ((v, script) ∷ ms) = (low < v) × IsAscending v ms

  abbrev higher : ℕ → ℕ → ℕ
  higher m n = if leb m n then n else m

  latest-above : (low : ℕ) (ms : List (ℕ × Script)) → IsAscending low ms → low ≤ latest_from low ms
  latest-above low [] up = omega arith
  latest-above low ((v, script) ∷ ms) (h, up) = omega (arith, latest-above v ms up)

  none_not_some : {n : ℕ} → ¬ (some n ≡ none)
  none_not_some e = cc

  apply_from_version :
      (current low : ℕ) (ms : List (ℕ × Script)) (db db' : Database Content)
      → IsAscending low ms
      → db.user_version ≡ higher current low
      → apply_from execute current ms db ≡ (none, db')
      → db'.user_version ≡ higher current (latest_from low ms)
  unfolding apply_from
  apply_from_version current low [] db db' up v h =
      sym (ap (λ (r : Option ℕ × Database Content). r.1.user_version) h) ∙ v
  apply_from_version current low ((w, script) ∷ ms) db db' (lt, up) v h =
      elim (Bool-cases (leb w current)) [
        | inl e ↦ apply_from_version current w ms db db' up (ground arith) (rw e at h)
        | inr e ↦ elim (Option-cases (execute script db.content)) [
          | inl f ↦
              absurd
                (none_not_some (ap (λ (r : Option ℕ × Database Content). r.0) (rw (e, f) at h)))
          | inr (c, f) ↦
              apply_from_version current w ms (record { user_version = w; content = c }) db' up
                (ground arith) (rw (e, f) at h)
        ]
      ]

  -- Nothing is left to do for a database at a version that none of the migrations exceeds.
  apply_from_done :
      (current low : ℕ) (ms : List (ℕ × Script)) (db : Database Content)
      → IsAscending low ms
      → latest_from low ms ≤ current
      → apply_from execute current ms db ≡ (none, db)
  unfolding apply_from
  apply_from_done current low [] db up le = refl
  apply_from_done current low ((w, script) ∷ ms) db (lt, up) le =
      let above = latest-above w ms up in
      let old : leb w current ≡ true = ground (arith, above, le) in
      rw old (apply_from_done current w ms db up le)

  not_failed : (v n : ℕ) → ¬ (failed v ≡ up_to_date n)
  not_failed v n e = cc

  not_too_new : (v t n : ℕ) → ¬ (too_new v t ≡ up_to_date n)
  not_too_new v t n e = cc

  succeeded :
      (t n : ℕ) (o : Option ℕ) (db db' : Database Content)
      → ◌≡◌ {A = Applied × Database Content} (outcome t o, db) (up_to_date n, db')
      → (n ≡ t) × (◌≡◌ {A = Option ℕ × Database Content} (o, db) (none, db'))
  succeeded t n none db db' h =
      let same = ap (λ (r : Applied × Database Content). r.0) h in
      (ground (arith, same), ap (λ (r : Applied × Database Content). (none, r.1)) h)
  succeeded t n (some v) db db' h =
      let same = ap (λ (r : Applied × Database Content). r.0) h in absurd (not_failed v n same)

  abbrev pub Runs : Type 0
  Runs = (s : Script) (c : Content) → (d : Content) × (execute s c ≡ some d)

  apply_from_total :
      Runs
      → (current : ℕ) (ms : List (ℕ × Script)) (db : Database Content)
      → (db' : Database Content) × (apply_from execute current ms db ≡ (none, db'))
  unfolding apply_from
  apply_from_total runs current [] db = (db, refl)
  apply_from_total runs current ((w, script) ∷ ms) db = elim (Bool-cases (leb w current)) [
    | inl e ↦ rw e (apply_from_total runs current ms db)
    | inr e ↦
        let (c, f) = runs script db.content in
        rw (e, f) (apply_from_total runs current ms (record { user_version = w; content = c }))
  ]

  -- A run that ends well took the branch that is not refused.
  apply_done :
      (ms : List (ℕ × Script)) (db db' : Database Content) (n : ℕ)
      → apply execute ms db ≡ (up_to_date n, db')
      → (ltb (latest_version ms) db.user_version ≡ false)
        × (n ≡ latest_version ms)
        × (apply_from execute db.user_version ms db ≡ (none, db'))
  unfolding apply
  apply_done ms db db' n h = elim (Bool-cases (ltb (latest_version ms) db.user_version)) [
    | inl e ↦ absurd (not_too_new _ _ n (ap (λ (r : Applied × Database Content). r.0) (rw e at h)))
    | inr e ↦
        let (same, loop) = succeeded (latest_version ms) n _ _ db' (rw e at h) in (e, same, loop)
  ]

  apply_of_done :
      (ms : List (ℕ × Script)) (db db' : Database Content)
      → db.user_version ≤ latest_version ms
      → apply_from execute db.user_version ms db ≡ (none, db')
      → apply execute ms db ≡ (up_to_date (latest_version ms), db')
  unfolding apply
  apply_of_done ms db db' le h =
      let e : ltb (latest_version ms) db.user_version ≡ false = ground arith in rw (e, h) refl

  -- Where the versions ascend: a run that succeeds leaves the database at the latest version, and
  -- running again changes nothing; a run does succeed if the database is not newer than that and
  -- every script runs.
  pub apply_lem :
      (ms : List (ℕ × Script)) (db : Database Content)
      → IsAscending 0 ms
      → ((n : ℕ) (db' : Database Content)
          → apply execute ms db ≡ (up_to_date n, db')
          → (n ≡ latest_version ms)
            × (db'.user_version ≡ n)
            × (apply execute ms db' ≡ (up_to_date n, db')))
        × (Runs
            → db.user_version ≤ latest_version ms
            → (db' : Database Content) × (apply execute ms db
                ≡ (up_to_date (latest_version ms), db')))
  apply_lem ms db up = (
    λ n db' h.
        let (e, same, loop) = apply_done ms db db' n h in
        let v = apply_from_version db.user_version 0 ms db db' up (ground arith) loop in
        let there : db'.user_version ≡ latest_version ms = ground (arith, e, v) in
        let again =
          apply_of_done ms db' db' (omega (arith, there))
            (apply_from_done db'.user_version 0 ms db' up (omega (arith, there))) in
        (same, there ∙ sym same, rw same again),
    λ runs le.
        let (db', loop) = apply_from_total runs db.user_version ms db in
        (db', apply_of_done ms db db' le loop),
  )
