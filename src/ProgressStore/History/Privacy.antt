-- ===== src/ProgressStore/History/Privacy.antt =====
-- What a policy promises of the history: after it is enforced, and while commands are recorded.
use Prim.Native.String.{String}
use text.Mathlib.Text.{◌==◌ as str_eq}
use text.Mathlib.TextEquality.{eq_iff}
use linuxpracticelab.Common.{
  ℕ, ◌+◌, ◌*◌, ◌≡◌, ◌↔◌, inl, inr, Bool, true, false, not, ◌&&◌, List, [], ◌∷◌, arith, refl, select,
  length, All, Has, Has-select_iff, Has-concat_iff, Bool-cases, ◌==◌,
}
use linuxpracticelab.Common.Int.{ℤ, minus, earlier}
use linuxpracticelab.ProgressStore.History.{
  HistoryRetention, do_not_save, last_session, days, forever, Command, record_command, delete,
  expired, prune_command_history, record_all,
}

-- What a policy lets stand of a profile's commands.
pub Allowed : HistoryRetention → String → ℤ → Command → Type 0
Allowed do_not_save session now c = ⊥
Allowed last_session session now c = c.session_id ≡ session
Allowed (days d) session now c = earlier c.created_at (minus now (d * 86400)) ≡ false
Allowed forever session now c = Unit

-- A test that starts with one on the profile.
guarded_iff :
    (m n : ℕ) (b : Bool) (A : Type 0) → (b ≡ false) ↔ A → ((m == n) && b ≡ false) ↔ (m ≡ n → A)
guarded_iff m n b A (there, back) = elim (Bool-cases (m == n)) [
  | inl e ↦
      let same : m ≡ n = ground (arith, e) in (λ h q. there (rw e at h), λ h. rw e (back (h same)))
  | inr e ↦ (λ h q. ground (arith, e, q), λ h. rw e refl)
]

not_equal_iff : (s t : String) → (not (str_eq s t) ≡ false) ↔ (s ≡ t)
not_equal_iff s t = (λ h. ground (arith, eq_iff s t), λ h. ground (arith, eq_iff s t))

expired_iff :
    (retention : HistoryRetention) (profile : ℕ) (session : String) (now : ℤ) (c : Command)
    → (expired retention profile session now c ≡ false)
      ↔ (c.profile_id ≡ profile → Allowed retention session now c)
unfolding expired Allowed
expired_iff do_not_save profile session now c =
    let (there, back) = guarded_iff c.profile_id profile true ⊥ (λ h. cc, λ h. absurd h) in
    (λ h. there (ground arith), λ h. ground (arith, back h))
expired_iff last_session profile session now c =
    guarded_iff c.profile_id profile _ _ (not_equal_iff c.session_id session)
expired_iff (days d) profile session now c = guarded_iff c.profile_id profile _ _ (λ h. h, λ h. h)
expired_iff forever profile session now c = (λ h e. tt, λ h. refl)

select_split :
    (p : Command → Bool) (rows : List Command)
    → length (select p rows) + length (select (λ c. not (p c)) rows) ≡ length rows
select_split p [] = refl
select_split p (c ∷ rows) =
    let ih = select_split p rows in
    elim (Bool-cases (p c)) [ inl e ↦ rw e (omega (arith, ih)) | inr e ↦ rw e (omega (arith, ih)) ]

-- Enforcing a policy keeps exactly the commands of other profiles and those that the policy
-- allows, and reports how many it removed.
pub prune_command_history_lem :
    (retention : HistoryRetention) (profile : ℕ) (session : String) (now : ℤ) (rows : List Command)
    → let (removed, left) = prune_command_history retention profile session now rows in
      ((c : Command)
        → Has c left ↔ (Has c rows × (c.profile_id ≡ profile → Allowed retention session now c)))
      × (removed + length left ≡ length rows)
unfolding prune_command_history delete
prune_command_history_lem retention profile session now rows = (
  λ c.
      let (there, back) =
        Has-select_iff (λ d. not (expired retention profile session now d)) c rows in
      let (allowed, fine) = expired_iff retention profile session now c in
      (
        λ h. let (m, t) = there h in (m, allowed (ground arith)),
        λ (m, ok). let f = fine ok in back (m, rw f refl),
      ),
  select_split (expired retention profile session now) rows,
)

earlier-minus : (t now : ℤ) (n : ℕ) → earlier t now ≡ false → earlier t (minus now n) ≡ false
unfolding earlier minus
earlier-minus t now n h = ground arith

-- What holds of every command of the profile in the table.
OfProfile : (Command → Type 0) → ℕ → List Command → Type 0
OfProfile P profile rows = (c : Command) → Has c rows → c.profile_id ≡ profile → P c

record_command-OfProfile :
    (retention : HistoryRetention) (profile : ℕ) (session text : String) (now since : ℤ)
    (rows : List Command)
    → earlier now since ≡ false
    → OfProfile (Allowed retention session since) profile rows
    → OfProfile
        (Allowed retention session since)
        profile
        ((record_command retention profile session text now rows).1)
unfolding record_command OfProfile Allowed
record_command-OfProfile do_not_save profile session text now since rows h all = all
record_command-OfProfile last_session profile session text now since rows h all =
    λ c m e. elim ((Has-concat_iff c _ rows).0 m) [ inl old ↦ all c old e | inr q ↦ rw q refl ]
record_command-OfProfile (days d) profile session text now since rows h all = λ c m e.
    elim ((Has-concat_iff c _ rows).0 m) [
      | inl old ↦ all c old e
      | inr q ↦ rw q (earlier-minus now since (d * 86400) h)
    ]
record_command-OfProfile forever profile session text now since rows h all = λ c m e. tt

record_all-OfProfile :
    (retention : HistoryRetention) (profile : ℕ) (session : String) (since : ℤ)
    (typed : List (String × ℤ))
    → All (λ (t : String × ℤ). earlier t.1 since ≡ false) typed
    → (rows : List Command) → OfProfile (Allowed retention session since) profile rows
    → OfProfile
        (Allowed retention session since)
        profile
        (record_all retention profile session typed rows)
unfolding record_all
record_all-OfProfile retention profile session since [] times rows all = all
record_all-OfProfile retention profile session since ((text, now) ∷ typed) (h, times) rows all =
    record_all-OfProfile retention profile session since typed times
      ((record_command retention profile session text now rows).1)
      (record_command-OfProfile retention profile session text now since rows h all)

-- Once a policy has been enforced, and while further commands of the session are recorded at times
-- that are not earlier, every command of the profile in the table is one that the policy allows as of
-- the time of the enforcement: none at all under the policy that saves nothing, none of another
-- session under that of the last session, and none older than its days were at that time. Commands
-- that grow older than that in the meantime stay until the policy is enforced again.
pub history-Allowed :
    (retention : HistoryRetention) (profile : ℕ) (session : String) (now : ℤ)
    (typed : List (String × ℤ))
    → All (λ (t : String × ℤ). earlier t.1 now ≡ false) typed
    → (rows : List Command) (c : Command)
    → Has c (
        record_all retention profile session typed
          ((prune_command_history retention profile session now rows).1))
    → c.profile_id ≡ profile
    → Allowed retention session now c
unfolding OfProfile
history-Allowed retention profile session now typed times rows =
    record_all-OfProfile retention profile session now typed times
      ((prune_command_history retention profile session now rows).1)
      (λ c m e. ((((prune_command_history_lem retention profile session now rows).0 c).0 m).1 e))
