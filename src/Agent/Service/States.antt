-- ===== src/Agent/Service/States.antt =====
-- What the state of a unit decides, and what is made of a name that no unit has.
use Prim.Native.String.{String, [], ◌∷◌, ◌++◌}
use linuxpracticelab.Common.{
  ◌≡◌, ◌≢◌, ◌↔◌, ◌⊎◌, inl, inr, Bool, true, false, none, some, List, refl, arith, Bool-cases,
}
use linuxpracticelab.Common.Int.{pos}
use linuxpracticelab.Common.Text.{is_blank, trim, trim_front, trim_back}
use linuxpracticelab.SharedTypes.Lesson.{Validator, str_param}
use linuxpracticelab.SharedTypes.Validation.{CheckOutcome, pass, fail, error, expected, observed}
use linuxpracticelab.Agent.Args.{string}
use linuxpracticelab.Agent.System.{System, CommandOutput, stdout_trimmed}
use linuxpracticelab.Agent.System.Accounts.{same}
use linuxpracticelab.Agent.Identity.Access.{same_bool}
use linuxpracticelab.Agent.Outcomes.{Passes, through, negated, passes_if, passes_if_not, same_iff}
use linuxpracticelab.Agent.Service.{
  is_acceptable, safe_unit, printed_state, state_of, state_compared, service_state, service_active,
  service_inactive, service_enabled, service_disabled, service_failed, unit_file_valid,
}
use linuxpracticelab.Agent.Service.Units.{IsUnitName, is_acceptable_iff, safe_unit_iff}

-- What systemctl says is what it prints, without the white space around it, or its error message
-- where it prints nothing.
abbrev pub Says : CommandOutput → String → Type 0
Says output word =
    ((stdout_trimmed output ≢ []) × (word ≡ stdout_trimmed output))
    ⊎ ((stdout_trimmed output ≡ []) × (word ≡ trim output.stderr))

-- The validator names a unit, and systemctl answers in time about it with a word of the kind.
abbrev pub Answers : System → Validator → String → (String → Type 0) → Type 0
Answers sys v subcommand P =
    (unit : String) × (str_param v "unit" ≡ some unit)
    × IsUnitName unit
    × ((output : CommandOutput) × (sys.run "systemctl"
            (List.◌∷◌ subcommand (List.◌∷◌ "--" (List.◌∷◌ unit List.[]))) none
          ≡ inl output)
        × (output.timed_out ≡ false)
        × ((word : String) × Says output word × P word))

blank_iff : (s : String) → (is_blank s ≡ true) ↔ (s ≡ [])
blank_iff [] = (λ h. refl, λ h. refl)
blank_iff (c ∷ s) = (λ h. cc, λ h. cc)

printed_state_iff :
    (P : String → Type 0) (output : CommandOutput)
    → P (printed_state output) ↔ ((word : String) × Says output word × P word)
printed_state_iff P output =
    let blank = blank_iff (stdout_trimmed output) in
    elim (Bool-cases (is_blank (stdout_trimmed output))) [
      | inl e ↦
          let empty = blank.0 e in
          rw e (
            λ p. (trim output.stderr, inr (empty, refl), p),
            λ (w, said, p). elim said [ inl (n, _) ↦ absurd (n empty) | inr (_, q) ↦ rw q at p ],
          )
      | inr e ↦
          let some_text : stdout_trimmed output ≢ [] = λ q. differ e (blank.1 q) in
          rw e (
            λ p. (stdout_trimmed output, inl (some_text, refl), p),
            λ (w, said, p). elim said [
              | inl (_, q) ↦ rw q at p
              | inr (q, _) ↦ absurd (some_text q)
            ],
          )
    ]
  where
    differ : {b : Bool} → b ≡ false → b ≡ true → ⊥
    differ f t = cc

true_iff : (b : Bool) → (same_bool b true ≡ true) ↔ (b ≡ true)
true_iff true = (λ h. h, λ h. h)
true_iff false = (λ h. cc, λ h. cc)

false_iff : (b : Bool) → (same_bool b false ≡ true) ↔ ¬ (b ≡ true)
false_iff true = (λ h. cc, λ h. absurd (h refl))
false_iff false = (λ h e. cc, λ h. refl)

-- The outcome for an answer of systemctl, whatever word was asked for.
state_of_iff :
    (v : Validator) (subcommand positive : String) (want : Bool) (unit : String)
    (r : CommandOutput ⊎ String)
    → Passes (state_of v subcommand positive want unit r) ↔ (
        (output : CommandOutput) × (r ≡ inl output)
        × (output.timed_out ≡ false)
        × (same_bool (same (printed_state output) positive) want ≡ true))
unfolding pass fail error observed expected
state_of_iff v subcommand positive want unit (inr err) = (λ h. cc, λ (o, q, _, _). cc)
state_of_iff v subcommand positive want unit (inl output) =
    let matching = same_bool (same (printed_state output) positive) want in
    let compared : Passes (state_compared v unit positive want (printed_state output))
        ↔ (matching ≡ true) =
      passes_if matching _ _ refl refl in
    let in_time =
      passes_if_not output.timed_out (error v.kind ("systemctl " ++ (subcommand ++ " timed out")))
        (state_compared v unit positive want (printed_state output)) refl in
    (
      λ h. let (n, p) = in_time.0 h in (output, refl, not_true _ n, compared.0 p),
      λ (o, q, t, w).
          let same_out : output ≡ o = ground (arith, q) in
          let here : output.timed_out ≡ false = rw same_out t in
          in_time.1 (λ e. clash here e, compared.1 (rw same_out w)),
    )
  where
    not_true : (b : Bool) → b ≢ true → b ≡ false
    not_true true n = absurd (n refl)
    not_true false n = refl

    clash : {b : Bool} → b ≡ false → b ≡ true → ⊥
    clash f t = cc

module _ (sys : System) (v : Validator) (subcommand positive : String) where
  -- A check passes for the answers whose word fits the comparison.
  answers_iff :
      (want : Bool) (P : String → Type 0)
      → ((word : String) → (same_bool (same word positive) want ≡ true) ↔ P word)
      → Passes (service_state sys v subcommand positive want) ↔ Answers sys v subcommand P
  unfolding service_state
  answers_iff want P fits = safe_unit_iff v _ _ (λ unit.
      let outcome = state_of_iff v subcommand positive want unit _ in
      (
        λ h.
            let (output, ran, in_time, w) = outcome.0 h in
            (
              output,
              ran,
              in_time,
              (printed_state_iff P output).0 ((fits (printed_state output)).0 w),
            ),
        λ (output, ran, in_time, said). outcome.1 (
          output,
          ran,
          in_time,
          (fits (printed_state output)).1 ((printed_state_iff P output).1 said),
        ),
      ))

  positive_iff :
      Passes (service_state sys v subcommand positive true)
      ↔ Answers sys v subcommand (λ word. word ≡ positive)
  positive_iff =
      answers_iff true _ (λ word. through (true_iff (same word positive)) (same_iff word positive))

  negative_iff :
      Passes (service_state sys v subcommand positive false)
      ↔ Answers sys v subcommand (λ word. word ≢ positive)
  negative_iff =
      answers_iff false _
        (λ word. through (false_iff (same word positive)) (negated (same_iff word positive)))

-- `service_active` and `service_enabled` pass exactly if the validator names a unit, systemctl
-- answers in time about it, and says `active` or `enabled`; `service_inactive` and
-- `service_disabled` pass exactly if it says anything else, an error message included. A validator
-- without the name of a unit, a program that cannot be run and one that runs too long pass none of
-- the four.
pub service_state_lem :
    (sys : System) (v : Validator)
    → (Passes (service_active sys v) ↔ Answers sys v "is-active" (λ word. word ≡ "active"))
      × (Passes (service_inactive sys v) ↔ Answers sys v "is-active" (λ word. word ≢ "active"))
      × (Passes (service_enabled sys v) ↔ Answers sys v "is-enabled" (λ word. word ≡ "enabled"))
      × (Passes (service_disabled sys v) ↔ Answers sys v "is-enabled" (λ word. word ≢ "enabled"))
unfolding service_active service_inactive service_enabled service_disabled
service_state_lem sys v = (
  positive_iff sys v "is-active" "active",
  negative_iff sys v "is-active" "active",
  positive_iff sys v "is-enabled" "enabled",
  negative_iff sys v "is-enabled" "enabled",
)

abbrev pub invalid_unit : Validator → String → CheckOutcome
invalid_unit v unit = error v.kind ("'" ++ (unit ++ "' is not a valid systemd unit name"))

-- Whatever programs answer, the checks of a unit have the same error as their outcome.
abbrev pub IsRefused : Validator → String → Type 0
IsRefused v unit =
    (sys : System)
    → (service_active sys v ≡ invalid_unit v unit)
      × (service_inactive sys v ≡ invalid_unit v unit)
      × (service_enabled sys v ≡ invalid_unit v unit)
      × (service_disabled sys v ≡ invalid_unit v unit)
      × (service_failed sys v ≡ invalid_unit v unit)
      × (unit_file_valid sys v ≡ invalid_unit v unit)

refused :
    (v : Validator) (unit : String)
    → str_param v "unit" ≡ some unit
    → is_acceptable unit ≡ false
    → IsRefused v unit
unfolding service_active service_inactive service_enabled service_disabled service_state
    service_failed unit_file_valid safe_unit string
refused v unit u a = λ sys. rw (u, a) (refl, refl, refl, refl, refl, refl)

abbrev says_active : CommandOutput
says_active = record { status = pos 0; stdout = "active"; stderr = ""; timed_out = false }

active_printed : Says says_active "active"
unfolding stdout_trimmed trim_front trim_back
active_printed = inl (λ e. cc, refl)

-- A unit name is checked: where systemctl says so, the unit is active.
unit_name_checked :
    (sys : System) (v : Validator) (unit : String)
    → str_param v "unit" ≡ some unit
    → IsUnitName unit
    → ¬ IsRefused v unit
unfolding error
unit_name_checked sys v unit u name all =
    let running = record sys { run = λ program arguments limit. inl says_active } in
    let passes =
      (service_state_lem running v).0.1
        (unit, u, name, (says_active, refl, refl, ("active", active_printed, refl))) in
    let outcome = (all running).0 in
    let wrong : (invalid_unit v unit).passed ≡ true = rw outcome at passes in cc

-- The checks of a unit refuse its name, with one error that does not depend on what any program
-- answers, exactly if it is empty, starts with a dash or has a character that is no letter, no
-- digit and none of `.`, `-`, `_`, `@`, `:` and `\`.
pub unit_rejected :
    (sys : System) (v : Validator) (unit : String)
    → str_param v "unit" ≡ some unit
    → IsRefused v unit ↔ (¬ IsUnitName unit)
unit_rejected sys v unit u = (
  λ all name. unit_name_checked sys v unit u name all,
  λ no_name. elim (Bool-cases (is_acceptable unit)) [
    | inl a ↦ absurd (no_name ((is_acceptable_iff unit).0 a))
    | inr a ↦ refused v unit u a
  ],
)
