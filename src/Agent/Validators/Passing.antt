-- ===== src/Agent/Validators/Passing.antt =====
-- What it takes for a task to pass: a validator that is malformed, unknown, not implemented or
-- without a handler never lets it.
use Prim.Native.String.{String}
use linuxpracticelab.Common.{
  ◌≡◌, ◌≢◌, ◌↔◌, ◌⊎◌, true, Option, none, some, List, [], ◌∷◌, All, arith, refl, ◌∙◌, sym, inl, inr,
  Option-cases,
}
use linuxpracticelab.SharedTypes.Float.{Float64}
use linuxpracticelab.SharedTypes.Lesson.{Validator}
use linuxpracticelab.SharedTypes.Validation.{CheckOutcome, error}
use linuxpracticelab.SharedTypes.Validation.Verdict.{Passed, from_outcomes-passed_iff}
use linuxpracticelab.SharedTypes.Registry.{Registry, RegistryError}
use linuxpracticelab.SharedTypes.Registry.Check.{check}
use linuxpracticelab.SharedTypes.Registry.Accepted.{WellFormed, check_iff}
use linuxpracticelab.Agent.Args.{apply_overrides}
use linuxpracticelab.Agent.Args.Limits.{apply_overrides-SameVerdict}
use linuxpracticelab.Agent.Validators.{
  Ctx, Handler, dispatch, handled, evaluate, run_all, validate_task,
}

-- The outcome is that of the first category that owns the tag: the ones before it have declined, and
-- each sees the guest as the ones before have left it.
pub AnsweredBy :
    {Guest : Type 0} → List (Handler Guest) → Ctx → Validator → Guest → CheckOutcome → Type 0
AnsweredBy [] ctx v g o = ⊥
AnsweredBy (h ∷ hs) ctx v g o =
    ((h ctx v g).0 ≡ some o) ⊎ (((h ctx v g).0 ≡ none) × AnsweredBy hs ctx v ((h ctx v g).1) o)

dispatch_iff :
    {Guest : Type 0} (hs : List (Handler Guest)) (ctx : Ctx) (v : Validator) (g : Guest)
    (o : CheckOutcome)
    → ((dispatch hs ctx v g).0 ≡ some o) ↔ AnsweredBy hs ctx v g o
unfolding dispatch AnsweredBy
dispatch_iff [] ctx v g o = (λ h. cc, λ h. absurd h)
dispatch_iff (h ∷ hs) ctx v g o = elim (Option-cases ((h ctx v g).0)) [
  | inl e ↦
      let rest = dispatch_iff hs ctx v ((h ctx v g).1) o in
      rw e (λ q. inr (refl, rest.0 q), elim [ inl q ↦ cc | inr (_, a) ↦ rest.1 a ])
  | inr (p, e) ↦ rw e (λ q. inl q, elim [ inl q ↦ q | inr (q, _) ↦ cc ])
]

module _ {Guest : Type 0} (reg : Registry) (render : RegistryError → String)
    (categories : List (Handler Guest)) where
  -- The validator is well-formed, and the first category that owns its tag found it satisfied.
  abbrev pub IsSatisfied : Ctx → Guest → Validator → Type 0
  IsSatisfied ctx g v =
      WellFormed reg v × ((o : CheckOutcome) × AnsweredBy categories ctx v g o × (o.passed ≡ true))

  no_error : (err : RegistryError) → ¬ (none ≡ some err)
  no_error err e = cc

  handled_iff :
      (v : Validator) (o : Option CheckOutcome)
      → ((apply_overrides v (handled v o)).passed ≡ true)
        ↔ ((c : CheckOutcome) × (o ≡ some c) × (c.passed ≡ true))
  unfolding error
  handled_iff v none =
      let (same, _, _) = apply_overrides-SameVerdict v (handled v none) in
      (λ h. cc, λ (c, e, p). cc)
  handled_iff v (some o) =
      let (same, _, _) = apply_overrides-SameVerdict v o in
      (
        λ h. (o, refl, sym same ∙ h),
        λ (c, e, p). let q : o ≡ c = ground (arith, e) in same ∙ (rw q p),
      )

  evaluate_iff :
      (ctx : Ctx) (v : Validator) (g : Guest)
      → ((evaluate reg render categories ctx v g).0.passed ≡ true) ↔ IsSatisfied ctx g v
  unfolding evaluate error
  evaluate_iff ctx v g = elim (Option-cases (check reg v)) [
    | inl e ↦
        let found = handled_iff v ((dispatch categories ctx v g).0) in
        let answer = dispatch_iff categories ctx v g in
        rw e (
          λ h. let (o, q, p) = found.0 h in ((check_iff reg v).0 e, (o, (answer o).0 q, p)),
          λ (_, (o, a, p)). found.1 (o, (answer o).1 a, p),
        )
    | inr (err, e) ↦
        rw e (λ h. cc, λ (w, _). absurd (no_error err (sym ((check_iff reg v).1 w) ∙ e)))
  ]

  -- Each validator is satisfied in the guest as the ones before have left it.
  pub AllSatisfied : Ctx → Guest → List Validator → Type 0
  AllSatisfied ctx g [] = Unit
  AllSatisfied ctx g (v ∷ vs) =
      IsSatisfied ctx g v × AllSatisfied ctx ((evaluate reg render categories ctx v g).1) vs

  run_all_iff :
      (ctx : Ctx) (vs : List Validator) (g : Guest)
      → All Passed ((run_all reg render categories ctx vs g).0) ↔ AllSatisfied ctx g vs
  unfolding run_all AllSatisfied
  run_all_iff ctx [] g = (λ h. tt, λ h. tt)
  run_all_iff ctx (v ∷ vs) g =
      let this = evaluate_iff ctx v g in
      let rest = run_all_iff ctx vs ((evaluate reg render categories ctx v g).1) in
      (λ (p, ps). (this.0 p, rest.0 ps), λ (s, ss). (this.1 s, rest.1 ss))

  run_all_empty :
      (ctx : Ctx) (vs : List Validator) (g : Guest)
      → ((run_all reg render categories ctx vs g).0 ≡ []) ↔ (vs ≡ [])
  unfolding run_all
  run_all_empty ctx [] g = (λ h. refl, λ h. refl)
  run_all_empty ctx (v ∷ vs) g = (λ h. cc, λ h. cc)

  -- A task passes exactly if it has validators and each of them is well-formed for the registry and
  -- answered with a passing outcome by the first of the categories that does not decline its tag, in
  -- the guest as the validators before have left it: none that is unknown, not implemented,
  -- malformed or declined by every category lets a task pass.
  pub validate_task-passed_iff :
      (fl : Float64) (ctx : Ctx) (lesson task : String) (vs : List Validator) (g : Guest)
      → ((validate_task reg render categories fl ctx lesson task vs g).0.passed ≡ true)
        ↔ ((vs ≢ []) × AllSatisfied ctx g vs)
  unfolding validate_task
  validate_task-passed_iff fl ctx lesson task vs g =
      let verdict =
        from_outcomes-passed_iff fl lesson task ((run_all reg render categories ctx vs g).0) in
      let all = run_all_iff ctx vs g in
      let empty = run_all_empty ctx vs g in
      (
        λ h. let (some_check, passed) = verdict.0 h in (λ e. some_check (empty.1 e), all.0 passed),
        λ (some_check, satisfied). verdict.1 (λ e. some_check (empty.0 e), all.1 satisfied),
      )
