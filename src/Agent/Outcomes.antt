-- ===== src/Agent/Outcomes.antt =====
-- When the outcome that a check builds has passed.
use Prim.Native.String.{String}
use text.Mathlib.TextEquality.{eq_iff}
use linuxpracticelab.Common.{
  ◌≡◌, ◌≢◌, ◌&&◌, ◌↔◌, Bool, true, false, some, arith, refl, if◌then◌else◌,
}
use linuxpracticelab.SharedTypes.Lesson.{Validator, str_param}
use linuxpracticelab.SharedTypes.Validation.{CheckOutcome}
use linuxpracticelab.Agent.Args.{arg, path, string}
use linuxpracticelab.Agent.System.Accounts.{same}

pub through {ℓ κ μ} : {P : Type ℓ} {Q : Type κ} {R : Type μ} → P ↔ Q → Q ↔ R → P ↔ R
through f g = (λ p. g.0 (f.0 p), λ r. f.1 (g.1 r))

pub negated {ℓ κ} : {P : Type ℓ} {Q : Type κ} → P ↔ Q → (¬ P) ↔ (¬ Q)
negated f = (λ h q. h (f.1 q), λ h p. h (f.0 p))

pub same_iff : (s t : String) → (same s t ≡ true) ↔ (s ≡ t)
same_iff s t = (λ h. ground (arith, eq_iff s t), λ h. ground (arith, eq_iff s t))

-- The outcome that a test chooses.
pub passes_if :
    (b : Bool) (x y : CheckOutcome)
    → x.passed ≡ true
    → y.passed ≡ false
    → ((if b then x else y).passed ≡ true) ↔ (b ≡ true)
passes_if true x y good bad = (λ h. refl, λ h. good)
passes_if false x y good bad = (λ h. cc, λ h. cc)

pub passes_unless :
    (b : Bool) (x y : CheckOutcome)
    → x.passed ≡ false
    → y.passed ≡ true
    → ((if b then x else y).passed ≡ true) ↔ (b ≢ true)
passes_unless true x y bad good = (λ h. cc, λ h. absurd (h refl))
passes_unless false x y bad good = (λ h e. cc, λ h. good)

pub passes_and :
    (b : Bool) (x y : CheckOutcome)
    → y.passed ≡ false
    → ((if b then x else y).passed ≡ true) ↔ ((b ≡ true) × (x.passed ≡ true))
passes_and true x y bad = (λ h. (refl, h), λ (_, h). h)
passes_and false x y bad = (λ h. cc, λ (h, _). cc)

pub passes_if_not :
    (b : Bool) (x y : CheckOutcome)
    → x.passed ≡ false
    → ((if b then x else y).passed ≡ true) ↔ ((b ≢ true) × (y.passed ≡ true))
passes_if_not true x y bad = (λ h. cc, λ (n, h). absurd (n refl))
passes_if_not false x y bad = (λ h. (λ e. cc, h), λ (_, h). h)

pub and_iff : (a b : Bool) → ((a && b) ≡ true) ↔ ((a ≡ true) × (b ≡ true))
and_iff true b = (λ h. (refl, h), λ (_, h). h)
and_iff false b = (λ h. cc, λ (h, _). cc)

pub passes_otherwise :
    (b : Bool) (x y : CheckOutcome)
    → b ≡ false
    → ((if b then x else y).passed ≡ true) ↔ (y.passed ≡ true)
passes_otherwise true x y h = cc
passes_otherwise false x y h = (λ p. p, λ p. p)

pub both {ℓ κ μ ν} :
    {P : Type ℓ} {Q : Type κ} {R : Type μ} {S : Type ν} → P ↔ Q → R ↔ S → (P × R) ↔ (Q × S)
both f g = (λ (p, r). (f.0 p, g.0 r), λ (q, s). (f.1 q, g.1 s))

pub arg-string :
    (v : Validator) (param s : String) (next : String → CheckOutcome)
    → str_param v param ≡ some s
    → arg (string v param) next ≡ next s
unfolding string
arg-string v param s next h = rw h refl

pub arg-path :
    (v : Validator) (param s : String) (next : String → CheckOutcome)
    → str_param v param ≡ some s
    → arg (path v param) next ≡ next s
unfolding path
arg-path v param s next h = arg-string v param s next h

abbrev pub Passes : CheckOutcome → Type 0
Passes o = o.passed ≡ true
