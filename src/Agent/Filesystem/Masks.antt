-- ===== src/Agent/Filesystem/Masks.antt =====
-- The permissions that a check compares, bit by bit.
use Prim.Native.String.{String}
use linuxpracticelab.Common.{ℕ, ◌≡◌, ◌↔◌, Option, none, some, refl, ==_iff, arith}
use linuxpracticelab.Common.Bits.{AgreeOn, masked_iff}
use linuxpracticelab.SharedTypes.Lesson.{Validator, str_param}
use linuxpracticelab.SharedTypes.Validation.{pass, fail, error, expected, observed}
use linuxpracticelab.Agent.System.{System}
use linuxpracticelab.Agent.System.Modes.{stat}
use linuxpracticelab.Agent.Filesystem.Objects.{
  mode_param, mask_of, mode_as, permitted_as, file_mode,
}
use linuxpracticelab.Agent.Outcomes.{Passes, through, passes_if, arg-path}
use linuxpracticelab.Agent.Filesystem.Facts.{Found, found_lem}

module _ (sys : System) (v : Validator) (p : String) where
  permitted_iff :
      (mode : ℕ)
      → Passes (permitted_as v p mode (mask_of v) (stat sys p))
        ↔ Found (λ facts. AgreeOn (mask_of v) facts.permissions mode) (stat sys p)
  unfolding pass fail expected observed
  permitted_iff mode =
      found_lem _ (permitted_as v p mode (mask_of v)) refl
        (λ facts.
          through (through (passes_if _ _ _ refl refl) (==_iff _ _))
            (masked_iff (mask_of v) facts.permissions mode))
        (stat sys p)

  mode_as_iff :
      (o : Option ℕ)
      → Passes (mode_as sys v p o) ↔ (
          (mode : ℕ) × (o ≡ some mode)
          × Found (λ facts. AgreeOn (mask_of v) facts.permissions mode) (stat sys p))
  unfolding error
  mode_as_iff none = (λ h. cc, λ (mode, e, f). cc)
  mode_as_iff (some wanted) =
      let same = permitted_iff wanted in
      (
        λ h. (wanted, refl, same.0 h),
        λ (mode, e, f). let known : mode ≡ wanted = ground (arith, e) in same.1 (rw (← known) f),
      )

  -- A check of permissions passes exactly if its mode can be read, the path leads to something, and
  -- the permissions found have the bits of that mode wherever the mask has a one.
  pub file_mode_iff :
      str_param v "path" ≡ some p
      → Passes (file_mode sys v) ↔ (
          (mode : ℕ) × (mode_param v "mode" ≡ some mode)
          × Found (λ facts. AgreeOn (mask_of v) facts.permissions mode) (stat sys p))
  unfolding file_mode
  file_mode_iff here =
      rw (arg-path v "path" p (λ p. mode_as sys v p (mode_param v "mode")) here)
        (mode_as_iff (mode_param v "mode"))
