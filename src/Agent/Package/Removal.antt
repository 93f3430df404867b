-- ===== src/Agent/Package/Removal.antt =====
-- What a removed package is, and what the check takes for one.
use Prim.Native.String.{String}
use linuxpracticelab.Common.{◌≡◌, ◌≢◌, ◌↔◌, Bool, true, ◌&&◌, Option, none, some, refl, arith}
use linuxpracticelab.SharedTypes.Lesson.{Validator, str_param}
use linuxpracticelab.SharedTypes.Validation.{pass, fail, expected, observed}
use linuxpracticelab.Agent.Args.{flag}
use linuxpracticelab.Agent.System.{System}
use linuxpracticelab.Agent.System.Accounts.{same}
use linuxpracticelab.Agent.Outcomes.{
  Passes, through, both, negated, passes_unless, passes_if_not, and_iff, same_iff, arg-string,
}
use linuxpracticelab.Agent.Package.{dpkg_query, dpkg_status, status_in, removed_as, package_removed}

-- The status leaves nothing of the package that the check asks about.
abbrev pub IsGone : Bool → String → Type 0
IsGone purged status = (status ≢ "installed") × ¬ ((purged ≡ true) × (status ≡ "config-files"))

module _ (v : Validator) (pkg : String) where
  removed_as_iff :
      (purged : Bool) (status version : String)
      → Passes (removed_as v pkg purged (some (status, version))) ↔ IsGone purged status
  unfolding pass fail expected observed
  removed_as_iff purged status version =
      through (passes_if_not (same status "installed") _ _ refl) (
        both (negated (same_iff status "installed")) (
          through (passes_unless (purged && same status "config-files") _ _ refl refl) (
            negated (
              through (and_iff purged (same status "config-files"))
                (both (λ h. h, λ h. h) (same_iff status "config-files"))))))

  -- A package passes as removed exactly if dpkg reports a status that is not `installed` (nor, where
  -- it is to be purged, `config-files`), or reports none: an error of dpkg itself, a time-out
  -- included, passes like an unknown package.
  pub package_removed_iff :
      (sys : System)
      → str_param v "package" ≡ some pkg
      → Passes (package_removed sys v) ↔ (
          (status : String) (version : String)
          → status_in (dpkg_query sys pkg) ≡ some (status, version)
          → IsGone (flag v "purged") status)
  unfolding package_removed dpkg_status pass
  package_removed_iff sys here =
      rw (arg-string v "package" pkg _ here) (whatever (status_in (dpkg_query sys pkg)))
    where
      whatever :
          (o : Option (String × String))
          → Passes (removed_as v pkg (flag v "purged") o) ↔ (
              (status version : String)
              → o ≡ some (status, version)
              → IsGone (flag v "purged") status)
      whatever none = (λ h s w e. cc, λ h. refl)
      whatever (some (status, version)) =
          let one = removed_as_iff (flag v "purged") status version in
          (
            λ h s w e. let known : status ≡ s = ground (arith, e) in rw (← known) (one.0 h),
            λ h. one.1 (h status version refl),
          )
