-- ===== src/Agent/Tests/Programs.antt =====
-- A guest whose systemctl cannot reach the bus and whose dpkg cannot be run.
use Prim.Native.String.{String}
use text.Mathlib.Text
use linuxpracticelab.Common.{◌≡◌, ◌≢◌, ◌↔◌, ◌⊎◌, inl, inr, true, false, some, refl, if◌then◌else◌}
use linuxpracticelab.Common.Int.{pos}
use linuxpracticelab.Common.Text.{trim_front, trim_back, starts_with}
use linuxpracticelab.SharedTypes.Json.{Json, Members, get}
use linuxpracticelab.SharedTypes.Lesson.{Validator, str_param}
use linuxpracticelab.SharedTypes.Validation.{pass, fail, observed, expected}
use linuxpracticelab.Agent.Args.{string, flag}
use linuxpracticelab.Agent.System.{System, CommandOutput, stdout_trimmed}
use linuxpracticelab.Agent.Outcomes.{Passes}
use linuxpracticelab.Agent.Service.{
  all_unit_chars, safe_unit, printed_state, service_state, service_active, service_inactive,
  service_enabled, service_disabled,
}
use linuxpracticelab.Agent.Service.States.{Answers, IsRefused, service_state_lem, unit_rejected}
use linuxpracticelab.Agent.Service.Units.{IsUnitName}
use linuxpracticelab.Agent.Package.{dpkg_query, status_in, dpkg_status, package_removed}
use linuxpracticelab.Agent.Package.Removal.{IsGone, package_removed_iff}
use linuxpracticelab.Agent.Tests.Paths.{guest}

abbrev unreachable : CommandOutput
unreachable = record {
  status = pos 1;
  stdout = "";
  stderr = "Failed to connect to bus";
  timed_out = false;
}

abbrev answered : String → CommandOutput ⊎ String
answered program =
    if text.Mathlib.Text.◌==◌ program "systemctl" then inl unreachable else inr "could not run it"

abbrev machine : System
machine = record guest { run = λ program arguments limit. answered program }

abbrev of_unit : String → Validator
of_unit unit = record {
  kind = "service_inactive";
  params = Members.member "unit" (Json.string unit) Members.end;
}

inactive_run :
    ((service_inactive machine (of_unit "nginx.service")).passed ≡ true)
    × (printed_state unreachable ≡ "Failed to connect to bus")
unfolding service_inactive service_state safe_unit string str_param get starts_with all_unit_chars
    stdout_trimmed trim_front trim_back pass fail observed expected
inactive_run = (refl, refl)

service_state_lem_example :
    let v = of_unit "nginx.service" in
    (Passes (service_active machine v) ↔ Answers machine v "is-active" (λ word. word ≡ "active"))
    × (Passes (service_inactive machine v)
        ↔ Answers machine v "is-active" (λ word. word ≢ "active"))
    × (Passes (service_enabled machine v)
        ↔ Answers machine v "is-enabled" (λ word. word ≡ "enabled"))
    × (Passes (service_disabled machine v)
        ↔ Answers machine v "is-enabled" (λ word. word ≢ "enabled"))
service_state_lem_example = service_state_lem machine (of_unit "nginx.service")

dashed_unit : str_param (of_unit "--now") "unit" ≡ some "--now"
unfolding str_param get
dashed_unit = refl

unit_rejected_example : IsRefused (of_unit "--now") "--now" ↔ (¬ IsUnitName "--now")
unit_rejected_example = unit_rejected machine (of_unit "--now") "--now" dashed_unit

abbrev of_package : Validator
of_package = record {
  kind = "package_removed";
  params = Members.member "package" (Json.string "nginx") Members.end;
}

nginx_package : str_param of_package "package" ≡ some "nginx"
unfolding str_param get
nginx_package = refl

package_removed_run : (package_removed machine of_package).passed ≡ true
unfolding package_removed dpkg_status string str_param get pass
package_removed_run = refl

package_removed_iff_example : Passes (package_removed machine of_package) ↔ (
    (status version : String)
    → status_in (dpkg_query machine "nginx") ≡ some (status, version)
    → IsGone (flag of_package "purged") status)
package_removed_iff_example = package_removed_iff of_package "nginx" machine nginx_package
