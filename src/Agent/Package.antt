-- ===== src/Agent/Package.antt =====
-- guest/linuxlab-agent/src/validators/package.rs: the checks of packages and their sources.
pub mod Removal
use Prim.Native.String.{String, ◌++◌}
use linuxpracticelab.Common.{
  ℕ, ◌-◌, ◌/◌, ◌^◌, Bool, true, false, not, ◌&&◌, ◌||◌, ◌⊎◌, inl, inr, Option, none, some, List, [],
  ◌∷◌, map, select, find, any, ltb, if◌then◌else◌,
}
use linuxpracticelab.Common.Assoc.{Assoc, lookup}
use linuxpracticelab.Common.Decimal.{decimal}
use linuxpracticelab.Common.Int.{ℤ, pos, negsuc, earlier, show_int}
use linuxpracticelab.Common.Text.{
  is_blank, trim, starts_with, ends_with, split_once, lines, join, contains,
}
use linuxpracticelab.SharedTypes.Lesson.{Validator, str_param, i64_param}
use linuxpracticelab.SharedTypes.Validation.{CheckOutcome, pass, fail, error, expected, observed}
use linuxpracticelab.SharedTypes.Validation.Category.{task_partially_completed}
use linuxpracticelab.Agent.Args.{arg, string, flag, unwrap_or}
use linuxpracticelab.Agent.System.{System, IoError, CommandOutput, success, stdout_trimmed}
use linuxpracticelab.Agent.System.Accounts.{same, present}
use linuxpracticelab.Agent.Validators.{Ctx}

abbrev incomplete : Validator → String → CheckOutcome
incomplete v message = fail v.kind message task_partially_completed

abbrev halves : String → Option (String × String) → String × String
halves whole none = (whole, "")
halves whole (some (status, version)) = (status, trim version)

abbrev pub status_in : CommandOutput ⊎ String → Option (String × String)
status_in (inr err) = none
status_in (inl output) =
    if success output
    then some (halves (stdout_trimmed output) (split_once 32 (stdout_trimmed output)))
    else none

abbrev pub dpkg_query : System → String → CommandOutput ⊎ String
dpkg_query sys pkg =
    sys.run "dpkg-query" ("-W" ∷ "-f=${db:Status-Status} ${Version}" ∷ "--" ∷ pkg ∷ []) none

-- The status and the version of a package; `none` where dpkg does not know it or cannot be asked.
unfoldable pub dpkg_status : System → String → Option (String × String)
dpkg_status sys pkg = status_in (dpkg_query sys pkg)

abbrev installed : Validator → String → String → CheckOutcome
installed v pkg version = observed (pass v.kind (pkg ++ " is installed.")) version

abbrev at_version : Validator → String → String → Option String → CheckOutcome
at_version v pkg version none = installed v pkg version
at_version v pkg version (some wanted) =
    if same version wanted
    then installed v pkg version
    else observed
        (expected (incomplete v (pkg ++ " is installed, but not at the expected version.")) wanted)
        version

abbrev installed_as : Validator → String → Option (String × String) → CheckOutcome
installed_as v pkg none = incomplete v (pkg ++ " is not installed.")
installed_as v pkg (some (status, version)) =
    if same status "installed"
    then at_version v pkg version (str_param v "version")
    else observed
        (expected
          (incomplete v (
            pkg
            ++ (" is known to the system but its state is '"
                ++ (status ++ "' rather than installed."))))
          "installed")
        status

unfoldable pub package_installed : System → Validator → CheckOutcome
package_installed sys v = arg (string v "package") (λ pkg. installed_as v pkg (dpkg_status sys pkg))

abbrev left_over : Validator → String → Bool → String → CheckOutcome
left_over v pkg purged status =
    if purged && same status "config-files"
    then observed
        (expected
          (incomplete v (
            pkg
            ++ " was removed, but its configuration files are still there. Removing a package and purging it are different operations."))
          "no configuration files left")
        status
    else observed (pass v.kind (pkg ++ " is removed.")) status

abbrev pub removed_as : Validator → String → Bool → Option (String × String) → CheckOutcome
removed_as v pkg purged none = pass v.kind (pkg ++ " is not present.")
removed_as v pkg purged (some (status, version)) =
    if same status "installed"
    then observed (incomplete v (pkg ++ " is still installed.")) status
    else left_over v pkg purged status

unfoldable pub package_removed : System → Validator → CheckOutcome
package_removed sys v =
    arg (string v "package") (λ pkg. removed_as v pkg (flag v "purged") (dpkg_status sys pkg))

abbrev source_file : System → String → Option (String × String)
source_file sys p = elim (sys.read_to_string p) [ none ↦ none | some content ↦ some (p, content) ]

abbrev is_source : String → Bool
is_source name =
    ends_with name ".list" && not (same name ".list")
    || ends_with name ".sources" && not (same name ".sources")

abbrev listed_sources : System → List String ⊎ IoError → List (Option (String × String))
listed_sources sys (inr err) = []
listed_sources sys (inl names) =
    map (λ name. source_file sys ("/etc/apt/sources.list.d/" ++ name)) (select is_source names)

-- The source files that can be read, each with its path.
abbrev pub sources_of : System → Option String → List (String × String)
sources_of sys (some file) = present (source_file sys file ∷ [])
sources_of sys none = present (
    source_file sys "/etc/apt/sources.list"
    ∷ listed_sources sys (sys.read_dir "/etc/apt/sources.list.d"))

unfoldable pub mentions : String → String → Bool
mentions uri content =
    any (λ line. contains line uri)
      (select (λ line. not (starts_with line "#") && not (is_blank line))
        (map trim (lines content)))

abbrev configured_as :
    Validator → String → List (String × String) → Option (String × String) → CheckOutcome
configured_as v uri sources (some (p, content)) =
    observed (pass v.kind (uri ++ " is configured as a package source.")) p
configured_as v uri sources none =
    observed (expected (incomplete v (uri ++ " is not configured as a package source.")) uri)
      (join ", " (map (λ (source : String × String). source.0) sources))

abbrev configured_in : Validator → String → List (String × String) → CheckOutcome
configured_in v uri [] = incomplete v "No apt source files could be read."
configured_in v uri (source ∷ sources) =
    configured_as v uri (source ∷ sources)
      (find (λ (s : String × String). mentions uri s.1) (source ∷ sources))

unfoldable pub repository_configured : System → Validator → CheckOutcome
repository_configured sys v =
    arg (string v "uri") (λ uri. configured_in v uri (sources_of sys (str_param v "file")))

abbrev compared_as :
    Validator → String → String → String → String → CommandOutput ⊎ String → CheckOutcome
compared_as v pkg actual comparison wanted (inr err) = error v.kind err
compared_as v pkg actual comparison wanted (inl output) =
    if success output
    then pass v.kind
        (pkg ++ (" " ++ (actual ++ (" satisfies " ++ (comparison ++ (" " ++ (wanted ++ ".")))))))
    else observed
        (expected
          (incomplete v
            ("The installed version of " ++ (pkg ++ " does not satisfy the requirement.")))
          (comparison ++ (" " ++ wanted)))
        actual

abbrev version_as :
    System → Validator → String → String → String → Option (String × String) → CheckOutcome
version_as sys v pkg wanted comparison none =
    incomplete v (pkg ++ " is not installed, so its version cannot be compared.")
version_as sys v pkg wanted comparison (some (status, actual)) =
    if same status "installed"
    then compared_as v pkg actual comparison wanted
        (sys.run "dpkg" ("--compare-versions" ∷ actual ∷ comparison ∷ wanted ∷ []) none)
    else incomplete v (pkg ++ (" is not installed (state '" ++ (status ++ "').")))

unfoldable pub package_version : System → Validator → CheckOutcome
package_version sys v = arg (string v "package") (λ pkg. arg (string v "version") (λ wanted.
    version_as sys v pkg wanted (unwrap_or (str_param v "comparison") "eq") (dpkg_status sys pkg)))

-- `unwrap_or(3600).max(1)`
abbrev max_age : Option ℤ → ℤ
max_age none = pos 3600
max_age (some age) = if earlier age (pos 1) then pos 1 else age

abbrev later_of : Option ℕ → Option ℕ → Option ℕ
later_of none b = b
later_of (some a) none = some a
later_of (some a) (some b) = if ltb a b then some b else some a

abbrev refreshed_as : Validator → ℤ → ℤ → CheckOutcome
refreshed_as v age limit =
    if not (earlier limit age)
    then pass v.kind "The package lists have been refreshed recently."
    else observed
        (expected
          (incomplete v
            "The package lists are stale. Run apt update so apt knows what is available.")
          ("refreshed within " ++ (show_int limit ++ "s")))
        (show_int age ++ "s old")

-- A time in the future has the age 0.
abbrev cache_as : System → Validator → Option ℕ → CheckOutcome
cache_as sys v none =
    incomplete v "The package lists have never been downloaded. Run apt update first."
cache_as sys v (some time) =
    refreshed_as v (pos ((sys.now - time) / 10 ^ 9)) (max_age (i64_param v "maxAgeSeconds"))

unfoldable pub apt_cache_updated : System → Validator → CheckOutcome
apt_cache_updated sys v = cache_as sys v (
    later_of (sys.modified "/var/lib/apt/periodic/update-success-stamp")
      (sys.modified "/var/lib/apt/lists"))

abbrev pub package_handlers : System → Validator → Assoc CheckOutcome
package_handlers sys v =
    ("package_installed", package_installed sys v)
    ∷ ("package_removed", package_removed sys v)
    ∷ ("repository_configured", repository_configured sys v)
    ∷ ("package_version", package_version sys v)
    ∷ ("apt_cache_updated", apt_cache_updated sys v)
    ∷ []

unfoldable pub package_dispatch : System → Ctx → Validator → Option CheckOutcome
package_dispatch sys ctx v = lookup v.kind (package_handlers sys v)
