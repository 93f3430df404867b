-- ===== src/SharedTypes/Validation/Category.antt =====
-- The failure categories of crates/shared-types/src/validation.rs, their guidance, and the
-- derived equality, which compares discriminants.
use Prim.Native.String.{String}
use linuxpracticelab.Common.{
  ℕ, zero, suc, ◌≡◌, ◌↔◌, refl, ap, sym, ◌∙◌, Bool, true, ◌==◌, ==_iff, List, [], ◌∷◌,
}

pub data FailureCategory : Type 0 where
  command_not_found : FailureCategory
  invalid_option : FailureCategory
  wrong_working_directory : FailureCategory
  wrong_path : FailureCategory
  permission_denied : FailureCategory
  file_already_exists : FailureCategory
  wrong_file_type : FailureCategory
  wrong_file_contents : FailureCategory
  wrong_ownership : FailureCategory
  wrong_permissions : FailureCategory
  process_not_running : FailureCategory
  service_not_active : FailureCategory
  wrong_port : FailureCategory
  incorrect_redirect : FailureCategory
  pipeline_output_incorrect : FailureCategory
  script_syntax_failure : FailureCategory
  script_logic_failure : FailureCategory
  network_unreachable : FailureCategory
  dns_failure : FailureCategory
  task_partially_completed : FailureCategory

unfoldable pub discriminant : FailureCategory → ℕ
discriminant command_not_found = 0
discriminant invalid_option = 1
discriminant wrong_working_directory = 2
discriminant wrong_path = 3
discriminant permission_denied = 4
discriminant file_already_exists = 5
discriminant wrong_file_type = 6
discriminant wrong_file_contents = 7
discriminant wrong_ownership = 8
discriminant wrong_permissions = 9
discriminant process_not_running = 10
discriminant service_not_active = 11
discriminant wrong_port = 12
discriminant incorrect_redirect = 13
discriminant pipeline_output_incorrect = 14
discriminant script_syntax_failure = 15
discriminant script_logic_failure = 16
discriminant network_unreachable = 17
discriminant dns_failure = 18
discriminant task_partially_completed = 19

unfoldable pub guidance : FailureCategory → String
guidance command_not_found =
    "The shell could not find that command. Check the spelling, and check PATH."
guidance invalid_option = "The command ran but rejected an option. Compare it against --help."
guidance wrong_working_directory =
    "You are not in the directory the task expects. Run pwd to check."
guidance wrong_path = "The path does not exist yet, or it was created somewhere else."
guidance permission_denied =
    "The account you used is not allowed to do that. Consider whether sudo is required."
guidance file_already_exists =
    "Something already exists at that path, so the command refused to overwrite it."
guidance wrong_file_type =
    "The path exists but is the wrong kind of object, for example a directory where a file was expected."
guidance wrong_file_contents = "The file exists but its contents are not what the task asked for."
guidance wrong_ownership = "The owner or group is not what the task asked for."
guidance wrong_permissions = "The permission bits are not what the task asked for."
guidance process_not_running = "The expected process is not running."
guidance service_not_active = "The service is not in the expected state. Check systemctl status."
guidance wrong_port =
    "Nothing is listening on the expected port, or it is bound to the wrong address."
guidance incorrect_redirect =
    "Output went somewhere other than where the task expected. Check > against >> and 2>."
guidance pipeline_output_incorrect =
    "The pipeline ran but produced different output. Compare it a stage at a time."
guidance script_syntax_failure = "The script does not parse. Check quoting and block keywords."
guidance script_logic_failure = "The script runs but produces the wrong result."
guidance network_unreachable = "The target could not be reached. Work up from the interface."
guidance dns_failure = "The name did not resolve. Test the resolver directly with dig."
guidance task_partially_completed =
    "Part of this task is done. The remaining checks are listed below."

unfoldable pub same_category : FailureCategory → FailureCategory → Bool
same_category a b = discriminant a == discriminant b

nth : List FailureCategory → ℕ → FailureCategory
nth [] n = command_not_found
nth (c ∷ cs) zero = c
nth (c ∷ cs) (suc n) = nth cs n

abbrev categories : List FailureCategory
categories =
    command_not_found ∷ invalid_option ∷ wrong_working_directory ∷ wrong_path ∷ permission_denied
    ∷ file_already_exists ∷ wrong_file_type ∷ wrong_file_contents ∷ wrong_ownership
    ∷ wrong_permissions ∷ process_not_running ∷ service_not_active ∷ wrong_port ∷ incorrect_redirect
    ∷ pipeline_output_incorrect ∷ script_syntax_failure ∷ script_logic_failure ∷ network_unreachable
    ∷ dns_failure ∷ task_partially_completed ∷ []

nth-discriminant : (c : FailureCategory) → nth categories (discriminant c) ≡ c
unfolding nth discriminant
nth-discriminant command_not_found = refl
nth-discriminant invalid_option = refl
nth-discriminant wrong_working_directory = refl
nth-discriminant wrong_path = refl
nth-discriminant permission_denied = refl
nth-discriminant file_already_exists = refl
nth-discriminant wrong_file_type = refl
nth-discriminant wrong_file_contents = refl
nth-discriminant wrong_ownership = refl
nth-discriminant wrong_permissions = refl
nth-discriminant process_not_running = refl
nth-discriminant service_not_active = refl
nth-discriminant wrong_port = refl
nth-discriminant incorrect_redirect = refl
nth-discriminant pipeline_output_incorrect = refl
nth-discriminant script_syntax_failure = refl
nth-discriminant script_logic_failure = refl
nth-discriminant network_unreachable = refl
nth-discriminant dns_failure = refl
nth-discriminant task_partially_completed = refl

pub same_category_iff : (a b : FailureCategory) → (same_category a b ≡ true) ↔ (a ≡ b)
unfolding same_category
same_category_iff a b = (
  λ h. sym (nth-discriminant a) ∙ ap (nth categories) ((==_iff _ _).0 h) ∙ nth-discriminant b,
  λ e. (==_iff _ _).1 (ap discriminant e),
)
