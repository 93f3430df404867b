-- ===== src/Agent/Filesystem/Contents.antt =====
-- guest/linuxlab-agent/src/validators/filesystem.rs: the checks of what a file holds.
use Prim.Native.String.{String, ◌++◌}
use linuxpracticelab.Common.{
  ℕ, Bool, true, not, ◌⊎◌, inl, inr, none, List, [], ◌∷◌, map, length, if◌then◌else◌,
}
use linuxpracticelab.Common.Int.{pos, show_int}
use linuxpracticelab.Common.Text.{
  trim, lines, join, contains, split_whitespace, eq_ignore_ascii_case,
}
use linuxpracticelab.SharedTypes.Lesson.{Validator}
use linuxpracticelab.SharedTypes.Validation.{CheckOutcome, pass, fail, error, expected, observed}
use linuxpracticelab.SharedTypes.Validation.Category.{
  FailureCategory, wrong_path, wrong_file_contents, permission_denied,
}
use linuxpracticelab.Agent.Args.{
  ArgResult, arg, path, string, flag, flag_or, Bounds, read, satisfied_by, describe,
}
use linuxpracticelab.Agent.System.{System, IoError, CommandOutput, success, stdout_trimmed}

abbrev pub category_of_error : IoError → FailureCategory
category_of_error err = if err.is_permission_denied then permission_denied else wrong_path

abbrev pub text_of : String → String ⊎ IoError → ArgResult String
text_of p (inl content) = inl content
text_of p (inr err) =
    inr (fail "read" (p ++ (" could not be read (" ++ (err.text ++ ")."))) (category_of_error err))

unfoldable pub read_text : System → String → ArgResult String
read_text sys p = text_of p (sys.read p)

unfoldable pub normalise : System → Bool → Bool → String → String
normalise sys trims case_sensitive text =
    let shown = if trims then join "\n" (map trim (lines text)) else text in
    if case_sensitive then shown else sys.to_lowercase shown

abbrev pub contained : Validator → String → String → Bool → CheckOutcome
contained v p needle test =
    if test
    then pass v.kind (p ++ " contains the expected text.")
    else expected (fail v.kind (p ++ " does not contain the expected text.") wrong_file_contents)
        needle

abbrev pub normalise_for : System → Validator → String → String
normalise_for sys v text = normalise sys (flag v "trim") (flag_or v "caseSensitive" true) text

unfoldable pub file_contains : System → Validator → CheckOutcome
file_contains sys v = arg (path v "path") (λ p. arg (string v "text") (λ needle.
    arg (read_text sys p) (λ content.
      contained v p needle (contains (normalise_for sys v content) (normalise_for sys v needle)))))

abbrev pub matched : Validator → String → String → String → (String → Bool) ⊎ String → CheckOutcome
matched v p pattern' content (inr err) = error v.kind ("the pattern is not a valid regex: " ++ err)
matched v p pattern' content (inl is_match) =
    if is_match content
    then pass v.kind (p ++ " matches the expected pattern.")
    else expected (fail v.kind (p ++ " does not match the expected pattern.") wrong_file_contents)
        pattern'

unfoldable pub file_matches_regex : System → Validator → CheckOutcome
file_matches_regex sys v = arg (path v "path") (λ p. arg (string v "pattern") (λ pattern'.
    arg (read_text sys p) (λ content.
      matched v p pattern' content
        (sys.regex pattern' (not (flag_or v "caseSensitive" true)) (flag_or v "multiline" true)))))

abbrev pub counted : Validator → String → Bounds → ℕ → CheckOutcome
counted v p bounds actual =
    if satisfied_by bounds (pos actual)
    then pass v.kind (p ++ (" has " ++ (show_int (pos actual) ++ " lines.")))
    else observed
        (expected
          (fail v.kind (p ++ " does not have the expected number of lines.") wrong_file_contents)
          (describe bounds))
        (show_int (pos actual))

unfoldable pub file_line_count : System → Validator → CheckOutcome
file_line_count sys v =
    arg (path v "path")
      (λ p. arg (read_text sys p) (λ content. counted v p (read v) (length (lines content))))

abbrev pub first_or_empty : List String → String
first_or_empty [] = ""
first_or_empty (s ∷ ss) = s

abbrev pub hash_compared : Validator → String → String → String → CheckOutcome
hash_compared v p wanted actual =
    if eq_ignore_ascii_case actual wanted
    then pass v.kind (p ++ " has the expected contents.")
    else observed
        (expected (fail v.kind (p ++ " does not have the expected contents.") wrong_file_contents)
          wanted)
        actual

abbrev pub hashed : Validator → String → String → CommandOutput ⊎ String → CheckOutcome
hashed v p wanted (inr err) = error v.kind err
hashed v p wanted (inl output) =
    if success output
    then hash_compared v p wanted (first_or_empty (split_whitespace (stdout_trimmed output)))
    else fail v.kind (p ++ " could not be hashed. Does it exist?") wrong_path

unfoldable pub file_checksum : System → Validator → CheckOutcome
file_checksum sys v = arg (path v "path") (λ p.
    arg (string v "sha256")
      (λ wanted. hashed v p wanted (sys.run "sha256sum" ("--" ∷ p ∷ []) none)))
