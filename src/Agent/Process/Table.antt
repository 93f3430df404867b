-- ===== src/Agent/Process/Table.antt =====
-- guest/linuxlab-agent/src/validators/process.rs: the processes that checks look at, and how they are
-- shown.
use Prim.Native.String.{String}
use Prim.Native.String
use linuxpracticelab.Common.{
  ℕ, zero, suc, ◌+◌, Bool, not, ◌&&◌, List, [], ◌∷◌, ◌++◌, map, select, any, is_empty, take, leb,
  ◌==◌, if◌then◌else◌,
}
use linuxpracticelab.Common.Decimal.{decimal}
use linuxpracticelab.Common.Text.{join}
use linuxpracticelab.Agent.System.{System}
use linuxpracticelab.Agent.System.Processes.{ProcessFacts, match_text, read_processes}

abbrev pub text : List String → String
text [] = ""
text (s ∷ ss) = Prim.Native.String.◌++◌ s (text ss)

abbrev pub has_pid : List ℕ → ℕ → Bool
has_pid tree pid = any (λ q. q == pid) tree

-- The processes that the tree has started and does not have yet.
abbrev pub children : List ProcessFacts → List ℕ → List ℕ
children processes tree =
    map (λ (p : ProcessFacts). p.pid)
      (select (λ (p : ProcessFacts). has_pid tree p.ppid && not (has_pid tree p.pid)) processes)

-- The tree after some rounds, which end early when nothing is added.
unfoldable pub grow : ℕ → List ProcessFacts → List ℕ → List ℕ
grow zero processes tree = tree
grow (suc n) processes tree =
    let rest = grow n processes (tree ++ children processes tree) in
    if is_empty (children processes tree) then tree else rest

unfoldable pub outside : List ℕ → List ProcessFacts → List ProcessFacts
outside tree processes = select (λ (p : ProcessFacts). not (has_pid tree p.pid)) processes

unfoldable pub candidate_processes : System → List ProcessFacts
candidate_processes sys =
    let processes = read_processes sys in outside (grow 4 processes (sys.own_pid ∷ [])) processes

unfoldable pub matching : System → (String → Bool) → List ProcessFacts
matching sys is_match = select (λ p. is_match (match_text p)) (candidate_processes sys)

unfoldable pub count_chars : String → ℕ
count_chars String.[] = 0
count_chars (String.◌∷◌ c s) = 1 + count_chars s

unfoldable pub take_chars : ℕ → String → String
take_chars n String.[] = String.[]
take_chars zero (String.◌∷◌ c s) = String.[]
take_chars (suc n) (String.◌∷◌ c s) = String.◌∷◌ c (take_chars n s)

unfoldable pub truncate : String → ℕ → String
truncate s max = if leb (count_chars s) max then s else text (take_chars max s ∷ "…" ∷ [])

abbrev shown_process : ProcessFacts → String
shown_process p = text ("pid " ∷ decimal p.pid ∷ " (" ∷ truncate (match_text p) 60 ∷ ")" ∷ [])

unfoldable pub describe_processes : List ProcessFacts → ℕ → String
describe_processes [] limit = "no matching process"
describe_processes (p ∷ ps) limit = join ", " (map shown_process (take limit (p ∷ ps)))
