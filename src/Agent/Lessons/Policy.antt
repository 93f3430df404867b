-- ===== src/Agent/Lessons/Policy.antt =====
-- What becomes the policy of sudo.
use Prim.Native.String.{String}
use linuxpracticelab.Common.{◌≡◌, ◌⊎◌, inl, Bool, true, ◌∷◌, Has}
use linuxpracticelab.Agent.System.{CommandOutput, success}
use linuxpracticelab.Agent.Lessons.{
  write, set_permissions, rename, History, Guest, Done, target, staging, policy, visudo,
}

abbrev pub Installed : History → Type 0
Installed h = Has (rename staging target) h

-- visudo, asked when this had been done, found nothing wrong with the staged policy, or could not be
-- run.
abbrev pub Accepts : Guest → History → Type 0
Accepts g h = (output : CommandOutput) → g.execute h visudo ≡ inl output → success output ≡ true

-- The history in which the policy is staged.
abbrev pub staged : Bool → History → History
staged allowed h = set_permissions staging 288 ∷ write staging (policy allowed) ∷ h

abbrev the_result : Done ⊎ String → Done ⊎ String
the_result r = r
