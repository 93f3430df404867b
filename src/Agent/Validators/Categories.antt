-- ===== src/Agent/Validators/Categories.antt =====
-- guest/linuxlab-agent/src/validators/mod.rs, dispatch: the categories of the agent, in the order in
-- which they are tried. Those of networks and scripts are arguments; the others only look at the
-- guest, through the system that it shows.
use linuxpracticelab.Common.{Option, List, [], ◌∷◌}
use linuxpracticelab.SharedTypes.Lesson.{Validator}
use linuxpracticelab.SharedTypes.Validation.{CheckOutcome}
use linuxpracticelab.Agent.System.{System}
use linuxpracticelab.Agent.Filesystem.{file_dispatch}
use linuxpracticelab.Agent.Process.{process_dispatch}
use linuxpracticelab.Agent.Service.{service_dispatch}
use linuxpracticelab.Agent.Identity.{account_dispatch}
use linuxpracticelab.Agent.Package.{package_dispatch}
use linuxpracticelab.Agent.Validators.{Ctx, Handler}

module _ {Guest : Type 0} (observe : Guest → System) (network script : Handler Guest) where
  abbrev looking : (System → Ctx → Validator → Option CheckOutcome) → Handler Guest
  looking category ctx v g = (category (observe g) ctx v, g)

  abbrev pub agent_categories : List (Handler Guest)
  agent_categories =
      looking file_dispatch
      ∷ looking process_dispatch
      ∷ looking service_dispatch
      ∷ looking account_dispatch
      ∷ network
      ∷ script
      ∷ looking package_dispatch
      ∷ []
