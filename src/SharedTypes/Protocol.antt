-- ===== src/SharedTypes/Protocol.antt =====
-- crates/shared-types/src/protocol.rs: what the host and the guest agent say to each other. The
-- figures of the diagnostics are opaque: nothing here computes with them.
use Prim.Native.String.{String}
use linuxpracticelab.Common.{ℕ, Bool, List, Option}
use linuxpracticelab.Common.Int.{ℤ}
use linuxpracticelab.SharedTypes.Lesson.{Validator}
use linuxpracticelab.SharedTypes.Validation.{TaskValidation}

pub data AgentRequest : Type 0 where
  ping : AgentRequest
  prepare_lesson : String → Option String → List String → List String → Bool → AgentRequest
  validate_task : String → String → List Validator → String → Option ℤ → AgentRequest
  reset_lesson : String → Option String → AgentRequest
  checkpoint : String → AgentRequest
  diagnostics : AgentRequest
  list_directory : String → Bool → AgentRequest
  versions : AgentRequest
  set_terminal_size : ℕ → ℕ → AgentRequest
  shutdown : AgentRequest

pub record RequestEnvelope : Type 0 where
  pub id : ℕ
  pub token : String
  pub request : AgentRequest

pub record DirEntryInfo : Type 0 where
  pub name : String
  pub file_type : String
  pub size : ℕ
  pub mode : String
  pub owner : String
  pub group : String
  pub link_target : Option String

pub record PackageInfo : Type 0 where
  pub name : String
  pub version : String

pub data AgentResponse (GuestDiagnostics : Type 0) : Type 0 where
  pong : String → String → String → ℕ → AgentResponse GuestDiagnostics
  lesson_prepared : String → List String → AgentResponse GuestDiagnostics
  task_validated : TaskValidation → AgentResponse GuestDiagnostics
  lesson_reset : String → AgentResponse GuestDiagnostics
  checkpoint_created : String → AgentResponse GuestDiagnostics
  diagnosed : GuestDiagnostics → AgentResponse GuestDiagnostics
  directory_listing : String → List DirEntryInfo → AgentResponse GuestDiagnostics
  version_list : String → String → List PackageInfo → AgentResponse GuestDiagnostics
  terminal_resized : ℕ → ℕ → AgentResponse GuestDiagnostics
  shutting_down : AgentResponse GuestDiagnostics
  error : String → Bool → AgentResponse GuestDiagnostics

pub record ResponseEnvelope (GuestDiagnostics : Type 0) : Type 0 where
  pub id : ℕ
  pub response : AgentResponse GuestDiagnostics
