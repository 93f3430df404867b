-- ===== src/Agent/Session.antt =====
-- guest/linuxlab-agent/src/main.rs: the control token, and the frames of one session. Reading and
-- writing the port do not fail here: an error of the device ends the session. The JSON decoder and
-- the handlers are parameters; what the handlers do to the guest is its state.
pub mod Token
pub mod Frames
use Prim.Native.Nat.{bit_or, bit_xor}
use Prim.Native.String.{String}
use Prim.Native.String
use linuxpracticelab.Common.{
  ℕ, Bool, true, false, ◌⊎◌, inl, inr, Option, none, some, List, [], ◌∷◌, length, ◌==◌,
  if◌then◌else◌,
}
use linuxpracticelab.Common.Text.{is_blank, trim, as_bytes}
use linuxpracticelab.SharedTypes.Validation.{or_else}
use linuxpracticelab.SharedTypes.Protocol.{
  AgentRequest, RequestEnvelope, AgentResponse, error, ResponseEnvelope,
}

-- A source of a token that is there and not blank.
abbrev pub usable : Option String → Option String
usable none = none
usable (some t) = if is_blank (trim t) then none else some (trim t)

-- The environment's token before the file's; `none` is fatal.
unfoldable pub load_token : Option String → Option String → Option String
load_token env file = or_else (usable env) (usable file)

-- The loop over the pairs of bytes, from the difference so far.
unfoldable pub difference : ℕ → List ℕ → List ℕ → ℕ
difference d [] bs = d
difference d (a ∷ as') [] = d
difference d (a ∷ as') (b ∷ bs) = difference (bit_or d (bit_xor a b)) as' bs

unfoldable pub constant_time_eq : List ℕ → List ℕ → Bool
constant_time_eq a b = if length a == length b then difference 0 a b == 0 else false

module _ {Guest GuestDiagnostics : Type 0} (parse : String → RequestEnvelope ⊎ String)
    (handle : AgentRequest → Guest → AgentResponse GuestDiagnostics × Guest) (token : String) where
  unfoldable pub serve_request : RequestEnvelope → Guest → ResponseEnvelope GuestDiagnostics × Guest
  serve_request e g =
      if constant_time_eq (as_bytes e.token) (as_bytes token)
      then (record { id = e.id; response = (handle e.request g).0 }, (handle e.request g).1)
      else (record { id = e.id; response = error "invalid control token" false }, g)

  unfoldable pub serve_frame : String → Guest → ResponseEnvelope GuestDiagnostics × Guest
  serve_frame frame g = elim (parse frame) [
    | inl e ↦ serve_request e g
    | inr err ↦
        (record { id = 0; response = error (String.◌++◌ "malformed request: " err) false }, g)
  ]

  -- The lines that arrive until the port closes, and the responses in the order they are written.
  unfoldable pub session : List String → Guest → List (ResponseEnvelope GuestDiagnostics) × Guest
  session [] g = ([], g)
  session (line ∷ lines) g =
      if is_blank (trim line)
      then session lines g
      else (let (response, after) = serve_frame (trim line) g in
          let (responses, last) = session lines after in (response ∷ responses, last))
