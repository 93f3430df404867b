-- ===== src/Agent/Tests/Sessions.antt =====
-- A session with one request that carries the token, one with a guess, and frames that hold nothing
-- or no request.
use Prim.Native.String.{String}
use text.Mathlib.Text
use linuxpracticelab.Common.{ℕ, Bool, ◌≡◌, ◌⊎◌, inl, inr, List, [], ◌∷◌, map, refl, if◌then◌else◌}
use linuxpracticelab.Common.Text.{trim, trim_front, trim_back, as_bytes}
use linuxpracticelab.SharedTypes.Protocol.{
  AgentRequest, ping, shutdown, RequestEnvelope, AgentResponse, pong, ResponseEnvelope,
}
use linuxpracticelab.Agent.Session.{
  constant_time_eq, difference, serve_request, serve_frame, session,
}
use linuxpracticelab.Agent.Session.Frames.{
  Exchange, id_of, frames, session-Exchange, session_answered,
}

abbrev good : RequestEnvelope
good = record { id = 7; token = "secret"; request = ping }

abbrev guess : RequestEnvelope
guess = record { id = 8; token = "guess"; request = shutdown }

abbrev is : String → String → Bool
is s t = text.Mathlib.Text.◌==◌ s t

abbrev parse : String → RequestEnvelope ⊎ String
parse line =
    if is line "ping"
    then inl good
    else (if is line "stop" then inl guess else inr "expected value")

abbrev handle : AgentRequest → List AgentRequest → AgentResponse Unit × List AgentRequest
handle r g = (pong "1.0" "6.1" "3" 12, r ∷ g)

abbrev mixed : List String
mixed = " ping " ∷ "" ∷ "stop" ∷ "{ not json" ∷ []

abbrev bad : List String
bad = "stop" ∷ "{ not json" ∷ []

abbrev low : List ℕ
low = 1 ∷ 2 ∷ []

abbrev high : List ℕ
high = 1 ∷ 3 ∷ []

session_run :
    ((session parse handle "secret" mixed []).1 ≡ ping ∷ [])
    × (map (λ (r : ResponseEnvelope Unit). r.id) ((session parse handle "secret" mixed []).0)
        ≡ 7 ∷ 8 ∷ 0 ∷ [])
unfolding session serve_frame serve_request constant_time_eq difference as_bytes trim_front
    trim_back
session_run = (refl, refl)

session-Exchange_example :
    Exchange parse handle "secret" mixed []
      ((session parse handle "secret" mixed []).0)
      ((session parse handle "secret" mixed []).1)
session-Exchange_example = session-Exchange parse handle "secret" mixed []

session_answered_example :
    map (λ (r : ResponseEnvelope Unit). r.id) ((session parse handle "secret" mixed []).0)
    ≡ map
        (λ line. id_of parse handle "secret" (parse (trim line)))
        (frames parse handle "secret" mixed)
session_answered_example = session_answered parse handle "secret" mixed []
