-- ===== src/Agent/Session/Frames.antt =====
-- A session as exchanges of frames, and what the token protects.
use Prim.Native.String.{String}
use Prim.Native.String
use linuxpracticelab.Common.{
  ℕ, ◌≡◌, ◌≢◌, ◌⊎◌, inl, inr, Bool, true, false, List, [], ◌∷◌, map, refl, select, not, Bool-cases,
  Either-cases,
}
use linuxpracticelab.Common.Text.{is_blank, trim, as_bytes}
use linuxpracticelab.SharedTypes.Protocol.{
  AgentRequest, RequestEnvelope, AgentResponse, error, ResponseEnvelope,
}
use linuxpracticelab.Agent.Session.{constant_time_eq, serve_request, serve_frame, session}
use linuxpracticelab.Agent.Session.Token.{constant_time_eq_iff}

module _ {Guest GuestDiagnostics : Type 0} (parse : String → RequestEnvelope ⊎ String)
    (handle : AgentRequest → Guest → AgentResponse GuestDiagnostics × Guest) (token : String) where
  -- The frame is a request with the token of this run.
  abbrev pub Carries : String → RequestEnvelope → Type 0
  Carries line e = (parse (trim line) ≡ inl e) × (as_bytes e.token ≡ as_bytes token)

  abbrev pub Refuses : String → RequestEnvelope → Type 0
  Refuses line e = (parse (trim line) ≡ inl e) × (as_bytes e.token ≢ as_bytes token)

  abbrev reply : ℕ → AgentResponse GuestDiagnostics → ResponseEnvelope GuestDiagnostics
  reply n r = record { id = n; response = r }

  -- What may happen to the lines of a session: the guest changes by the requests that carry the
  -- token alone.
  pub data Exchange
      : List String → Guest → List (ResponseEnvelope GuestDiagnostics) → Guest → Type 0 where
    closed : {g : Guest} → Exchange [] g [] g
    blank :
        {line : String} {lines : List String} {g h : Guest}
        {rs : List (ResponseEnvelope GuestDiagnostics)}
        → is_blank (trim line) ≡ true
        → Exchange lines g rs h
        → Exchange (line ∷ lines) g rs h
    malformed :
        {line : String} {lines : List String} {g h : Guest}
        {rs : List (ResponseEnvelope GuestDiagnostics)} (why : String)
        → is_blank (trim line) ≡ false
        → parse (trim line) ≡ inr why
        → Exchange lines g rs h
        → Exchange
            (line ∷ lines)
            g
            (reply 0 (error (String.◌++◌ "malformed request: " why) false) ∷ rs)
            h
    refused :
        {line : String} {lines : List String} {g h : Guest}
        {rs : List (ResponseEnvelope GuestDiagnostics)} (e : RequestEnvelope)
        → is_blank (trim line) ≡ false
        → Refuses line e
        → Exchange lines g rs h
        → Exchange (line ∷ lines) g (reply e.id (error "invalid control token" false) ∷ rs) h
    served :
        {line : String} {lines : List String} {g h : Guest}
        {rs : List (ResponseEnvelope GuestDiagnostics)} (e : RequestEnvelope)
        → is_blank (trim line) ≡ false
        → Carries line e
        → Exchange lines ((handle e.request g).1) rs h
        → Exchange (line ∷ lines) g (reply e.id ((handle e.request g).0) ∷ rs) h

  serve_malformed :
      (frame why : String) (g : Guest)
      → parse frame ≡ inr why
      → serve_frame parse handle token frame g
        ≡ (reply 0 (error (String.◌++◌ "malformed request: " why) false), g)
  unfolding serve_frame
  serve_malformed frame why g h = rw (h, serve_frame)

  serve_refused :
      (frame : String) (e : RequestEnvelope) (g : Guest)
      → parse frame ≡ inl e
      → constant_time_eq (as_bytes e.token) (as_bytes token) ≡ false
      → serve_frame parse handle token frame g
        ≡ (reply e.id (error "invalid control token" false), g)
  unfolding serve_frame serve_request
  serve_refused frame e g h test = rw (h, serve_frame, test)

  serve_served :
      (frame : String) (e : RequestEnvelope) (g : Guest)
      → parse frame ≡ inl e
      → constant_time_eq (as_bytes e.token) (as_bytes token) ≡ true
      → serve_frame parse handle token frame g
        ≡ (reply e.id ((handle e.request g).0), (handle e.request g).1)
  unfolding serve_frame serve_request
  serve_served frame e g h test = rw (h, serve_frame, test)

  contradiction : {b : Bool} → b ≡ false → b ≡ true → ⊥
  contradiction f t = cc

  -- A session is made of such exchanges.
  pub session-Exchange :
      (lines : List String) (g : Guest)
      → Exchange lines g
          ((session parse handle token lines g).0)
          ((session parse handle token lines g).1)
  unfolding session
  session-Exchange [] g = closed
  session-Exchange (line ∷ lines) g = elim (Bool-cases (is_blank (trim line))) [
    | inl b ↦ rw b (blank b (session-Exchange lines g))
    | inr b ↦ elim (Either-cases (parse (trim line))) [
      | inr (why, p) ↦
          rw (b, serve_malformed (trim line) why g p) (malformed why b p (session-Exchange lines g))
      | inl (e, p) ↦ elim (Bool-cases (constant_time_eq (as_bytes e.token) (as_bytes token))) [
        | inl t ↦
            rw (b, serve_served (trim line) e g p t)
              (served e b (p, (constant_time_eq_iff _ _).0 t)
                (session-Exchange lines ((handle e.request g).1)))
        | inr t ↦
            rw (b, serve_refused (trim line) e g p t)
              (refused e b (p, λ q. contradiction t ((constant_time_eq_iff _ _).1 q))
                (session-Exchange lines g))
      ]
    ]
  ]

  abbrev pub IsError : ResponseEnvelope GuestDiagnostics → Type 0
  IsError r = (message : String) × (r.response ≡ error message false)

  -- The id that a response to a frame bears.
  abbrev pub id_of : RequestEnvelope ⊎ String → ℕ
  id_of (inl e) = e.id
  id_of (inr why) = 0

  abbrev pub frames : List String → List String
  frames lines = select (λ line. not (is_blank (trim line))) lines

  exchange_answered :
      {lines : List String} {g h : Guest} {rs : List (ResponseEnvelope GuestDiagnostics)}
      → Exchange lines g rs h
      → map (λ (r : ResponseEnvelope GuestDiagnostics). r.id) rs
        ≡ map (λ line. id_of (parse (trim line))) (frames lines)
  exchange_answered closed = refl
  exchange_answered (blank b x) = rw b (exchange_answered x)
  exchange_answered (malformed why b p x) = rw (b, p, exchange_answered x) refl
  exchange_answered (refused e b p x) = rw (b, p.0, exchange_answered x) refl
  exchange_answered (served e b p x) = rw (b, p.0, exchange_answered x) refl

  -- Every frame that is not blank is answered, once and in order, under its own id, or under 0
  -- where it cannot be parsed.
  pub session_answered :
      (lines : List String) (g : Guest)
      → map
          (λ (r : ResponseEnvelope GuestDiagnostics). r.id)
          ((session parse handle token lines g).0)
        ≡ map (λ line. id_of (parse (trim line))) (frames lines)
  session_answered lines g = exchange_answered (session-Exchange lines g)
