-- ===== src/Agent/Service/Ports.antt =====
-- guest/linuxlab-agent/src/validators/service.rs: the check of listening ports.
use Prim.Native.String.{String, ◌++◌}
use linuxpracticelab.Common.{
  ℕ, ◌≡◌, ◌↔◌, Bool, true, ◌&&◌, Option, none, some, List, [], ◌∷◌, map, select, any, any_iff, Any,
  Has, Has-select_iff, take, ltb, ◌==◌, ==_iff, inl, inr, ◌∙◌, refl, arith, if◌then◌else◌,
}
use linuxpracticelab.Common.Decimal.{decimal}
use linuxpracticelab.Common.Int.{ℤ, pos, same_int, show_int}
use linuxpracticelab.Common.Sorting.{sort_by}
use linuxpracticelab.Common.Text.{join}
use linuxpracticelab.SharedTypes.Lesson.{Validator, str_param, i64_param}
use linuxpracticelab.SharedTypes.Validation.{CheckOutcome, pass, fail, error, expected, observed}
use linuxpracticelab.SharedTypes.Validation.Category.{wrong_port}
use linuxpracticelab.Agent.Args.{unwrap_or}
use linuxpracticelab.Agent.System.{System}
use linuxpracticelab.Agent.System.Accounts.{same}
use linuxpracticelab.Agent.System.Sockets.{SocketFacts, read_sockets}
use linuxpracticelab.Agent.Outcomes.{Passes, through, passes_if, both, same_iff, and_iff}

-- `dedup` of sorted numbers.
unfoldable pub dedup_ports : List ℕ → List ℕ
dedup_ports [] = []
dedup_ports (p ∷ []) = p ∷ []
dedup_ports (p ∷ q ∷ ports) =
    let rest = dedup_ports (q ∷ ports) in if p == q then rest else p ∷ rest

abbrev listening_ports : List SocketFacts → List ℕ
listening_ports sockets =
    map (λ (s : SocketFacts). s.port) (select (λ (s : SocketFacts). s.listening) sockets)

abbrev other_ports : List SocketFacts → List String
other_ports sockets = map decimal (take 8 (dedup_ports (sort_by ltb (listening_ports sockets))))

abbrev ports_found : List String → String
ports_found [] = "no listening sockets"
ports_found (p ∷ ports) = "listening on " ++ join ", " (p ∷ ports)

abbrev address_with_port : SocketFacts → String
address_with_port s = s.local_address ++ (":" ++ decimal s.port)

abbrev open_at : Validator → String → ℤ → List SocketFacts → CheckOutcome
open_at v protocol port listening =
    observed
      (pass v.kind
        ("Something is listening on " ++ (protocol ++ (" port " ++ (show_int port ++ ".")))))
      (join ", " (map address_with_port listening))

abbrev bound_to : Validator → String → ℤ → List SocketFacts → Option String → CheckOutcome
bound_to v protocol port listening none = open_at v protocol port listening
bound_to v protocol port listening (some address) =
    if any (λ (s : SocketFacts). same s.local_address address) listening
    then open_at v protocol port listening
    else observed
        (expected
          (fail v.kind
            ("Port "
              ++ (show_int port
                  ++ " is open but bound to the wrong address, so it is not reachable where the task expects."))
            wrong_port)
          address)
        (join ", " (map (λ (s : SocketFacts). s.local_address) listening))

abbrev listening_as : Validator → String → ℤ → List SocketFacts → List SocketFacts → CheckOutcome
listening_as v protocol port sockets [] =
    observed
      (expected
        (fail v.kind
          ("Nothing is listening on " ++ (protocol ++ (" port " ++ (show_int port ++ "."))))
          wrong_port)
        (protocol ++ ("/" ++ show_int port)))
      (ports_found (other_ports sockets))
listening_as v protocol port sockets (s ∷ listening) =
    bound_to v protocol port (s ∷ listening) (str_param v "address")

abbrev is_on : ℤ → SocketFacts → Bool
is_on port s = same_int (pos s.port) port && s.listening

abbrev sockets_as : Validator → String → ℤ → List SocketFacts → CheckOutcome
sockets_as v protocol port sockets =
    listening_as v protocol port sockets (select (is_on port) sockets)

abbrev pub protocol_of : Validator → String
protocol_of v = unwrap_or (str_param v "protocol") "tcp"

abbrev port_as : System → Validator → Option ℤ → CheckOutcome
port_as sys v none = error v.kind "the port parameter is missing or not a number"
port_as sys v (some port) = sockets_as v (protocol_of v) port (read_sockets sys (protocol_of v))

unfoldable pub port_listening : System → Validator → CheckOutcome
port_listening sys v = port_as sys v (i64_param v "port")

-- The socket listens on the port, and at the address if one is asked for.
abbrev pub Serves : Validator → ℕ → SocketFacts → Type 0
Serves v port s =
    (s.port ≡ port)
    × (s.listening ≡ true)
    × ((address : String) → str_param v "address" ≡ some address → s.local_address ≡ address)

member_lem :
    (P : SocketFacts → Type 0) (xs : List SocketFacts)
    → Any P xs ↔ ((t : SocketFacts) × Has t xs × P t)
member_lem P [] = (λ h. absurd h, λ (t, m, p). absurd m)
member_lem P (x ∷ xs) =
    let rest = member_lem P xs in
    (
      λ h. elim h [ inl p ↦ (x, inl refl, p) | inr r ↦ let (t, m, p) = rest.0 r in (t, inr m, p) ],
      λ (t, m, p). elim m [ inl e ↦ inl (rw (← e) p) | inr r ↦ inr (rest.1 (t, r, p)) ],
    )

abbrev IsAt : Option String → SocketFacts → Type 0
IsAt o s = (address : String) → o ≡ some address → s.local_address ≡ address

address_lem :
    (v : Validator) (protocol : String) (port : ℤ) (s : SocketFacts) (listening : List SocketFacts)
    (o : Option String)
    → Passes (bound_to v protocol port (s ∷ listening) o)
      ↔ ((t : SocketFacts) × Has t (s ∷ listening) × IsAt o t)
unfolding pass fail expected observed
address_lem v protocol port s listening none = (λ h. (s, inl refl, λ address e. cc), λ h. refl)
address_lem v protocol port s listening (some address) =
    through
      (through
        (passes_if (any (λ (t : SocketFacts). same t.local_address address) (s ∷ listening)) _ _
          refl refl)
        (any_iff (λ (t : SocketFacts). same t.local_address address) (IsAt (some address)) given
          (s ∷ listening)))
      (member_lem (IsAt (some address)) (s ∷ listening))
  where
    given : (t : SocketFacts) → (same t.local_address address ≡ true) ↔ IsAt (some address) t
    given t =
        let test = same_iff t.local_address address in
        (
          λ h other e. let known : address ≡ other = ground (arith, e) in test.0 h ∙ known,
          λ h. test.1 (h address refl),
        )

listening_iff :
    (v : Validator) (protocol : String) (port : ℤ) (sockets listening : List SocketFacts)
    → Passes (listening_as v protocol port sockets listening)
      ↔ ((t : SocketFacts) × Has t listening × IsAt (str_param v "address") t)
unfolding fail expected observed
listening_iff v protocol port sockets [] = (λ h. cc, λ (t, m, b). absurd m)
listening_iff v protocol port sockets (s ∷ listening) =
    address_lem v protocol port s listening (str_param v "address")

is_on_iff :
    (port : ℕ) (s : SocketFacts)
    → (is_on (pos port) s ≡ true) ↔ ((s.port ≡ port) × (s.listening ≡ true))
is_on_iff port s =
    through (and_iff (same_int (pos s.port) (pos port)) s.listening)
      (both (==_iff s.port port) (λ h. h, λ h. h))

-- A check of a port passes exactly if some socket of its protocol listens on that port, and at the
-- address that the check asks for, if it asks for one.
pub port_listening_lem :
    (sys : System) (v : Validator) (port : ℕ)
    → i64_param v "port" ≡ some (pos port)
    → Passes (port_listening sys v)
      ↔ ((s : SocketFacts) × Has s (read_sockets sys (protocol_of v)) × Serves v port s)
unfolding port_listening
port_listening_lem sys v port here =
    let sockets = read_sockets sys (protocol_of v) in
    rw here (
      through
        (listening_iff v (protocol_of v) (pos port) sockets (select (is_on (pos port)) sockets))
        (
          λ (s, m, b).
              let (there, on) = (Has-select_iff (is_on (pos port)) s sockets).0 m in
              let (same_port, listens) = (is_on_iff port s).0 on in
              (s, there, (same_port, listens, b)),
          λ (s, there, (same_port, listens, b)). (
            s,
            (Has-select_iff (is_on (pos port)) s sockets).1
                (there, (is_on_iff port s).1 (same_port, listens)),
            b,
          ),
        ))
