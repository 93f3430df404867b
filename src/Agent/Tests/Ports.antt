-- ===== src/Agent/Tests/Ports.antt =====
-- A guest with one socket that listens on 127.0.0.1:8080.
use Prim.Native.String.{String}
use linuxpracticelab.Common.{ℕ, ◌≡◌, ◌↔◌, true, false, some, [], ◌∷◌, Has, refl}
use linuxpracticelab.Common.Assoc.{Assoc, lookup}
use linuxpracticelab.Common.Decimal.{decimal, decimal_from}
use linuxpracticelab.Common.Int.{pos}
use linuxpracticelab.Common.Text.{
  starts_with, lines, split_once, split_whitespace, eq_ignore_ascii_case, digits_from, parse_digits,
  join,
}
use linuxpracticelab.SharedTypes.Json.{Json, Number, Members, get}
use linuxpracticelab.SharedTypes.Lesson.{Validator, str_param, i64_param}
use linuxpracticelab.SharedTypes.Validation.{pass, fail, observed, expected}
use linuxpracticelab.Agent.System.{System}
use linuxpracticelab.Agent.System.Sockets.{
  SocketFacts, hex_from, parse_hex, decode_hex_address, parse_proc_net, read_all, read_sockets,
}
use linuxpracticelab.Agent.Outcomes.{Passes}
use linuxpracticelab.Agent.Service.Ports.{protocol_of, port_listening, Serves, port_listening_lem}
use linuxpracticelab.Agent.Tests.Paths.{guest}

abbrev table : String
table =
    "  sl  local_address rem_address   st\n   0: 0100007F:1F90 00000000:0000 0A 00000000:00000000 00:00000000 00000000 0 0 1234 1\n"

abbrev tables : Assoc String
tables = ("/proc/net/tcp", table) ∷ []

abbrev machine : System
machine = record guest { read_to_string = λ p. lookup p tables }

abbrev at_port : ℕ → String → Validator
at_port port address = record {
  kind = "port_listening";
  params =
      Members.member "address" (Json.string address)
        (Members.member "port" (Json.number (Number.pos_int port)) Members.end);
}

port_listening_run :
    ((port_listening machine (at_port 8080 "127.0.0.1")).passed ≡ true)
    × ((port_listening machine (at_port 8080 "0.0.0.0")).passed ≡ false)
    × ((port_listening machine (at_port 80 "127.0.0.1")).passed ≡ false)
unfolding port_listening str_param i64_param get read_sockets read_all parse_proc_net
    decode_hex_address parse_hex hex_from lookup starts_with lines split_once split_whitespace
    eq_ignore_ascii_case digits_from parse_digits join decimal decimal_from pass fail observed
    expected
port_listening_run = (refl, refl, refl)

port_given : i64_param (at_port 8080 "127.0.0.1") "port" ≡ some (pos 8080)
unfolding i64_param get
port_given = refl

port_listening_lem_example : Passes (port_listening machine (at_port 8080 "127.0.0.1")) ↔ (
    (s : SocketFacts) × Has s (read_sockets machine (protocol_of (at_port 8080 "127.0.0.1")))
    × Serves (at_port 8080 "127.0.0.1") 8080 s)
port_listening_lem_example = port_listening_lem machine (at_port 8080 "127.0.0.1") 8080 port_given
