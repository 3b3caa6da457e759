-- ===== src/Examples/Server.antt =====
-- Runs of the server of src/irc_server.rs.
use voirc.Base.{
  suc, ◌≡◌, ◌⊎◌, refl, Bool, true, false, not, ◌&&◌, Option, none, some, [], ◌∷◌, ◌++◌, Text,
  text_eq, eqb, contains, if◌then◌else◌,
}
use voirc.Dict
use voirc.Dict.{Dict, is_some}
use voirc.Strings.{lit}
use voirc.Pow.{check_difficulty}
use voirc.Server.{Addr, addr_eq, Client, ServerState, new, nick_of, count_ip}
use voirc.Server.Commands.{handle_nick, relay_privmsg, is_impostor, process_command}
use voirc.Server.Connection.{accepts, arrive, connect, close, fail, handle_line}
use voirc.Server.Members.{IsValid}
use voirc.Server.Changes.{Change, IsProved, handle_line-Change}
use voirc.Server.Authentication.{IsAuthenticated, authentication_sound}
use voirc.Server.Bindings.{binding_stable, binding_sound}
use voirc.Server.Admission.{IsAdmitted, Reach-IsAdmitted, slot_leak}
use voirc.Server.Delivery.{targets, contains-relay_privmsg}
use voirc.Server.Run.{Reach, start, arrival, line, Reach-IsValid, ghost_member}
use voirc.Base.{text_beq}
use voirc.Strings.{
  trim, is_whitespace, len, as_bytes, split_whitespace, strip_prefix, starts_with, split_once,
  splitn,
}
use voirc.Server.Commands.{
  handle_join, handle_ping, dispatch, handle_privmsg, set_nick, handle_control,
}
use voirc.Server.Auth.{
  handle_hello, check_hello, answer, accept_claim, bind_hello, mark_authenticated,
}
use voirc.Server.{send_to, try_bind_nick_pubkey, addr_beq}
use voirc.Pow.{nick_hash, leading_zero_bits}
use voirc.Examples.{toy, key, signature, alice}

abbrev pub a1 : Addr
a1 = record { ip = 1; port = 50_000 }

abbrev pub a2 : Addr
a2 = record { ip = 2; port = 50_001 }

abbrev pub hello_line : Text
hello_line = lit "PRIVMSG voirc :VOIRC_HELLO:alice:" ++ (key ++ b':' ∷ (signature ++ 13 ∷ 10 ∷ []))

abbrev pub client : Option Text → Bool → Client
client nick authed = record { nick = nick; pubkey = none; authenticated = authed; ip = 1 }

-- One client that has chosen its nick.
abbrev pub named : ServerState
named = record (new 16) { clients = (a1, client (some alice) false) ∷ [] }

-- One that is authenticated, whose nick is bound.
abbrev pub known : ServerState
known = record (new 16) {
  clients = (a1, client (some alice) true) ∷ (a2, client none false) ∷ [];
  channels = (lit "#general", a1 ∷ a2 ∷ []) ∷ [];
  nick_pubkeys = (alice, key) ∷ [];
}

abbrev after_nick : ServerState
after_nick = (handle_line toy (arrive (new 16) a1) a1 (lit "NICK alice")).0

abbrev after_hello : ServerState
after_hello = (handle_line toy after_nick a1 hello_line).0

after_hello-Reach : Reach toy 16 [] after_hello
unfolding handle_line trim is_whitespace len as_bytes process_command split_whitespace dispatch
    handle_privmsg handle_nick set_nick handle_control strip_prefix starts_with split_once splitn
    handle_hello check_hello answer accept_claim bind_hello mark_authenticated try_bind_nick_pubkey
    check_difficulty nick_hash leading_zero_bits text_beq addr_beq Dict.get Dict.insert arrive
    accepts connect count_ip
after_hello-Reach =
    line (line (arrival start a1 refl) a1 (lit "NICK alice") refl) a1 hello_line refl

handle_line-Change_example : Change toy named a1 (handle_line toy named a1 hello_line).0
handle_line-Change_example = handle_line-Change toy named a1 hello_line

Reach-IsValid_example : IsValid [] after_hello
Reach-IsValid_example = Reach-IsValid toy 16 after_hello-Reach

ghost_member_example :
    (Dict.get (close (arrive (fail known a1) a1) a1).0.clients a1 ≡ none)
    × ((close (arrive (fail known a1) a1) a1).0.channels ≡ known.channels)
unfolding accepts count_ip addr_beq
ghost_member_example = ghost_member known a1 refl

Reach-IsAdmitted_example : IsAdmitted after_hello
Reach-IsAdmitted_example = Reach-IsAdmitted toy 16 after_hello-Reach

authentication_sound_example :
    (a1 ≡ a1) × IsAuthenticated toy named a1 (handle_line toy named a1 hello_line).0
unfolding handle_line trim is_whitespace len as_bytes process_command split_whitespace dispatch
    handle_privmsg handle_nick set_nick handle_control strip_prefix starts_with split_once splitn
    handle_hello check_hello answer accept_claim bind_hello mark_authenticated try_bind_nick_pubkey
    check_difficulty nick_hash leading_zero_bits text_beq addr_beq Dict.get Dict.insert arrive
    accepts connect count_ip
authentication_sound_example = authentication_sound toy named a1 hello_line a1 refl refl

binding_stable_example :
    Dict.get (handle_line toy known a2 (lit "NICK alice")).0.nick_pubkeys alice ≡ some key
unfolding Dict.get text_beq addr_beq accepts count_ip
binding_stable_example = binding_stable toy known a2 (lit "NICK alice") alice key refl

binding_sound_example :
    (Dict.get named.nick_pubkeys alice ≡ some key)
    ⊎ (IsProved toy alice key
        × (check_difficulty toy.sha256 alice key 16 ≡ true)
        × (nick_of named a1 ≡ some alice))
unfolding handle_line trim is_whitespace len as_bytes process_command split_whitespace dispatch
    handle_privmsg handle_nick set_nick handle_control strip_prefix starts_with split_once splitn
    handle_hello check_hello answer accept_claim bind_hello mark_authenticated try_bind_nick_pubkey
    check_difficulty nick_hash leading_zero_bits text_beq addr_beq Dict.get Dict.insert arrive
    accepts connect count_ip
binding_sound_example = binding_sound toy named a1 hello_line alice key refl

contains-relay_privmsg_example :
    (contains (targets (relay_privmsg known a1 (lit "#general") (lit "hi")).1) a2 ≡ (
      if is_impostor known a1
      then false
      else contains (a1 ∷ a2 ∷ []) a2 && not (eqb a2 a1) && is_some (Dict.get known.clients a2)))
    × ((relay_privmsg known a1 (lit "#general") (lit "hi")).0 ≡ known)
unfolding Dict.get text_beq addr_beq accepts count_ip
contains-relay_privmsg_example =
    contains-relay_privmsg known a1 (lit "#general") (lit "hi") (a1 ∷ a2 ∷ []) a2 refl

slot_leak_example :
    (count_ip (close (arrive (new 0) a1) a1).0 1 ≡ count_ip (new 0) 1)
    × (count_ip (fail (arrive (new 0) a1) a1) 1 ≡ suc (count_ip (new 0) 1))
unfolding Dict.get text_beq addr_beq accepts count_ip
slot_leak_example = slot_leak (new 0) a1 refl refl

-- The server's answers: a nick that is taken, a channel without a nick, and a ping.
answers :
    ((process_command toy named a2 (lit "NICK alice")).0 ≡ named)
    × ((process_command toy (new 0) a1 (lit "JOIN #general")).0 ≡ new 0)
    × ((process_command toy named a1 (lit "PING x")).1
        ≡ record { target = a1; msg = lit "PONG x" ++ 13 ∷ 10 ∷ [] } ∷ [])
unfolding handle_line trim is_whitespace len as_bytes process_command split_whitespace dispatch
    handle_privmsg handle_nick set_nick handle_control strip_prefix starts_with split_once splitn
    handle_hello check_hello answer accept_claim bind_hello mark_authenticated try_bind_nick_pubkey
    check_difficulty nick_hash leading_zero_bits text_beq addr_beq Dict.get Dict.insert arrive
    accepts connect count_ip handle_join handle_ping send_to
answers = (refl, refl, refl)
