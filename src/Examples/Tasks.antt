-- ===== src/Examples/Tasks.antt =====
-- Interleaved tasks of src/irc_server.rs.
use voirc.Base.{
  ◌≡◌, ◌≤◌, refl, Bool, true, false, not, ◌&&◌, some, List, [], ◌∷◌, ◌++◌, Text, text_eq, text_beq,
  arith,
}
use voirc.Dict
use voirc.Dict.{is_some}
use voirc.Strings.{lit, strip_prefix, starts_with, splitn, split_once, as_bytes}
use voirc.Pow.{check_difficulty, nick_hash, leading_zero_bits}
use voirc.Server.{
  Addr, addr_eq, addr_beq, ServerState, new, is_authed, nick_of, try_bind_nick_pubkey,
}
use voirc.Server.Auth.{check_hello, bind_hello, mark_authenticated}
use voirc.Server.Changes.{IsProved}
use voirc.Server.Commands.{handle_control}
use voirc.Server.Connection.{arrive, accepts, connect}
use voirc.Server.Sections.{
  check_work, write_bits, first_section, Concurrent, Move, line, control, advance, arrival, step,
  run, begun,
}
use voirc.Server.Races.{interleaving_sound, stale_work}
use voirc.Server.Signers.{IsSigned, interleaved_authentication}
use voirc.Server.Locks.{
  Guard, Locks, LockOp, LockRun, IsFair, any_exclusive, is_waiting, lock_ops, read, write, release,
}
use voirc.Server.Deadlock.{at_rest, hello_deadlock}
use voirc.Examples.{toy, key, signature, alice}
use voirc.Examples.Server.{a1, a2, named}

abbrev hello : Text
hello = lit "VOIRC_HELLO:alice:" ++ (key ++ b':' ∷ signature)

-- Two clients, of which the first is about to be bound while the second sends its nick.
abbrev moves : List Move
moves =
    arrival a1
    ∷ arrival a2
    ∷ line a1 (lit "NICK alice")
    ∷ control a1 hello
    ∷ advance a1
    ∷ line a2 (lit "NICK bob")
    ∷ advance a1
    ∷ []

interleaving_sound_example :
    ((nick pubkey : Text)
      → Dict.get (run toy (begun 16) (moves ++ advance a1 ∷ [])).server.nick_pubkeys nick
        ≡ some pubkey
      → IsProved toy nick pubkey)
    × ((run toy (begun 16) (moves ++ advance a1 ∷ [])).server.pow_required_bits ≤ 28)
interleaving_sound_example = interleaving_sound toy 16 (moves ++ advance a1 ∷ []) (omega arith)

abbrev racing : Concurrent
racing = record { server = named; pending = (a1, check_work alice key) ∷ (a2, write_bits 28) ∷ [] }

stale_work_example :
    (is_authed (run toy racing (advance a1 ∷ advance a2 ∷ advance a1 ∷ [])).server a1 ≡ true)
    × ((run toy racing (advance a1 ∷ advance a2 ∷ advance a1 ∷ [])).server.pow_required_bits ≡ 28)
unfolding Dict.get addr_beq text_beq check_difficulty nick_hash leading_zero_bits
stale_work_example = stale_work toy racing a1 a2 alice key 28 refl refl refl refl refl refl

-- A lock that serves one request after another.
abbrev in_turn : List Guard → List Guard → Guard → Bool
in_turn [] [] r = true
in_turn (g ∷ guards) [] r = not r.exclusive && not (any_exclusive (g ∷ guards))
in_turn guards (e ∷ earlier) r = false

in_turn-order :
    (guards earlier : List Guard) (r : Guard)
    → in_turn guards earlier r ≡ true
    → any_exclusive earlier ≡ false
unfolding any_exclusive
in_turn-order [] [] r h = refl
in_turn-order (g ∷ guards) [] r h = refl
in_turn-order [] (e ∷ earlier) r h = ground (arith, h)
in_turn-order (g ∷ guards) (e ∷ earlier) r h = ground (arith, h)

in_turn-alone :
    (guards earlier : List Guard) (r : Guard)
    → in_turn guards earlier r ≡ true
    → r.exclusive ≡ true
    → guards ≡ []
in_turn-alone [] earlier r h x = refl
in_turn-alone (g ∷ guards) [] r h x = ground (arith, h, x)
in_turn-alone (g ∷ guards) (e ∷ earlier) r h x = ground (arith, h)

in_turn-IsFair : IsFair in_turn
in_turn-IsFair = record { in_order = in_turn-order; alone = in_turn-alone; free = λ r. refl }

-- The two tasks, and a third of another client.
abbrev scripts : Dict.Dict Addr (List LockOp)
scripts =
    (record { ip = 3; port = 1 }, write ∷ release ∷ read ∷ release ∷ [])
    ∷ (a1, read ∷ read ∷ release ∷ release ∷ [])
    ∷ (a2, write ∷ release ∷ [])
    ∷ []

hello_deadlock_example :
    (l : Locks) × LockRun in_turn (at_rest scripts) l
    × ((m : Locks)
        → LockRun in_turn l m
        → (is_waiting a1 m.queue ≡ true) × (is_waiting a2 m.queue ≡ true))
unfolding Dict.get addr_beq text_beq lock_ops
hello_deadlock_example =
    hello_deadlock in_turn in_turn-IsFair toy named a1 a2 (lit "bob") key (lit "eve") key scripts
      refl refl refl refl

interleaved_authentication_example :
    IsSigned toy a1 (step toy (run toy (begun 16) moves) (advance a1)).server
unfolding run arrive accepts connect voirc.Server.count_ip Dict.get Dict.insert Dict.remove addr_beq
    text_beq first_section strip_prefix starts_with check_hello splitn split_once
    voirc.Server.Connection.handle_line voirc.Strings.len as_bytes voirc.Strings.trim
    voirc.Strings.is_whitespace voirc.Server.Commands.process_command voirc.Strings.split_whitespace
    voirc.Server.Commands.dispatch voirc.Server.Commands.handle_nick voirc.Server.Commands.set_nick
    bind_hello try_bind_nick_pubkey mark_authenticated check_difficulty nick_hash leading_zero_bits
interleaved_authentication_example =
    interleaved_authentication toy 16 moves (advance a1) a1 (omega arith) refl refl
