-- ===== src/Server/Sections.antt =====
-- The locks of `handle_hello` and `handle_pow_set` of src/irc_server.rs: each part between two locks as a
-- step of its own, and the tasks of all clients interleaved.
use voirc.Base.{ℕ, Bool, not, Option, none, some, List, [], ◌∷◌, ◌++◌, Text, if◌then◌else◌}
use voirc.Dict
use voirc.Dict.{Dict, is_some}
use voirc.Strings.{lit, strip_prefix}
use voirc.Strings.Decimal.{to_dec}
use voirc.Crypto.{Crypto}
use voirc.Pow.{check_difficulty}
use voirc.Server.{Addr, addr_eq, ServerState, Outcome, new, nick_of, is_authed, send_all, crlf}
use voirc.Server.Auth.{
  Checked, malformed, failed, claim, check_hello, is_nick, send_notice, bind_hello, valid_bits,
  all_addrs,
}
use voirc.Server.Commands.{handle_control}
use voirc.Server.Connection.{arrive, handle_line, close}

-- Where a task stands that is to take the lock.
pub data Section : Type 0 where
  check_nick check_work bind_key : Text → Text → Section
  check_authed write_bits : ℕ → Section

-- What a task does under one lock, and where it stands after it.
pub record Ran : Type 0 where
  pub outcome : Outcome
  pub next : Option Section

-- the section that a HELLO comes to without a lock
abbrev pub claimed_section : Checked → Option Section
claimed_section malformed = none
claimed_section (failed nick msg) = none
claimed_section (claim nick pubkey_hex) = some (check_nick nick pubkey_hex)

abbrev pub bits_section : Option ℕ → Option Section
bits_section none = none
bits_section (some bits) = some (check_authed bits)

-- The first section of a message to the server, where it has more than one.
unfoldable pub first_section : Crypto → Text → Option Section
first_section c text = elim (strip_prefix (lit "VOIRC_HELLO:") text) [
  | some rest ↦ claimed_section (check_hello c rest)
  | none ↦ elim (strip_prefix (lit "VOIRC_POW_SET:") text) [
    | some rest ↦ bits_section (valid_bits rest)
    | none ↦ none
  ]
]

unfoldable pub run_section : Crypto → ServerState → Addr → Section → Ran
run_section c s addr (check_nick nick pubkey_hex) =
    if not (is_nick (nick_of s addr) nick)
    then record {
      outcome = (s, send_notice s addr nick (lit "HELLO_FAILED nick_mismatch"));
      next = none;
    }
    else record { outcome = (s, []); next = some (check_work nick pubkey_hex) }
run_section c s addr (check_work nick pubkey_hex) =
    if not (check_difficulty c.sha256 nick pubkey_hex s.pow_required_bits)
    then record {
      outcome = (
        s,
        send_notice s addr nick (lit "HELLO_FAILED pow_too_weak:" ++ to_dec s.pow_required_bits),
      );
      next = none;
    }
    else record { outcome = (s, []); next = some (bind_key nick pubkey_hex) }
run_section c s addr (bind_key nick pubkey_hex) = record {
  outcome = bind_hello c s addr nick pubkey_hex;
  next = none;
}
run_section c s addr (check_authed bits) =
    if not (is_authed s addr)
    then record { outcome = (s, []); next = none }
    else record { outcome = (s, []); next = some (write_bits bits) }
run_section c s addr (write_bits bits) =
    let s' = record s { pow_required_bits = bits } in
    record {
      outcome = (
        s',
        send_all s' (all_addrs s.clients)
            (lit ":voirc PRIVMSG * :VOIRC_POW_REQUIRED:" ++ to_dec bits ++ crlf),
      );
      next = none;
    }

-- The server, and the tasks that stand before a lock.
pub record Concurrent : Type 0 where
  pub server : ServerState
  pub pending : Dict Addr Section

-- What may happen next. The task of a client handles a line with no other task between, begins with a
-- message to the server, or takes its next lock.
pub data Move : Type 0 where
  line control : Addr → Text → Move
  advance arrival closed : Addr → Move

abbrev pub is_busy : Concurrent → Addr → Bool
is_busy s addr = is_some (Dict.get s.pending addr)

unfoldable pub set_next : Dict Addr Section → Addr → Option Section → Dict Addr Section
set_next pending addr none = Dict.remove pending addr
set_next pending addr (some next) = Dict.insert pending addr next

unfoldable pub take_lock : Crypto → Concurrent → Addr → Option Section → Concurrent
unfolding run_section set_next
take_lock c s addr none = s
take_lock c s addr (some section) =
    let ran = run_section c s.server addr section in
    record { server = ran.outcome.0; pending = set_next s.pending addr ran.next }

-- a message to the server, up to its first lock
unfoldable pub begin_control : Crypto → Concurrent → Addr → Text → Option Section → Concurrent
begin_control c s addr text none = record s { server = (handle_control c s.server addr text).0 }
begin_control c s addr text (some section) = record s {
  pending = Dict.insert s.pending addr section;
}

-- A task that stands before a lock reads no line, and its connection does not end. No two open
-- connections have one address.
unfoldable pub step : Crypto → Concurrent → Move → Concurrent
unfolding take_lock begin_control first_section
step c s (line addr text) =
    if is_busy s addr then s else record s { server = (handle_line c s.server addr text).0 }
step c s (control addr text) =
    if is_busy s addr then s else begin_control c s addr text (first_section c text)
step c s (advance addr) = take_lock c s addr (Dict.get s.pending addr)
step c s (arrival addr) =
    if is_busy s addr
    then s
    else if is_some (Dict.get s.server.clients addr)
    then s
    else record s { server = arrive s.server addr }
step c s (closed addr) = if is_busy s addr then s else record s { server = (close s.server addr).0 }

abbrev pub begun : ℕ → Concurrent
begun bits = record { server = new bits; pending = [] }

unfoldable pub run : Crypto → Concurrent → List Move → Concurrent
unfolding step
run c s [] = s
run c s (m ∷ ms) = run c (step c s m) ms

-- what is left of a task after its first section, with nothing between
abbrev pub and_then_next : Ran → (ServerState → Section → Outcome) → Outcome
and_then_next ran f = elim ran.next [
  | none ↦ ran.outcome
  | some next ↦ let (t, sent) = f ran.outcome.0 next in (t, ran.outcome.1 ++ sent)
]

-- The sections of one task with nothing between them; no task has more than three.
unfoldable pub finish : Crypto → ServerState → Addr → Section → Outcome
unfolding run_section
finish c s addr section = and_then_next (run_section c s addr section) (λ t second.
    and_then_next (run_section c t addr second) (λ u third. (run_section c u addr third).outcome))
