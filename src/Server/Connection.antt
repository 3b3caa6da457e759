-- ===== src/Server/Connection.antt =====
-- `run_inner` and `handle_connection_io` of src/irc_server.rs: connections, lines, and their ends.
use voirc.Base.{
  Bool, true, false, Option, none, some, [], ◌++◌, Text, nat_eq, text_eq, ltb, leb, length,
  set_remove, eqb, if◌then◌else◌,
}
use voirc.Dict
use voirc.Strings.{lit, len, trim}
use voirc.Crypto.{Crypto}
use voirc.Server.{
  Addr, addr_eq, Client, ServerState, Outcome, count_ip, send_all, co_members, crlf, full_mask,
  max_msg_len, max_clients_per_ip, max_total_clients,
}
use voirc.Server.Commands.{process_command}

-- the two tests of the accept loop
unfoldable pub accepts : ServerState → Addr → Bool
accepts s addr =
    if leb max_total_clients (length s.clients)
    then false
    else if leb max_clients_per_ip (count_ip s addr.ip)
    then false
    else true

-- the entry that a connection makes when its task starts
unfoldable pub connect : ServerState → Addr → ServerState
connect s addr = record s {
  clients =
      Dict.insert s.clients addr
        (record { nick = none; pubkey = none; authenticated = false; ip = addr.ip });
}

-- A connection that is accepted and whose task starts before any other event.
unfoldable pub arrive : ServerState → Addr → ServerState
unfolding accepts connect
arrive s addr = if accepts s addr then connect s addr else s

-- One line that was read, with its line end.
unfoldable pub handle_line : Crypto → ServerState → Addr → Text → Outcome
handle_line c s addr line =
    let trimmed = trim line in
    if ltb max_msg_len (len line)
    then (s, [])
    else if eqb trimmed []
    then (s, [])
    else process_command c s addr trimmed

-- the clean-up for a client that had a nick
unfoldable pub quit : ServerState → Addr → Text → Outcome
quit s addr nick =
    let s' = record s {
      nick_pubkeys = Dict.remove s.nick_pubkeys nick;
      channels = Dict.map_values (λ _ members. set_remove members addr) s.channels;
    } in
    (
      s',
      send_all s' (co_members s addr)
          (lit ":" ++ full_mask nick ++ lit " QUIT :Connection closed" ++ crlf),
    )

unfoldable pub cleanup : ServerState → Addr → Option Client → Outcome
cleanup s addr none = (s, [])
cleanup s addr (some client) =
    let s' = record s { clients = Dict.remove s.clients addr } in
    elim client.nick [ none ↦ (s', []) | some nick ↦ quit s' addr nick ]

-- The end of the stream: `read_line` returned 0.
unfoldable pub close : ServerState → Addr → Outcome
unfolding cleanup quit
close s addr = cleanup s addr (Dict.get s.clients addr)

-- An error of `read_line`, such as a reset connection or text that is not UTF-8: the `?` leaves the
-- function before the clean-up.
abbrev pub fail : ServerState → Addr → ServerState
fail s addr = s
