-- ===== src/Server/Commands.antt =====
-- `process_command` of src/irc_server.rs, one function for each arm of its match.
use voirc.Base.{
  Bool, true, false, not, ◌&&◌, Option, none, some, List, [], ◌∷◌, ◌++◌, Text, text_eq, eqb,
  set_insert, if◌then◌else◌,
}
use voirc.Dict
use voirc.Dict.{or_else, and_then, is_some}
use voirc.Strings.{lit, split_once, strip_prefix, split_whitespace, join}
use voirc.Strings.Decimal.{to_dec}
use voirc.Crypto.{Crypto}
use voirc.Server.{
  Addr, addr_eq, ServerState, Send, Outcome, find_addr_by_nick, nick_of, pubkey_of, is_authed,
  send_to, send_all, others, members_of, leave, crlf, full_mask,
}
use voirc.Server.Auth.{handle_hello, handle_pow_set}

-- what follows the first ':' of the command
abbrev pub after_colon : Text → Option Text
after_colon cmd = elim (split_once b':' cmd) [ none ↦ none | some (_, text) ↦ some text ]

unfoldable pub handle_cap : ServerState → Addr → Outcome
handle_cap s addr = (s, send_to s addr (lit ":voirc CAP * LS :" ++ crlf))

-- whether the nick is bound to a key that the client does not hold
abbrev pub is_taken : Option Text → Option Text → Bool
is_taken none key = false
is_taken (some bound) none = true
is_taken (some bound) (some key) = not (eqb key bound)

unfoldable pub set_nick : ServerState → Addr → Text → ServerState
set_nick s addr nick = elim (Dict.get s.clients addr) [
  | none ↦ s
  | some client ↦ record s {
    clients = Dict.insert s.clients addr (record client { nick = some nick });
  }
]

unfoldable pub handle_nick : ServerState → Addr → List Text → Outcome
handle_nick s addr [] = (s, [])
handle_nick s addr (new_nick ∷ _) =
    if is_taken (Dict.get s.nick_pubkeys new_nick) (pubkey_of s addr)
    then (
      s,
      send_to s addr
          (lit ":voirc 433 * " ++ new_nick ++ lit " :Nickname is already in use" ++ crlf),
    )
    else (set_nick s addr new_nick, [])

abbrev welcome : ServerState → Addr → Option Text → List Send
welcome s addr none = []
welcome s addr (some n) =
    send_to s addr (lit ":voirc 001 " ++ n ++ lit " :Welcome to Voirc" ++ crlf)
    ++ send_to s addr (lit ":voirc 422 " ++ n ++ lit " :MOTD File is missing" ++ crlf)
    ++ send_to s addr (
        lit ":voirc NOTICE "
        ++ n
        ++ lit " :VOIRC_POW_REQUIRED:"
        ++ to_dec s.pow_required_bits
        ++ crlf)

unfoldable pub handle_user : ServerState → Addr → Outcome
handle_user s addr = (s, welcome s addr (nick_of s addr))

-- To a channel's other members, or else to the first client of that nick.
unfoldable pub deliver : ServerState → Addr → Text → Text → List Send
deliver s addr target raw_msg = elim (Dict.get s.channels target) [
  | some members ↦ send_all s (others addr members) raw_msg
  | none ↦ elim (find_addr_by_nick s target) [ none ↦ [] | some a ↦ send_to s a raw_msg ]
]

-- A nick that is bound to a key, claimed by a client that has not proved to hold it.
unfoldable pub is_impostor : ServerState → Addr → Bool
is_impostor s addr =
    let sender_nick = or_else (nick_of s addr) [] in
    not (eqb sender_nick [])
    && is_some (Dict.get s.nick_pubkeys sender_nick)
    && not (is_authed s addr)

unfoldable pub relay_privmsg : ServerState → Addr → Text → Text → Outcome
unfolding is_impostor deliver
relay_privmsg s addr target text =
    let sender_nick = or_else (nick_of s addr) [] in
    let raw_msg =
      lit ":" ++ full_mask sender_nick ++ lit " PRIVMSG " ++ target ++ lit " :" ++ text ++ crlf in
    if is_impostor s addr then (s, []) else (s, deliver s addr target raw_msg)

-- PRIVMSG to `voirc`: the two control messages, or else an ordinary one.
unfoldable pub handle_control : Crypto → ServerState → Addr → Text → Outcome
handle_control c s addr text = elim (strip_prefix (lit "VOIRC_HELLO:") text) [
  | some rest ↦ handle_hello c s addr rest
  | none ↦ elim (strip_prefix (lit "VOIRC_POW_SET:") text) [
    | some rest ↦ handle_pow_set s addr rest
    | none ↦ relay_privmsg s addr (lit "voirc") text
  ]
]

unfoldable pub handle_privmsg : Crypto → ServerState → Addr → Text → List Text → Outcome
handle_privmsg c s addr cmd (target ∷ _ ∷ _) =
    let text = or_else (after_colon cmd) [] in
    if eqb target (lit "voirc")
    then handle_control c s addr text
    else relay_privmsg s addr target text
handle_privmsg c s addr cmd _ = (s, [])

-- the nicks of the members that are connected
unfoldable pub names : ServerState → List Addr → List Text
names s [] = []
names s (a ∷ members) =
    let rest = names s members in elim (nick_of s a) [ none ↦ rest | some n ↦ n ∷ rest ]

abbrev pub enter : ServerState → Addr → Text → ServerState
enter s addr channel = record s {
  channels = Dict.insert s.channels channel (set_insert (members_of s channel) addr);
}

unfoldable pub join_sends : ServerState → Addr → Text → Text → List Send
join_sends s addr n channel =
    let members = members_of s channel in
    send_all s members (lit ":" ++ full_mask n ++ lit " JOIN " ++ channel ++ crlf)
    ++ send_to s addr (
        lit ":voirc 353 "
        ++ n
        ++ lit " = "
        ++ channel
        ++ lit " :"
        ++ join (lit " ") (names s members)
        ++ crlf)
    ++ send_to s addr
        (lit ":voirc 366 " ++ n ++ lit " " ++ channel ++ lit " :End of /NAMES list." ++ crlf)

unfoldable pub handle_join : ServerState → Addr → List Text → Outcome
unfolding join_sends names
handle_join s addr [] = (s, [])
handle_join s addr (channel ∷ _) = elim (nick_of s addr) [
  | none ↦ (s, [])
  | some n ↦ let s' = enter s addr channel in (s', join_sends s' addr n channel)
]

unfoldable pub kick : ServerState → Addr → Text → Text → Text → Outcome
kick s addr channel target_nick reason = elim (find_addr_by_nick s target_nick) [
  | none ↦ (s, [])
  | some target_addr ↦
      let kick_msg =
        lit ":"
        ++ full_mask (or_else (nick_of s addr) [])
        ++ lit " KICK "
        ++ channel
        ++ lit " "
        ++ target_nick
        ++ lit " :"
        ++ reason
        ++ crlf in
      (leave s channel target_addr, send_all s (members_of s channel) kick_msg)
]

unfoldable pub handle_kick : ServerState → Addr → Text → List Text → Outcome
unfolding kick
handle_kick s addr cmd (channel ∷ target_nick ∷ _) =
    let reason = or_else (after_colon cmd) (lit "Kicked") in
    if not (is_authed s addr) then (s, []) else kick s addr channel target_nick reason
handle_kick s addr cmd _ = (s, [])

unfoldable pub handle_part : ServerState → Addr → List Text → Outcome
handle_part s addr [] = (s, [])
handle_part s addr (channel ∷ _) = elim (nick_of s addr) [
  | none ↦ (s, [])
  | some n ↦ (
    leave s channel addr,
    send_all s (others addr (members_of s channel))
        (lit ":" ++ full_mask n ++ lit " PART " ++ channel ++ crlf),
  )
]

unfoldable pub handle_ping : ServerState → Addr → List Text → Outcome
handle_ping s addr [] = (s, [])
handle_ping s addr (token ∷ _) = (s, send_to s addr (lit "PONG " ++ token ++ crlf))

unfoldable pub dispatch : Crypto → ServerState → Addr → Text → Text → List Text → Outcome
dispatch c s addr cmd verb args =
    if eqb verb (lit "CAP")
    then handle_cap s addr
    else if eqb verb (lit "NICK")
    then handle_nick s addr args
    else if eqb verb (lit "USER")
    then handle_user s addr
    else if eqb verb (lit "PRIVMSG")
    then handle_privmsg c s addr cmd args
    else if eqb verb (lit "JOIN")
    then handle_join s addr args
    else if eqb verb (lit "KICK")
    then handle_kick s addr cmd args
    else if eqb verb (lit "PART")
    then handle_part s addr args
    else if eqb verb (lit "PING")
    then handle_ping s addr args
    else (s, [])

unfoldable pub process_command : Crypto → ServerState → Addr → Text → Outcome
unfolding dispatch
process_command c s addr cmd = elim (split_whitespace cmd) [
  | [] ↦ (s, [])
  | verb ∷ args ↦ dispatch c s addr cmd verb args
]
