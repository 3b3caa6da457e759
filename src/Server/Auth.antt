-- ===== src/Server/Auth.antt =====
-- `handle_hello`, `handle_pow_set` and `send_notice` of src/irc_server.rs.
use voirc.Base.{
  ℕ, Bool, true, false, not, Option, none, some, List, [], ◌∷◌, ◌++◌, Text, text_eq, nat_eq, eqb,
  leb, ◌==◌, length, if◌then◌else◌,
}
use voirc.Dict
use voirc.Dict.{or_else, and_then}
use voirc.Strings.{lit, splitn, trim, as_bytes}
use voirc.Strings.Decimal.{to_dec, parse, u8_max}
use voirc.Crypto.{Crypto}
use voirc.Pow.{check_difficulty, leading_zero_bits, nick_hash}
use voirc.Server.{
  Addr, addr_eq, Client, ServerState, Send, Outcome, try_bind_nick_pubkey, nick_of, is_authed,
  send_to, send_all, co_members, crlf,
}

unfoldable pub send_notice : ServerState → Addr → Text → Text → List Send
send_notice s addr nick msg =
    send_to s addr (lit ":voirc NOTICE " ++ nick ++ lit " :" ++ msg ++ crlf)

-- What the checks before any lock is taken make of a HELLO.
pub data Checked : Type 0 where
  malformed : Checked
  failed : Text → Text → Checked
  claim : Text → Text → Checked

-- A decoded text of the right length.
unfoldable pub decode_sized : Crypto → ℕ → Text → Option (List ℕ)
decode_sized c n text =
    and_then (c.hex_decode text) (λ bytes. if length bytes == n then some bytes else none)

unfoldable pub check_signature : Crypto → Text → Text → Option (List ℕ) → Option (List ℕ) → Checked
check_signature c nick pubkey_hex none _ = failed nick (lit "HELLO_FAILED invalid_pubkey")
check_signature c nick pubkey_hex (some key) none =
    failed nick (lit "HELLO_FAILED invalid_signature")
check_signature c nick pubkey_hex (some key) (some sig) =
    if not (c.is_key key)
    then failed nick (lit "HELLO_FAILED invalid_pubkey")
    else if c.verify key (as_bytes nick) sig
    then claim nick pubkey_hex
    else failed nick (lit "HELLO_FAILED invalid_signature")

unfoldable pub check_parts : Crypto → List Text → Checked
check_parts c (nick ∷ pubkey_hex ∷ sig_hex ∷ []) =
    check_signature c nick pubkey_hex (decode_sized c 32 pubkey_hex) (decode_sized c 64 sig_hex)
check_parts c _ = malformed

unfoldable pub check_hello : Crypto → Text → Checked
unfolding check_parts check_signature decode_sized
check_hello c rest = check_parts c (splitn 3 b':' rest)

abbrev pub authenticate : Text → Client → Client
authenticate pubkey_hex client = record client { pubkey = some pubkey_hex; authenticated = true }

-- `if let Some(c) = s.clients.get_mut(&addr) { … }`
unfoldable pub mark_authenticated : ServerState → Addr → Text → ServerState
mark_authenticated s addr pubkey_hex = elim (Dict.get s.clients addr) [
  | none ↦ s
  | some client ↦ record s { clients = Dict.insert s.clients addr (authenticate pubkey_hex client) }
]

-- what is sent where the nick is bound to the key
unfoldable pub hello_ok : Crypto → ServerState → Addr → Text → Text → List Send
hello_ok c s addr nick pubkey_hex =
    send_to s addr (
      lit ":voirc NOTICE "
      ++ nick
      ++ lit " :HELLO_OK pow_bits:"
      ++ to_dec (leading_zero_bits (nick_hash c.sha256 nick pubkey_hex))
      ++ crlf)
    ++ send_all s (co_members s addr)
        (lit ":voirc PRIVMSG * :VOIRC_PUBKEY:" ++ nick ++ lit ":" ++ pubkey_hex ++ crlf)

-- the last part, under the write lock
unfoldable pub bind_hello : Crypto → ServerState → Addr → Text → Text → Outcome
unfolding hello_ok
bind_hello c s addr nick pubkey_hex =
    let (bound, free) = try_bind_nick_pubkey s nick pubkey_hex in
    let s' = mark_authenticated bound addr pubkey_hex in
    if free then (s', hello_ok c s' addr nick pubkey_hex) else (
      s,
      send_to s addr (
          lit ":voirc 433 * " ++ nick ++ lit " :Nickname is already in use (key mismatch)" ++ crlf),
    )

abbrev pub is_nick : Option Text → Text → Bool
is_nick none nick = false
is_nick (some n) nick = eqb n nick

unfoldable pub accept_claim : Crypto → ServerState → Addr → Text → Text → Outcome
unfolding bind_hello
accept_claim c s addr nick pubkey_hex =
    if not (is_nick (nick_of s addr) nick)
    then (s, send_notice s addr nick (lit "HELLO_FAILED nick_mismatch"))
    else if not (check_difficulty c.sha256 nick pubkey_hex s.pow_required_bits)
    then (
      s,
      send_notice s addr nick (lit "HELLO_FAILED pow_too_weak:" ++ to_dec s.pow_required_bits),
    )
    else bind_hello c s addr nick pubkey_hex

unfoldable pub answer : Crypto → ServerState → Addr → Checked → Outcome
answer c s addr malformed = (s, [])
answer c s addr (failed nick msg) = (s, send_notice s addr nick msg)
answer c s addr (claim nick pubkey_hex) = accept_claim c s addr nick pubkey_hex

unfoldable pub handle_hello : Crypto → ServerState → Addr → Text → Outcome
handle_hello c s addr rest = answer c s addr (check_hello c rest)

-- `parse::<u8>()` and the guard `b <= 28`
unfoldable pub valid_bits : Text → Option ℕ
valid_bits rest =
    and_then (parse u8_max (trim rest)) (λ bits. if leb bits 28 then some bits else none)

abbrev pub all_addrs : Dict.Dict Addr Client → List Addr
all_addrs [] = []
all_addrs ((a, c) ∷ m) = a ∷ all_addrs m

unfoldable pub set_pow : ServerState → Addr → Option ℕ → Outcome
set_pow s addr none =
    (s, send_to s addr (lit ":voirc NOTICE * :VOIRC_POW_SET_FAILED invalid_bits (0-28)" ++ crlf))
set_pow s addr (some bits) =
    if not (is_authed s addr)
    then (s, [])
    else let s' = record s { pow_required_bits = bits } in
      (
        s',
        send_all s' (all_addrs s.clients)
            (lit ":voirc PRIVMSG * :VOIRC_POW_REQUIRED:" ++ to_dec bits ++ crlf),
      )

unfoldable pub handle_pow_set : ServerState → Addr → Text → Outcome
unfolding set_pow
handle_pow_set s addr rest = set_pow s addr (valid_bits rest)
