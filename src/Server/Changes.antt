-- ===== src/Server/Changes.antt =====
-- The changes of state that one command can make, with what the server has checked before.
use voirc.Base.{
  ltb, ℕ, ◌≤◌, ◌≡◌, refl, Bool, true, false, some, List, [], ◌∷◌, Text, text_eq, eqb, length, arith,
  Bool-cases, Option-cases, inl, inr, if◌then◌else◌,
}
use voirc.Dict
use voirc.Dict.{is_some, or_else}
use voirc.Strings.{lit, strip_prefix, split_whitespace, trim, len, as_bytes}
use voirc.Crypto.{Crypto}
use voirc.Pow.{check_difficulty}
use voirc.Server.{
  max_msg_len, Addr, addr_eq, ServerState, Outcome, find_addr_by_nick, nick_of, pubkey_of,
  is_authed, is_other, leave, try_bind_nick_pubkey,
}
use voirc.Server.Auth.{
  Checked, malformed, failed, claim, decode_sized, check_signature, check_parts, check_hello,
  mark_authenticated, bind_hello, is_nick, accept_claim, answer, handle_hello, valid_bits,
  handle_pow_set,
}
use voirc.Server.Commands.{
  after_colon, handle_cap, is_taken, set_nick, handle_nick, handle_user, is_impostor, relay_privmsg,
  handle_control, handle_privmsg, enter, handle_join, kick, handle_kick, handle_part, handle_ping,
  dispatch, process_command,
}
use voirc.Server.Connection.{handle_line}

-- A signature of the nick by the key that `pubkey` spells.
pub record IsProved (c : Crypto) (nick pubkey : Text) : Type 0 where
  pub key : List ℕ
  pub sig : List ℕ
  pub decoded : c.hex_decode pubkey ≡ some key
  pub key_size : length key ≡ 32
  pub sig_size : length sig ≡ 64
  pub is_key : c.is_key key ≡ true
  pub verified : c.verify key (as_bytes nick) sig ≡ true

abbrev pub bind : ServerState → Addr → Text → Text → ServerState
bind s addr nick pubkey =
    mark_authenticated (record s { nick_pubkeys = Dict.insert s.nick_pubkeys nick pubkey }) addr
      pubkey

-- What one command of the client at `addr` may do to `s`.
pub data Change (c : Crypto) (s : ServerState) (addr : Addr) (t : ServerState) : Type 0 where
  same : t ≡ s → Change c s addr t
  renamed :
      (nick : Text)
      → is_taken (Dict.get s.nick_pubkeys nick) (pubkey_of s addr) ≡ false
      → t ≡ set_nick s addr nick
      → Change c s addr t
  claimed :
      (nick pubkey : Text)
      → IsProved c nick pubkey
      → is_nick (nick_of s addr) nick ≡ true
      → check_difficulty c.sha256 nick pubkey s.pow_required_bits ≡ true
      → is_other (Dict.get s.nick_pubkeys nick) pubkey ≡ false
      → t ≡ bind s addr nick pubkey
      → Change c s addr t
  pow_set :
      (bits : ℕ)
      → bits ≤ 28
      → is_authed s addr ≡ true
      → t ≡ record s { pow_required_bits = bits }
      → Change c s addr t
  entered :
      (channel : Text)
      → is_some (nick_of s addr) ≡ true
      → t ≡ enter s addr channel
      → Change c s addr t
  kicked :
      (channel target_nick : Text) (target : Addr)
      → is_authed s addr ≡ true
      → find_addr_by_nick s target_nick ≡ some target
      → t ≡ leave s channel target
      → Change c s addr t
  parted : (channel : Text) → t ≡ leave s channel addr → Change c s addr t

decode_sized-eq_some :
    (c : Crypto) (n : ℕ) (text : Text) (bytes : List ℕ)
    → decode_sized c n text ≡ some bytes
    → (c.hex_decode text ≡ some bytes) × (length bytes ≡ n)
unfolding decode_sized
decode_sized-eq_some c n text bytes h = ground arith

pub check_parts-claim :
    (c : Crypto) (parts : List Text) (nick pubkey : Text)
    → check_parts c parts ≡ claim nick pubkey
    → IsProved c nick pubkey
unfolding check_parts check_signature
check_parts-claim c [] nick pubkey h = cc
check_parts-claim c (a ∷ []) nick pubkey h = cc
check_parts-claim c (a ∷ b ∷ []) nick pubkey h = cc
check_parts-claim c (a ∷ b ∷ d ∷ e ∷ l) nick pubkey h = cc
check_parts-claim c (a ∷ b ∷ d ∷ []) nick pubkey h = elim (Option-cases (decode_sized c 32 b)) [
  | inl e ↦ cc
  | inr (key, e) ↦ elim (Option-cases (decode_sized c 64 d)) [
    | inl f ↦ cc
    | inr (sig, f) ↦ record {
      key = key;
      sig = sig;
      decoded = ground (arith, decode_sized-eq_some c 32 b key e);
      key_size = (decode_sized-eq_some c 32 b key e).1;
      sig_size = (decode_sized-eq_some c 64 d sig f).1;
      is_key = ground arith;
      verified = ground arith;
    }
  ]
]

module _ (c : Crypto) (s : ServerState) (addr : Addr) where
  bind_hello-Change :
      (nick pubkey : Text)
      → IsProved c nick pubkey
      → is_nick (nick_of s addr) nick ≡ true
      → check_difficulty c.sha256 nick pubkey s.pow_required_bits ≡ true
      → Change c s addr (bind_hello c s addr nick pubkey).0
  unfolding bind_hello try_bind_nick_pubkey
  bind_hello-Change nick pubkey p n d =
      elim (Bool-cases (is_other (Dict.get s.nick_pubkeys nick) pubkey)) [
        | inl e ↦ rw e (same refl)
        | inr e ↦ rw e (claimed nick pubkey p n d e refl)
      ]

  accept_claim-Change :
      (nick pubkey : Text)
      → IsProved c nick pubkey
      → Change c s addr (accept_claim c s addr nick pubkey).0
  unfolding accept_claim
  accept_claim-Change nick pubkey p = elim (Bool-cases (is_nick (nick_of s addr) nick)) [
    | inr e ↦ rw e (same refl)
    | inl e ↦ elim (Bool-cases (check_difficulty c.sha256 nick pubkey s.pow_required_bits)) [
      | inr f ↦ rw (e, f) (same refl)
      | inl f ↦ rw (e, f) (bind_hello-Change nick pubkey p e f)
    ]
  ]

  answer-Change :
      (checked : Checked)
      → ((nick pubkey : Text) → checked ≡ claim nick pubkey → IsProved c nick pubkey)
      → Change c s addr (answer c s addr checked).0
  unfolding answer
  answer-Change malformed h = same refl
  answer-Change (failed nick msg) h = same refl
  answer-Change (claim nick pubkey) h = accept_claim-Change nick pubkey (h nick pubkey refl)

  handle_hello-Change : (rest : Text) → Change c s addr (handle_hello c s addr rest).0
  unfolding handle_hello check_hello
  handle_hello-Change rest = answer-Change (check_hello c rest) (check_parts-claim c _)

  pub valid_bits-le : (rest : Text) (bits : ℕ) → valid_bits rest ≡ some bits → bits ≤ 28
  unfolding valid_bits
  valid_bits-le rest bits h = ground arith

  handle_pow_set-Change : (rest : Text) → Change c s addr (handle_pow_set s addr rest).0
  unfolding handle_pow_set
  handle_pow_set-Change rest = elim (Option-cases (valid_bits rest)) [
    | inl e ↦ rw e (same refl)
    | inr (bits, e) ↦ elim (Bool-cases (is_authed s addr)) [
      | inr f ↦ rw (e, f) (same refl)
      | inl f ↦ rw (e, f) (pow_set bits (valid_bits-le rest bits e) f refl)
    ]
  ]

  relay_privmsg-state : (target text : Text) → (relay_privmsg s addr target text).0 ≡ s
  unfolding relay_privmsg
  relay_privmsg-state target text = elim (Bool-cases (is_impostor s addr)) [
    | inl e ↦ rw e refl
    | inr e ↦ rw e refl
  ]

  -- The same of an outcome, which rules for tests can name.
  record Allowed (m : Outcome) : Type 0 where
    change : Change c s addr m.0

  Allowed-if : (b : Bool) {m n : Outcome} → Allowed m → Allowed n → Allowed (if b then m else n)
  Allowed-if true h k = h
  Allowed-if false h k = k

  pub handle_control-Change : (text : Text) → Change c s addr (handle_control c s addr text).0
  unfolding handle_control strip_prefix
  handle_control-Change text = elim (Option-cases (strip_prefix (lit "VOIRC_HELLO:") text)) [
    | inr (rest, e) ↦ rw e (handle_hello-Change rest)
    | inl e ↦ elim (Option-cases (strip_prefix (lit "VOIRC_POW_SET:") text)) [
      | inr (rest, f) ↦ rw (e, f) (handle_pow_set-Change rest)
      | inl f ↦ rw (e, f) (same (relay_privmsg-state (lit "voirc") text))
    ]
  ]

  handle_privmsg-Change :
      (cmd : Text) (args : List Text) → Change c s addr (handle_privmsg c s addr cmd args).0
  unfolding handle_privmsg
  handle_privmsg-Change cmd [] = same refl
  handle_privmsg-Change cmd (target ∷ []) = same refl
  handle_privmsg-Change cmd (target ∷ word ∷ words) =
      let text = or_else (after_colon cmd) [] in
      (Allowed-if (eqb target (lit "voirc")) {m = handle_control c s addr text}
        {n = relay_privmsg s addr target text} (record { change = handle_control-Change text })
        (record { change = same (relay_privmsg-state target text) })).change

  handle_nick-Change : (args : List Text) → Change c s addr (handle_nick s addr args).0
  unfolding handle_nick
  handle_nick-Change [] = same refl
  handle_nick-Change (nick ∷ rest) =
      elim (Bool-cases (is_taken (Dict.get s.nick_pubkeys nick) (pubkey_of s addr))) [
        | inl e ↦ rw e (same refl)
        | inr e ↦ rw e (renamed nick e refl)
      ]

  handle_join-Change : (args : List Text) → Change c s addr (handle_join s addr args).0
  unfolding handle_join
  handle_join-Change [] = same refl
  handle_join-Change (channel ∷ rest) = elim (Option-cases (nick_of s addr)) [
    | inl e ↦ rw (e, handle_join) (same refl)
    | inr (n, e) ↦ rw (e, handle_join) (entered channel (rw e refl) refl)
  ]

  handle_kick-Change :
      (cmd : Text) (args : List Text) → Change c s addr (handle_kick s addr cmd args).0
  unfolding handle_kick kick
  handle_kick-Change cmd [] = same refl
  handle_kick-Change cmd (channel ∷ []) = same refl
  handle_kick-Change cmd (channel ∷ nick ∷ rest) = elim (Bool-cases (is_authed s addr)) [
    | inr e ↦ rw e (same refl)
    | inl e ↦ elim (Option-cases (find_addr_by_nick s nick)) [
      | inl f ↦ rw (e, f, kick) (same refl)
      | inr (target, f) ↦ rw (e, f, kick) (kicked channel nick target e f refl)
    ]
  ]

  handle_part-Change : (args : List Text) → Change c s addr (handle_part s addr args).0
  unfolding handle_part
  handle_part-Change [] = same refl
  handle_part-Change (channel ∷ rest) = elim (Option-cases (nick_of s addr)) [
    | inl e ↦ rw (e, handle_part) (same refl)
    | inr (n, e) ↦ rw (e, handle_part) (parted channel refl)
  ]

  handle_ping-Change : (args : List Text) → Change c s addr (handle_ping s addr args).0
  unfolding handle_ping
  handle_ping-Change [] = same refl
  handle_ping-Change (token ∷ rest) = same refl

  dispatch-Allowed :
      (cmd verb : Text) (args : List Text) → Allowed (dispatch c s addr cmd verb args)
  unfolding dispatch handle_cap handle_user
  dispatch-Allowed cmd verb args =
      Allowed-if (eqb verb (lit "CAP")) (record { change = same refl })
        (Allowed-if (eqb verb (lit "NICK")) (record { change = handle_nick-Change args })
          (Allowed-if (eqb verb (lit "USER")) (record { change = same refl })
            (Allowed-if (eqb verb (lit "PRIVMSG"))
              (record { change = handle_privmsg-Change cmd args })
              (Allowed-if (eqb verb (lit "JOIN")) (record { change = handle_join-Change args })
                (Allowed-if (eqb verb (lit "KICK"))
                  (record { change = handle_kick-Change cmd args })
                  (Allowed-if (eqb verb (lit "PART")) (record { change = handle_part-Change args })
                    (Allowed-if (eqb verb (lit "PING"))
                      (record { change = handle_ping-Change args })
                      (record { change = same refl }))))))))

  process_command-Change : (cmd : Text) → Change c s addr (process_command c s addr cmd).0
  unfolding process_command
  process_command-Change cmd = go (split_whitespace cmd)
    where
      go :
          (parts : List Text)
          → Change c s addr
              (elim parts as (λ _. Outcome) [
                | [] ↦ (s, [])
                | verb ∷ args ↦ dispatch c s addr cmd verb args
              ]).0
      go [] = same refl
      go (verb ∷ args) = (dispatch-Allowed cmd verb args).change

  -- Whatever line a client sends, the state changes in one of these ways or not at all: the client
  -- takes a nick that no other key holds; it binds its nick by a signature and enough work; it sets
  -- the difficulty to at most 28, being authenticated; it enters a channel, having a nick; it
  -- removes a client from a channel, being authenticated; or it leaves a channel.
  pub handle_line-Change : (line : Text) → Change c s addr (handle_line c s addr line).0
  unfolding handle_line
  handle_line-Change line =
      (Allowed-if (ltb max_msg_len (len line)) {m = (s, [])} (record { change = same refl })
        (Allowed-if (eqb (trim line) []) {m = (s, [])} {n = process_command c s addr (trim line)}
          (record { change = same refl })
          (record { change = process_command-Change (trim line) }))).change
