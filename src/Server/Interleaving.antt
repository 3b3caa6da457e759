-- ===== src/Server/Interleaving.antt =====
-- What holds in every interleaving of the sections of src/irc_server.rs.
use voirc.Base.{
  ℕ, ◌≡◌, refl, Option, none, some, Text, text_eq, arith, Bool-cases, Option-cases, inl, inr,
}
use voirc.Strings.{lit, strip_prefix}
use voirc.Crypto.{Crypto}
use voirc.Pow.{check_difficulty}
use voirc.Server.{Addr, addr_eq, ServerState, nick_of, is_authed}
use voirc.Server.Auth.{
  Checked, malformed, failed, claim, check_hello, handle_hello, accept_claim, is_nick, valid_bits,
  set_pow, handle_pow_set, answer,
}
use voirc.Server.Commands.{handle_control}
use voirc.Server.Sections.{
  Section, check_nick, check_authed, first_section, run_section, finish, claimed_section,
  bits_section,
}

module _ (c : Crypto) (s : ServerState) (addr : Addr) where
  finish-claim :
      (nick pubkey : Text)
      → finish c s addr (check_nick nick pubkey) ≡ accept_claim c s addr nick pubkey
  unfolding finish accept_claim run_section
  finish-claim nick pubkey = elim (Bool-cases (is_nick (nick_of s addr) nick)) [
    | inr e ↦ rw e refl
    | inl e ↦ elim (Bool-cases (check_difficulty c.sha256 nick pubkey s.pow_required_bits)) [
      | inr f ↦ rw (e, f) refl
      | inl f ↦ rw (e, f) refl
    ]
  ]

  finish-bits : (bits : ℕ) → finish c s addr (check_authed bits) ≡ set_pow s addr (some bits)
  unfolding finish set_pow run_section
  finish-bits bits = elim (Bool-cases (is_authed s addr)) [ inr e ↦ rw e refl | inl e ↦ rw e refl ]

  finish-claimed :
      (checked : Checked) (section : Section)
      → claimed_section checked ≡ some section
      → finish c s addr section ≡ answer c s addr checked
  unfolding answer
  finish-claimed malformed section e = ground (arith, e)
  finish-claimed (failed nick msg) section e = ground (arith, e)
  finish-claimed (claim nick pubkey) section e =
      let e' : check_nick nick pubkey ≡ section = ground (arith, e) in
      rw (← e') (finish-claim nick pubkey)

  finish-pow :
      (bits : Option ℕ) (section : Section)
      → bits_section bits ≡ some section
      → finish c s addr section ≡ set_pow s addr bits
  finish-pow none section e = ground (arith, e)
  finish-pow (some bits) section e =
      let e' : check_authed bits ≡ section = ground (arith, e) in rw (← e') (finish-bits bits)

  -- The sections of a message to the server, run with nothing between them, give the state that the
  -- whole handler gives, and send the same.
  pub finish-first_section :
      (text : Text) (section : Section)
      → first_section c text ≡ some section
      → finish c s addr section ≡ handle_control c s addr text
  unfolding first_section handle_control handle_hello handle_pow_set strip_prefix
  finish-first_section text section e =
      elim (Option-cases (strip_prefix (lit "VOIRC_HELLO:") text)) [
        | inr (rest, h) ↦ rw h (finish-claimed (check_hello c rest) section (rw h at e))
        | inl h ↦ elim (Option-cases (strip_prefix (lit "VOIRC_POW_SET:") text)) [
          | inr (rest, k) ↦ rw (h, k) (finish-pow (valid_bits rest) section (rw (h, k) at e))
          | inl k ↦ let e' : none ≡ some section = rw (h, k) at e in ground (arith, e')
        ]
      ]
