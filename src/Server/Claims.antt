-- ===== src/Server/Claims.antt =====
-- What the sections of src/irc_server.rs have checked, and what each does.
use mathlib.Core.Path.{subst, subst₂}
use voirc.Base.{
  ℕ, ◌≡◌, ◌≤◌, refl, true, false, Option, none, some, [], Text, text_eq, eqb, eqb_iff, arith,
  Bool-cases, Option-cases, inl, inr,
}
use voirc.Dict
use voirc.Dict.{Dict, is_some}
use voirc.Strings.{lit, strip_prefix}
use voirc.Crypto.{Crypto}
use voirc.Pow.{check_difficulty}
use voirc.Server.{Addr, addr_eq, ServerState, try_bind_nick_pubkey, is_other, nick_of, is_authed}
use voirc.Server.Auth.{
  Checked, malformed, failed, claim, check_hello, valid_bits, mark_authenticated, bind_hello,
  is_nick,
}
use voirc.Server.Bindings.{is_nick-eq, keys-mark}
use voirc.Server.Changes.{IsProved, bind, check_parts-claim, valid_bits-le}
use voirc.Server.Run.{AllProved}
use voirc.Server.Sections.{
  Section, check_nick, check_work, bind_key, check_authed, write_bits, Ran, run_section,
  first_section, claimed_section, bits_section,
}
use voirc.Server.Untouched.{clients-mark}

module _ (c : Crypto) where
  -- What a task has checked that stands before a section.
  unfoldable pub Holds : ServerState → Addr → Section → Type 0
  Holds s addr (check_nick nick pubkey) = IsProved c nick pubkey
  Holds s addr (check_work nick pubkey) = IsProved c nick pubkey × (nick_of s addr ≡ some nick)
  Holds s addr (bind_key nick pubkey) = IsProved c nick pubkey × (nick_of s addr ≡ some nick)
  Holds s addr (check_authed bits) = bits ≤ 28
  Holds s addr (write_bits bits) = (bits ≤ 28) × (is_authed s addr ≡ true)

  pub Holds-same :
      (s t : ServerState) (addr : Addr) (section : Section)
      → Dict.get t.clients addr ≡ Dict.get s.clients addr
      → Holds s addr section
      → Holds t addr section
  unfolding Holds
  Holds-same s t addr (check_nick nick pubkey) e h = h
  Holds-same s t addr (check_work nick pubkey) e h = rw e h
  Holds-same s t addr (bind_key nick pubkey) e h = rw e h
  Holds-same s t addr (check_authed bits) e h = h
  Holds-same s t addr (write_bits bits) e h = rw e h

  -- What one section does to the server, and what its task has then checked.
  pub data Effect (s : ServerState) (addr : Addr) (t : ServerState) : Type 0 where
    kept : t ≡ s → Effect s addr t
    bound :
        (nick pubkey : Text)
        → IsProved c nick pubkey
        → nick_of s addr ≡ some nick
        → is_other (Dict.get s.nick_pubkeys nick) pubkey ≡ false
        → t ≡ bind s addr nick pubkey
        → Effect s addr t
    bits_set :
        (bits : ℕ)
        → bits ≤ 28
        → is_authed s addr ≡ true
        → t ≡ record s { pow_required_bits = bits }
        → Effect s addr t

  pub record IsSound (s : ServerState) (addr : Addr) (ran : Ran) : Type 0 where
    pub effect : Effect s addr ran.outcome.0
    pub next_holds : (next : Section) → ran.next ≡ some next → Holds ran.outcome.0 addr next

  ended :
      (s : ServerState) (addr : Addr) (ran : Ran)
      → Effect s addr ran.outcome.0
      → ran.next ≡ none
      → IsSound s addr ran
  ended s addr ran e n = record {
    effect = e;
    next_holds = λ next h. let h' : none ≡ some next = rw n at h in ground (arith, h');
  }

  continued :
      (s : ServerState) (addr : Addr) (t : ServerState) (next : Section)
      → Effect s addr t
      → Holds t addr next
      → IsSound s addr (record { outcome = (t, []); next = some next })
  continued s addr t next e h = record {
    effect = e;
    next_holds =
        λ n k. let same_next : next ≡ n = ground (arith, k) in subst (Holds t addr) same_next h;
  }

  bind_hello-Effect :
      (s : ServerState) (addr : Addr) (nick pubkey : Text)
      → IsProved c nick pubkey
      → nick_of s addr ≡ some nick
      → Effect s addr (bind_hello c s addr nick pubkey).0
  unfolding bind_hello try_bind_nick_pubkey
  bind_hello-Effect s addr nick pubkey p n =
      elim (Bool-cases (is_other (Dict.get s.nick_pubkeys nick) pubkey)) [
        | inl e ↦ rw e (kept refl)
        | inr e ↦ rw e (bound nick pubkey p n e refl)
      ]

  pub run_section-IsSound :
      (s : ServerState) (addr : Addr) (section : Section)
      → Holds s addr section
      → IsSound s addr (run_section c s addr section)
  unfolding run_section Holds
  run_section-IsSound s addr (check_nick nick pubkey) h =
      elim (Bool-cases (is_nick (nick_of s addr) nick)) [
        | inr e ↦ rw e (ended s addr _ (kept refl) refl)
        | inl e ↦ rw e (continued s addr s _ (kept refl) (h, is_nick-eq (nick_of s addr) nick e))
      ]
  run_section-IsSound s addr (check_work nick pubkey) h =
      elim (Bool-cases (check_difficulty c.sha256 nick pubkey s.pow_required_bits)) [
        | inr e ↦ rw e (ended s addr _ (kept refl) refl)
        | inl e ↦ rw e (continued s addr s _ (kept refl) h)
      ]
  run_section-IsSound s addr (bind_key nick pubkey) h =
      ended s addr _ (bind_hello-Effect s addr nick pubkey h.0 h.1) refl
  run_section-IsSound s addr (check_authed bits) h = elim (Bool-cases (is_authed s addr)) [
    | inr e ↦ rw e (ended s addr _ (kept refl) refl)
    | inl e ↦ rw e (continued s addr s _ (kept refl) (h, e))
  ]
  run_section-IsSound s addr (write_bits bits) h = ended s addr _ (bits_set bits h.0 h.1 refl) refl

  bind-proved :
      (s : ServerState) (addr : Addr) (nick pubkey : Text)
      → IsProved c nick pubkey
      → AllProved c s
      → AllProved c (bind s addr nick pubkey)
  bind-proved s addr nick pubkey p h k key g =
      let g' : Dict.get (Dict.insert s.nick_pubkeys nick pubkey) k ≡ some key =
        rw
          (keys-mark (record s { nick_pubkeys = Dict.insert s.nick_pubkeys nick pubkey }) addr
            pubkey)
          at g in
      elim (Bool-cases (eqb nick k)) [
        | inr other ↦
            h k key (ground (arith, Dict.get-insert s.nick_pubkeys nick pubkey k, other, g'))
        | inl equal ↦
            let ek : pubkey ≡ key =
              ground (arith, Dict.get-insert s.nick_pubkeys nick pubkey k, equal, g') in
            subst₂ (IsProved c) ((eqb_iff nick k).0 equal) ek p
      ]

  pub Effect-proved :
      (s : ServerState) (addr : Addr) (t : ServerState)
      → Effect s addr t
      → AllProved c s
      → AllProved c t
  Effect-proved s addr t (kept e) h = rw e h
  Effect-proved s addr t (bits_set bits le a e) h = rw e h
  Effect-proved s addr t (bound nick pubkey p n o e) h = rw e (bind-proved s addr nick pubkey p h)

  pub Effect-bits :
      (s : ServerState) (addr : Addr) (t : ServerState)
      → Effect s addr t
      → s.pow_required_bits ≤ 28
      → t.pow_required_bits ≤ 28
  unfolding mark_authenticated
  Effect-bits s addr t (kept e) h = rw e h
  Effect-bits s addr t (bits_set bits le a e) h = rw e le
  Effect-bits s addr t (bound nick pubkey p n o e) h = rw e (ground arith)

  pub Effect-others :
      (s : ServerState) (addr : Addr) (t : ServerState) (b : Addr)
      → eqb addr b ≡ false
      → Effect s addr t
      → Dict.get t.clients b ≡ Dict.get s.clients b
  Effect-others s addr t b other (kept e) = rw e refl
  Effect-others s addr t b other (bits_set bits le a e) = rw e refl
  Effect-others s addr t b other (bound nick pubkey p n o e) = rw e (
      clients-mark c s addr b other
        (record s { nick_pubkeys = Dict.insert s.nick_pubkeys nick pubkey }) pubkey)

  claimed-Holds :
      (s : ServerState) (addr : Addr) (checked : Checked) (section : Section)
      → claimed_section checked ≡ some section
      → ((nick pubkey : Text) → checked ≡ claim nick pubkey → IsProved c nick pubkey)
      → Holds s addr section
  claimed-Holds s addr malformed section e h = ground (arith, e)
  claimed-Holds s addr (failed nick msg) section e h = ground (arith, e)
  claimed-Holds s addr (claim nick pubkey) section e h =
      let same_section : check_nick nick pubkey ≡ section = ground (arith, e) in
      subst (Holds s addr) same_section (unfold Holds in h nick pubkey refl)

  bits-Holds :
      (s : ServerState) (addr : Addr) (bits : Option ℕ) (section : Section)
      → bits_section bits ≡ some section
      → ((n : ℕ) → bits ≡ some n → n ≤ 28)
      → Holds s addr section
  bits-Holds s addr none section e h = ground (arith, e)
  bits-Holds s addr (some n) section e h =
      let same_section : check_authed n ≡ section = ground (arith, e) in
      subst (Holds s addr) same_section (unfold Holds in h n refl)

  pub first-Holds :
      (s : ServerState) (addr : Addr) (text : Text) (section : Section)
      → first_section c text ≡ some section
      → Holds s addr section
  unfolding first_section check_hello strip_prefix
  first-Holds s addr text section e = elim (Option-cases (strip_prefix (lit "VOIRC_HELLO:") text)) [
    | inr (rest, h) ↦
        claimed-Holds s addr (check_hello c rest) section (rw h at e) (check_parts-claim c _)
    | inl h ↦ elim (Option-cases (strip_prefix (lit "VOIRC_POW_SET:") text)) [
      | inr (rest, k) ↦
          bits-Holds s addr (valid_bits rest) section (rw (h, k) at e) (valid_bits-le c s addr rest)
      | inl k ↦ let e' : none ≡ some section = rw (h, k) at e in ground (arith, e')
    ]
  ]
