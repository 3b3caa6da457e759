-- ===== src/Server/Bindings.antt =====
-- Which key a nick is bound to, and who is authenticated.
use mathlib.Core.Path.{ap, subst₂}
use voirc.Base.{
  ◌≡◌, refl, ◌∙◌, true, false, Option, none, some, Text, text_eq, eqb, eqb_iff, arith, ◌⊎◌,
  Bool-cases, Option-cases, inl, inr, if◌then◌else◌,
}
use voirc.Dict
use voirc.Dict.{is_some, or_else, mapped, and_then}
use voirc.Crypto.{Crypto}
use voirc.Pow.{check_difficulty}
use voirc.Server.{Addr, addr_eq, ServerState, nick_of, is_other, leave}
use voirc.Server.Auth.{mark_authenticated, is_nick}
use voirc.Server.Commands.{set_nick}
use voirc.Server.Connection.{close, cleanup, quit, handle_line}
use voirc.Server.Changes.{
  IsProved, Change, same, renamed, claimed, pow_set, entered, kicked, parted, handle_line-Change,
}

module _ (s : ServerState) where
  keys-set_nick : (addr : Addr) (nick : Text) → (set_nick s addr nick).nick_pubkeys ≡ s.nick_pubkeys
  unfolding set_nick
  keys-set_nick addr nick = ground arith

  pub keys-mark :
      (addr : Addr) (k : Text) → (mark_authenticated s addr k).nick_pubkeys ≡ s.nick_pubkeys
  unfolding mark_authenticated
  keys-mark addr k = ground arith

  keys-leave : (channel : Text) (addr : Addr) → (leave s channel addr).nick_pubkeys ≡ s.nick_pubkeys
  unfolding leave
  keys-leave channel addr = ground arith

-- What a command does to the bindings: nothing, or one claim.
pub data KeysChange (c : Crypto) (s : ServerState) (addr : Addr) (t : ServerState) : Type 0 where
  kept : t.nick_pubkeys ≡ s.nick_pubkeys → KeysChange c s addr t
  bound :
      (nick pubkey : Text)
      → IsProved c nick pubkey
      → check_difficulty c.sha256 nick pubkey s.pow_required_bits ≡ true
      → nick_of s addr ≡ some nick
      → is_other (Dict.get s.nick_pubkeys nick) pubkey ≡ false
      → t.nick_pubkeys ≡ Dict.insert s.nick_pubkeys nick pubkey
      → KeysChange c s addr t

pub is_nick-eq : (o : Option Text) (nick : Text) → is_nick o nick ≡ true → o ≡ some nick
is_nick-eq none nick h = cc
is_nick-eq (some n) nick h = ground (arith, eqb_iff n nick)

module _ (c : Crypto) (s : ServerState) (addr : Addr) (t : ServerState) where
  pub Change-keys : Change c s addr t → KeysChange c s addr t
  Change-keys (same e) = kept (rw e)
  Change-keys (renamed nick g e) = kept (rw e (keys-set_nick s addr nick))
  Change-keys (claimed nick pubkey p n d o e) =
      bound nick pubkey p d (is_nick-eq (nick_of s addr) nick n) o (rw e (keys-mark _ addr pubkey))
  Change-keys (pow_set bits le a e) = kept (rw e)
  Change-keys (entered channel n e) = kept (rw e)
  Change-keys (kicked channel target_nick target a f e) = kept (rw e (keys-leave s channel target))
  Change-keys (parted channel e) = kept (rw e (keys-leave s channel addr))

-- No line of any client removes a binding or gives a bound nick another key.
pub binding_stable :
    (c : Crypto) (s : ServerState) (addr : Addr) (line nick pubkey : Text)
    → Dict.get s.nick_pubkeys nick ≡ some pubkey
    → Dict.get (handle_line c s addr line).0.nick_pubkeys nick ≡ some pubkey
binding_stable c s addr line nick pubkey h =
    go (Change-keys c s addr _ (handle_line-Change c s addr line))
  where
    go : {t : ServerState} → KeysChange c s addr t → Dict.get t.nick_pubkeys nick ≡ some pubkey
    go (kept e) = rw e h
    go (bound n k p d i o e) = rw e (
        ground
          (arith, Dict.get-insert s.nick_pubkeys n k nick, eqb_iff n nick, eqb_iff pubkey k, h, o))

pub KeysChange-sound :
    (c : Crypto) (s : ServerState) (addr : Addr) {t : ServerState}
    → KeysChange c s addr t
    → (nick pubkey : Text) → Dict.get t.nick_pubkeys nick ≡ some pubkey
    → (Dict.get s.nick_pubkeys nick ≡ some pubkey)
      ⊎ (IsProved c nick pubkey
          × (check_difficulty c.sha256 nick pubkey s.pow_required_bits ≡ true)
          × (nick_of s addr ≡ some nick))
KeysChange-sound c s addr (kept e) nick pubkey h = inl (rw e at h)
KeysChange-sound c s addr (bound n k p d i o e) nick pubkey h =
    let h' : Dict.get (Dict.insert s.nick_pubkeys n k) nick ≡ some pubkey = rw e at h in
    elim (Bool-cases (eqb n nick)) [
      | inr other ↦ inl (ground (arith, Dict.get-insert s.nick_pubkeys n k nick, other, h'))
      | inl equal ↦
          let en : n ≡ nick = (eqb_iff n nick).0 equal in
          let ek : k ≡ pubkey =
            ground (arith, Dict.get-insert s.nick_pubkeys n k nick, equal, h') in
          inr (
            subst₂ (IsProved c) en ek p,
            subst₂ (λ (x y : Text). check_difficulty c.sha256 x y s.pow_required_bits ≡ true) en ek
                d,
            i ∙ ap (λ (x : Text). some x) en,
          )
    ]

-- A binding after a line was there before, or its key has signed the nick, which is the nick of the
-- client that sent the line and has the work that the server requires.
pub binding_sound :
    (c : Crypto) (s : ServerState) (addr : Addr) (line nick pubkey : Text)
    → Dict.get (handle_line c s addr line).0.nick_pubkeys nick ≡ some pubkey
    → (Dict.get s.nick_pubkeys nick ≡ some pubkey)
      ⊎ (IsProved c nick pubkey
          × (check_difficulty c.sha256 nick pubkey s.pow_required_bits ≡ true)
          × (nick_of s addr ≡ some nick))
binding_sound c s addr line nick pubkey =
    KeysChange-sound c s addr (Change-keys c s addr _ (handle_line-Change c s addr line)) nick
      pubkey

-- The end of a connection removes the binding of its client's nick, whether or not the client was
-- authenticated, and no other binding.
pub close-keys :
    (s : ServerState) (addr : Addr) (nick : Text)
    → Dict.get (close s addr).0.nick_pubkeys nick
      ≡ (if is_nick (nick_of s addr) nick then none else Dict.get s.nick_pubkeys nick)
unfolding close
close-keys s addr nick = elim (Option-cases (Dict.get s.clients addr)) [
  | inl e ↦ rw e refl
  | inr (client, e) ↦ elim (Option-cases client.nick) [
    | inl n ↦ rw e (rw (n, cleanup) refl)
    | inr (own, n) ↦ rw e (
        rw (n, cleanup)
          (unfold quit in
            ground (arith, Dict.get-remove s.nick_pubkeys own nick, eqb_iff own nick)))
  ]
]
