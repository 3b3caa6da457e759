-- ===== src/Server/Authentication.antt =====
-- Who becomes authenticated, and what a change of nick does to it.
use voirc.Base.{
  ◌≡◌, refl, true, false, none, some, List, ◌∷◌, Text, text_eq, eqb_iff, eqb_refl, arith,
  Option-cases, inl, inr,
}
use voirc.Dict
use voirc.Dict.{is_some, or_else, and_then}
use voirc.Crypto.{Crypto}
use voirc.Pow.{check_difficulty}
use voirc.Server.{Addr, addr_eq, ServerState, nick_of, pubkey_of, is_authed, authed, leave}
use voirc.Server.Auth.{mark_authenticated, authenticate, is_nick}
use voirc.Server.Commands.{set_nick, handle_nick}
use voirc.Server.Connection.{handle_line}
use voirc.Server.Bindings.{is_nick-eq}
use voirc.Server.Changes.{
  IsProved, bind, Change, same, renamed, claimed, pow_set, entered, kicked, parted,
  handle_line-Change,
}

module _ (s : ServerState) (a : Addr) where
  authed-set_nick : (addr : Addr) (nick : Text) → is_authed (set_nick s addr nick) a ≡ is_authed s a
  unfolding set_nick
  authed-set_nick addr nick = elim (Option-cases (Dict.get s.clients addr)) [
    | inl e ↦ rw (e, set_nick) refl
    | inr (old, e) ↦
        rw (e, set_nick)
          (ground (
            arith,
            Dict.get-insert s.clients addr (record old { nick = some nick }) a,
            eqb_iff addr a,
            e,
          ))
  ]

  authed-leave : (channel : Text) (addr : Addr) → is_authed (leave s channel addr) a ≡ is_authed s a
  unfolding leave
  authed-leave channel addr = ground arith

  pub authed-bind :
      (addr : Addr) (nick pubkey : Text)
      → is_authed s a ≡ false
      → is_authed (bind s addr nick pubkey) a ≡ true
      → a ≡ addr
  unfolding mark_authenticated
  authed-bind addr nick pubkey h k = elim (Option-cases (Dict.get s.clients addr)) [
    | inl e ↦ let k' : is_authed s a ≡ true = rw (e, mark_authenticated) at k in cc (h, k')
    | inr (old, e) ↦
        ground (
          arith,
          Dict.get-insert s.clients addr (authenticate pubkey old) a,
          eqb_iff addr a,
          e,
          h,
          k,
        )
  ]

-- How a client at `a` became authenticated in the state `t`.
pub record IsAuthenticated (c : Crypto) (s : ServerState) (a : Addr) (t : ServerState)
    : Type 0 where
  pub nick : Text
  pub pubkey : Text
  pub proof : IsProved c nick pubkey
  pub work : check_difficulty c.sha256 nick pubkey s.pow_required_bits ≡ true
  pub nick_eq : nick_of t a ≡ some nick
  pub pubkey_eq : pubkey_of t a ≡ some pubkey
  pub binding_eq : Dict.get t.nick_pubkeys nick ≡ some pubkey

pub bound_client :
    (s : ServerState) (addr : Addr) (nick pubkey : Text)
    → is_nick (nick_of s addr) nick ≡ true
    → (nick_of (bind s addr nick pubkey) addr ≡ some nick)
      × (pubkey_of (bind s addr nick pubkey) addr ≡ some pubkey)
      × (Dict.get (bind s addr nick pubkey).nick_pubkeys nick ≡ some pubkey)
unfolding mark_authenticated
bound_client s addr nick pubkey h = elim (Option-cases (Dict.get s.clients addr)) [
  | inl e ↦ let h' : is_nick none nick ≡ true = rw e at h in cc h'
  | inr (old, e) ↦
      let h' : is_nick old.nick nick ≡ true = rw e at h in
      rw (e, mark_authenticated)
        (
          ground (
            arith,
            Dict.get-insert s.clients addr (authenticate pubkey old) addr,
            eqb_refl addr,
            is_nick-eq old.nick nick h',
          ),
          ground
              (arith, Dict.get-insert s.clients addr (authenticate pubkey old) addr, eqb_refl addr),
          ground (arith, Dict.get-insert s.nick_pubkeys nick pubkey nick, eqb_refl nick),
        )
]

pub Change-authenticates :
    (c : Crypto) (s : ServerState) (addr : Addr) (t : ServerState) (a : Addr)
    → Change c s addr t
    → is_authed s a ≡ false
    → is_authed t a ≡ true
    → (a ≡ addr) × IsAuthenticated c s a t
Change-authenticates c s addr t a (same e) h k =
    let k' : is_authed s a ≡ true = rw e at k in cc (h, k')
Change-authenticates c s addr t a (renamed nick g e) h k =
    let k' : is_authed (set_nick s addr nick) a ≡ true = rw e at k in
    cc (h, k', authed-set_nick s a addr nick)
Change-authenticates c s addr t a (pow_set bits le g e) h k =
    let k' : is_authed s a ≡ true = rw e at k in cc (h, k')
Change-authenticates c s addr t a (entered channel n e) h k =
    let k' : is_authed s a ≡ true = rw e at k in cc (h, k')
Change-authenticates c s addr t a (kicked channel target_nick target g f e) h k =
    let k' : is_authed (leave s channel target) a ≡ true = rw e at k in
    cc (h, k', authed-leave s a channel target)
Change-authenticates c s addr t a (parted channel e) h k =
    let k' : is_authed (leave s channel addr) a ≡ true = rw e at k in
    cc (h, k', authed-leave s a channel addr)
Change-authenticates c s addr t a (claimed nick pubkey p n d o e) h k =
    let k' : is_authed (bind s addr nick pubkey) a ≡ true = rw e at k in
    let same_addr : a ≡ addr = authed-bind s a addr nick pubkey h k' in
    let (en, ep, eb) = bound_client s addr nick pubkey n in
    (
      same_addr,
      rw (same_addr, e)
          (record {
            nick = nick;
            pubkey = pubkey;
            proof = p;
            work = d;
            nick_eq = en;
            pubkey_eq = ep;
            binding_eq = eb;
          }),
    )

-- A client becomes authenticated only by a line of its own. Its key has then signed its nick, the
-- nick has the work that the server requires, and the nick is bound to that key.
pub authentication_sound :
    (c : Crypto) (s : ServerState) (addr : Addr) (line : Text) (a : Addr)
    → is_authed s a ≡ false
    → is_authed (handle_line c s addr line).0 a ≡ true
    → (a ≡ addr) × IsAuthenticated c s a (handle_line c s addr line).0
authentication_sound c s addr line a =
    Change-authenticates c s addr (handle_line c s addr line).0 a (handle_line-Change c s addr line)

nick_of-set_nick :
    (s : ServerState) (addr : Addr) (nick : Text)
    → is_authed s addr ≡ true
    → nick_of (set_nick s addr nick) addr ≡ some nick
unfolding set_nick
nick_of-set_nick s addr nick h = elim (Option-cases (Dict.get s.clients addr)) [
  | inl e ↦ let h' : authed none ≡ true = rw e at h in cc h'
  | inr (old, e) ↦
      rw (e, set_nick)
        (ground (
          arith,
          Dict.get-insert s.clients addr (record old { nick = some nick }) addr,
          eqb_refl addr,
        ))
]

-- An authenticated client that takes a nick which is bound to no key stays authenticated under that
-- nick, and the nick is still bound to no key.
pub authentication_survives_nick :
    (s : ServerState) (addr : Addr) (nick : Text) (rest : List Text)
    → is_authed s addr ≡ true
    → Dict.get s.nick_pubkeys nick ≡ none
    → (is_authed (handle_nick s addr (nick ∷ rest)).0 addr ≡ true)
      × (nick_of (handle_nick s addr (nick ∷ rest)).0 addr ≡ some nick)
      × (Dict.get (handle_nick s addr (nick ∷ rest)).0.nick_pubkeys nick ≡ none)
unfolding handle_nick
authentication_survives_nick s addr nick rest h free =
    rw (free, handle_nick)
      (
        rw authed-set_nick h,
        nick_of-set_nick s addr nick h,
        unfold set_nick in ground (arith, free),
      )
