-- ===== src/Server/Untouched.antt =====
-- What a client does leaves the entries of the others, in src/irc_server.rs.
use voirc.Base.{◌≡◌, refl, false, some, Text, text_eq, eqb, arith, Option-cases, inl, inr}
use voirc.Dict
use voirc.Dict.{Dict, is_some}
use voirc.Crypto.{Crypto}
use voirc.Server.{Addr, addr_eq, Client, ServerState, leave}
use voirc.Server.Auth.{mark_authenticated, authenticate}
use voirc.Server.Commands.{set_nick}
use voirc.Server.Connection.{arrive, connect, close, cleanup, quit}
use voirc.Server.Changes.{Change, same, renamed, claimed, pow_set, entered, kicked, parted}
use voirc.Server.Run.{arrive_keeps}

-- What a client does leaves the entries of the others.
module _ (c : Crypto) (s : ServerState) (addr b : Addr) (other : eqb addr b ≡ false) where
  insert-other :
      (m : Dict Addr Client) (v : Client) → Dict.get (Dict.insert m addr v) b ≡ Dict.get m b
  insert-other m v = ground (arith, Dict.get-insert m addr v b, other)

  clients-set_nick :
      (nick : Text) → Dict.get (set_nick s addr nick).clients b ≡ Dict.get s.clients b
  unfolding set_nick
  clients-set_nick nick = elim (Option-cases (Dict.get s.clients addr)) [
    | inl e ↦ rw (e, set_nick) refl
    | inr (old, e) ↦ rw (e, set_nick) (insert-other s.clients (record old { nick = some nick }))
  ]

  pub clients-mark :
      (u : ServerState) (k : Text)
      → Dict.get (mark_authenticated u addr k).clients b ≡ Dict.get u.clients b
  unfolding mark_authenticated
  clients-mark u k = elim (Option-cases (Dict.get u.clients addr)) [
    | inl e ↦ rw (e, mark_authenticated) refl
    | inr (old, e) ↦ rw (e, mark_authenticated) (insert-other u.clients (authenticate k old))
  ]

  clients-leave : (channel : Text) (a : Addr) → (leave s channel a).clients ≡ s.clients
  unfolding leave
  clients-leave channel a = ground arith

  pub Change-others :
      (t : ServerState) → Change c s addr t → Dict.get t.clients b ≡ Dict.get s.clients b
  Change-others t (same e) = rw e refl
  Change-others t (renamed nick g e) = rw e (clients-set_nick nick)
  Change-others t (claimed nick pubkey p n d o e) =
      rw e
        (clients-mark (record s { nick_pubkeys = Dict.insert s.nick_pubkeys nick pubkey }) pubkey)
  Change-others t (pow_set bits le a e) = rw e refl
  Change-others t (entered channel n e) = rw e refl
  Change-others t (kicked channel target_nick target a f e) =
      rw (e, clients-leave channel target) refl
  Change-others t (parted channel e) = rw (e, clients-leave channel addr) refl

  pub arrive-others : Dict.get (arrive s addr).clients b ≡ Dict.get s.clients b
  arrive-others =
      arrive_keeps (λ t. Dict.get t.clients b ≡ Dict.get s.clients b) s addr refl
        (unfold connect in insert-other s.clients _)

  pub close-others : Dict.get (close s addr).0.clients b ≡ Dict.get s.clients b
  unfolding close
  close-others = elim (Option-cases (Dict.get s.clients addr)) [
    | inl e ↦ rw e refl
    | inr (client, e) ↦ elim (Option-cases client.nick) [
      | inl n ↦ rw e (rw (n, cleanup) (ground (arith, Dict.get-remove s.clients addr b, other)))
      | inr (nick, n) ↦
          rw e (
            rw (n, cleanup)
              (unfold quit in ground (arith, Dict.get-remove s.clients addr b, other)))
    ]
  ]
