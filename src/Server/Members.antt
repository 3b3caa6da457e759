-- ===== src/Server/Members.antt =====
-- The invariant of the server: whoever is in a channel is connected and has a nick, and whoever is
-- authenticated has a key. It does not hold of the addresses that connected while the server still had
-- an entry for them, as `handle_connection_io` puts a new one without a nick over it.
use voirc.Base.{
  ◌≡◌, refl, ◌&&◌, Bool-cases, if◌then◌else◌, ◌∷◌, true, false, none, some, List, [], Text, text_eq,
  eqb, eqb_iff, arith, contains, set_insert, set_remove, contains-set_insert, contains-set_remove,
  Option-cases, inl, inr,
}
use voirc.Dict
use voirc.Dict.{is_some, or_else, mapped, and_then}
use voirc.Crypto.{Crypto}
use voirc.Server.{
  Addr, addr_eq, Client, ServerState, nick_of, pubkey_of, is_authed, leave, members_of,
}
use voirc.Server.Auth.{mark_authenticated, authenticate}
use voirc.Server.Commands.{set_nick, enter}
use voirc.Server.Connection.{accepts, connect, arrive, close, cleanup, quit}
use voirc.Server.Changes.{bind, Change, same, renamed, claimed, pow_set, entered, kicked, parted}

-- `returned` lists those addresses.
pub record IsValid (returned : List Addr) (s : ServerState) : Type 0 where
  pub members_named :
      (channel : Text) (members : List Addr) (a : Addr)
      → Dict.get s.channels channel ≡ some members
      → contains members a ≡ true
      → contains returned a ≡ false
      → is_some (nick_of s a) ≡ true
  pub authed_keyed : (a : Addr) → is_authed s a ≡ true → is_some (pubkey_of s a) ≡ true

-- Clients that change no nick to none, and authenticate nobody without a key, keep the invariant.
module _ (returned : List Addr) (s : ServerState) (v : IsValid returned s) where
  put_client-IsValid :
      (addr : Addr) (old new_client : Client)
      → Dict.get s.clients addr ≡ some old
      → (is_some old.nick ≡ true → is_some new_client.nick ≡ true)
      → (new_client.authenticated ≡ true → is_some new_client.pubkey ≡ true)
      → (keys : Dict.Dict Text Text)
      → IsValid returned
          (record s { clients = Dict.insert s.clients addr new_client; nick_pubkeys = keys })
  put_client-IsValid addr old new_client e hn ha keys = record {
    members_named = λ channel members a h k r. ground (
      arith,
      v.members_named channel members a h k r,
      Dict.get-insert s.clients addr new_client a,
      eqb_iff addr a,
      hn,
      e,
    );
    authed_keyed = λ a h.
        ground (
          arith,
          v.authed_keyed a,
          Dict.get-insert s.clients addr new_client a,
          eqb_iff addr a,
          ha,
        );
  }

  set_nick-IsValid : (addr : Addr) (nick : Text) → IsValid returned (set_nick s addr nick)
  unfolding set_nick
  set_nick-IsValid addr nick = elim (Option-cases (Dict.get s.clients addr)) [
    | inl e ↦ rw (e, set_nick) v
    | inr (old, e) ↦
        rw (e, set_nick)
          (put_client-IsValid addr old (record old { nick = some nick }) e (λ _. refl)
            (λ h. ground (arith, v.authed_keyed addr, e, h)) s.nick_pubkeys)
  ]

  bind-IsValid : (addr : Addr) (nick pubkey : Text) → IsValid returned (bind s addr nick pubkey)
  unfolding mark_authenticated
  bind-IsValid addr nick pubkey = elim (Option-cases (Dict.get s.clients addr)) [
    | inl e ↦
        rw (e, mark_authenticated)
          (record { members_named = v.members_named; authed_keyed = v.authed_keyed })
    | inr (old, e) ↦
        rw (e, mark_authenticated)
          (put_client-IsValid addr old (authenticate pubkey old) e (λ h. h) (λ _. refl) _)
  ]

  -- One channel gets new members, each with a nick.
  put_channel-IsValid :
      (channel : Text) (members : List Addr)
      → ((a : Addr)
          → contains members a ≡ true
          → contains returned a ≡ false
          → is_some (nick_of s a) ≡ true)
      → IsValid returned (record s { channels = Dict.insert s.channels channel members })
  put_channel-IsValid channel members hm = record {
    members_named = λ ch ms a h k r. ground (
      arith,
      v.members_named ch ms a,
      Dict.get-insert s.channels channel members ch,
      hm a,
      h,
      k,
      r,
    );
    authed_keyed = v.authed_keyed;
  }

  member_named :
      (channel : Text) (a : Addr)
      → contains (members_of s channel) a ≡ true
      → contains returned a ≡ false
      → is_some (nick_of s a) ≡ true
  unfolding contains
  member_named channel a h r = elim (Option-cases (Dict.get s.channels channel)) [
    | inl e ↦ let f : contains {A = Addr} [] a ≡ true = rw e at h in cc f
    | inr (members, e) ↦ v.members_named channel members a e (rw e at h) r
  ]

  enter-IsValid :
      (addr : Addr) (channel : Text)
      → is_some (nick_of s addr) ≡ true
      → IsValid returned (enter s addr channel)
  enter-IsValid addr channel h =
      put_channel-IsValid channel (set_insert (members_of s channel) addr) λ a k r. ground (
        arith,
        contains-set_insert (members_of s channel) addr a,
        eqb_iff addr a,
        member_named channel a,
        h,
        k,
        r,
      )

  leave-IsValid : (channel : Text) (addr : Addr) → IsValid returned (leave s channel addr)
  unfolding leave
  leave-IsValid channel addr = elim (Option-cases (Dict.get s.channels channel)) [
    | inl e ↦ rw (e, leave) v
    | inr (members, e) ↦
        rw (e, leave)
          (put_channel-IsValid channel (set_remove members addr) λ a k r.
            v.members_named channel members a e
              (ground (arith, contains-set_remove members addr a, k)) r)
  ]

-- A command of a client keeps the invariant.
pub Change-IsValid :
    (c : Crypto) (returned : List Addr) (s : ServerState) (addr : Addr) (t : ServerState)
    → Change c s addr t
    → IsValid returned s
    → IsValid returned t
Change-IsValid c returned s addr t (same e) v = rw e v
Change-IsValid c returned s addr t (renamed nick g e) v =
    rw e (set_nick-IsValid returned s v addr nick)
Change-IsValid c returned s addr t (claimed nick pubkey p n d o e) v =
    rw e (bind-IsValid returned s v addr nick pubkey)
Change-IsValid c returned s addr t (pow_set bits le a e) v =
    rw e (record { members_named = v.members_named; authed_keyed = v.authed_keyed })
Change-IsValid c returned s addr t (entered channel n e) v =
    rw e (enter-IsValid returned s v addr channel n)
Change-IsValid c returned s addr t (kicked channel target_nick target a f e) v =
    rw e (leave-IsValid returned s v channel target)
Change-IsValid c returned s addr t (parted channel e) v =
    rw e (leave-IsValid returned s v channel addr)

-- the addresses that connected while there was an entry for them, after an arrival
abbrev pub returning : ServerState → Addr → List Addr → List Addr
returning s a returned =
    if accepts s a && is_some (Dict.get s.clients a) then a ∷ returned else returned

-- A connection keeps it.
connect-IsValid :
    (returned : List Addr) (s : ServerState) (addr : Addr)
    → IsValid returned s
    → IsValid
        (if is_some (Dict.get s.clients addr) then addr ∷ returned else returned)
        (connect s addr)
unfolding connect contains
connect-IsValid returned s addr v =
    let fresh_client : Client = record {
      nick = none;
      pubkey = none;
      authenticated = false;
      ip = addr.ip;
    } in
    record {
      members_named = λ channel members a h k r. ground (
        arith,
        v.members_named channel members a h k,
        Dict.get-insert s.clients addr fresh_client a,
        eqb_iff addr a,
        r,
      );
      authed_keyed = λ a h.
          ground (
            arith,
            v.authed_keyed a,
            Dict.get-insert s.clients addr fresh_client a,
            eqb_iff addr a,
          );
    }

pub arrive-IsValid :
    (returned : List Addr) (s : ServerState) (a : Addr)
    → IsValid returned s
    → IsValid (returning s a returned) (arrive s a)
unfolding arrive
arrive-IsValid returned s a v = elim (Bool-cases (accepts s a)) [
  | inl e ↦ rw (e, arrive) (connect-IsValid returned s a v)
  | inr e ↦ rw (e, arrive) v
]

module _ (returned : List Addr) (s : ServerState) (addr : Addr) (v : IsValid returned s) where
  removed-IsValid :
      (client : Client)
      → Dict.get s.clients addr ≡ some client
      → client.nick ≡ none
      → IsValid returned (record s { clients = Dict.remove s.clients addr })
  removed-IsValid client e n = record {
    members_named = λ channel members a h k r. ground (
      arith,
      v.members_named channel members a h k r,
      Dict.get-remove s.clients addr a,
      eqb_iff addr a,
      e,
      n,
    );
    authed_keyed =
        λ a h. ground (arith, v.authed_keyed a, Dict.get-remove s.clients addr a, eqb_iff addr a);
  }

  -- A member of a channel that `addr` has left was a member before, and is another client.
  was_member :
      (channel : Text) (members : List Addr) (a : Addr)
      → Dict.get (Dict.map_values (λ _ ms. set_remove ms addr) s.channels) channel ≡ some members
      → contains members a ≡ true
      → contains returned a ≡ false
      → (is_some (nick_of s a) ≡ true) × (eqb addr a ≡ false)
  was_member channel members a h k r = elim (Option-cases (Dict.get s.channels channel)) [
    | inl e ↦
        cc (Dict.get-map_values (λ _ (ms : List Addr). set_remove ms addr) s.channels channel, e, h)
    | inr (old, e) ↦
        let f : set_remove old addr ≡ members = ground (
          arith,
          Dict.get-map_values (λ _ (ms : List Addr). set_remove ms addr) s.channels channel,
        ) in
        let k' : contains (set_remove old addr) a ≡ true = rw f k in
        ground (arith, v.members_named channel old a e, contains-set_remove old addr a, k', r)
  ]

  quit-IsValid :
      (nick : Text)
      → IsValid returned (quit (record s { clients = Dict.remove s.clients addr }) addr nick).0
  unfolding quit
  quit-IsValid nick = record {
    members_named = λ channel members a h k r.
        let (named, other) = was_member channel members a h k r in
        ground (arith, named, other, Dict.get-remove s.clients addr a);
    authed_keyed =
        λ a h. ground (arith, v.authed_keyed a, Dict.get-remove s.clients addr a, eqb_iff addr a);
  }

  -- The end of a connection keeps it.
  pub close-IsValid : IsValid returned (close s addr).0
  unfolding close
  close-IsValid = elim (Option-cases (Dict.get s.clients addr)) [
    | inl e ↦ rw e v
    | inr (client, e) ↦ elim (Option-cases client.nick) [
      | inl n ↦ rw e (rw (n, cleanup) (removed-IsValid client e n))
      | inr (nick, n) ↦ rw e (rw (n, cleanup) (quit-IsValid nick))
    ]
  ]
