-- ===== src/Server/Run.antt =====
-- The states that the server can reach, and what holds in all of them.
use voirc.Base.{
  ℕ, ◌≤◌, ◌≡◌, refl, none, some, Text, text_eq, arith, Bool-cases, inl, inr, Option-cases, List, [],
  true, false, eqb_refl,
}
use voirc.Dict
use voirc.Crypto.{Crypto}
use voirc.Dict.{is_some}
use voirc.Server.{Client, Addr, addr_eq, ServerState, new, leave}
use voirc.Server.Auth.{mark_authenticated}
use voirc.Server.Commands.{set_nick}
use voirc.Server.Connection.{accepts, connect, arrive, handle_line, close, cleanup, quit, fail}
use voirc.Server.Changes.{
  IsProved, Change, same, renamed, claimed, pow_set, entered, kicked, parted, handle_line-Change,
}
use voirc.Server.Members.{IsValid, returning, Change-IsValid, arrive-IsValid, close-IsValid}
use voirc.Server.Bindings.{Change-keys, KeysChange-sound, close-keys}

-- A run of a server that began with the difficulty `bits`, and the addresses that were accepted while
-- the server had an entry for them, as it has after a read error.
pub data Reach (c : Crypto) (bits : ℕ) : List Addr → ServerState → Type 0 where
  start : Reach c bits [] (new bits)
  arrival :
      {returned : List Addr} {s t : ServerState}
      → Reach c bits returned s
      → (addr : Addr) → t ≡ arrive s addr
      → Reach c bits (returning s addr returned) t
  line :
      {returned : List Addr} {s t : ServerState}
      → Reach c bits returned s
      → (addr : Addr) (text : Text) → t ≡ (handle_line c s addr text).0
      → Reach c bits returned t
  closed :
      {returned : List Addr} {s t : ServerState}
      → Reach c bits returned s
      → (addr : Addr) → t ≡ (close s addr).0
      → Reach c bits returned t
  failed :
      {returned : List Addr} {s t : ServerState}
      → Reach c bits returned s
      → (addr : Addr) → t ≡ fail s addr
      → Reach c bits returned t

-- What holds before and after a connection holds after an arrival, accepted or not.
pub arrive_keeps :
    (P : ServerState → Type 0) (s : ServerState) (a : Addr) → P s → P (connect s a) → P (arrive s a)
unfolding arrive
arrive_keeps P s a h k = elim (Bool-cases (accepts s a)) [
  | inl e ↦ rw (e, arrive) k
  | inr e ↦ rw (e, arrive) h
]

-- A property that holds at the start, and that each event keeps, holds in every run.
module _ (c : Crypto) (bits : ℕ) (P : List Addr → ServerState → Type 0) where
  pub Reach_induction :
      P [] (new bits)
      → ((returned : List Addr) (s : ServerState) (a : Addr)
          → P returned s
          → P (returning s a returned) (arrive s a))
      → ((returned : List Addr) (s : ServerState) (a : Addr) (t : ServerState)
          → Change c s a t
          → P returned s
          → P returned t)
      → ((returned : List Addr) (s : ServerState) (a : Addr)
          → P returned s
          → P returned (close s a).0)
      → {returned : List Addr} {s : ServerState} → Reach c bits returned s
      → P returned s
  Reach_induction init conn chg cls start = init
  Reach_induction init conn chg cls (arrival {returned = o} {s = s} r addr e) =
      rw e (conn o s addr (Reach_induction init conn chg cls r))
  Reach_induction init conn chg cls (line {returned = o} {s = s} r addr text e) =
      rw e (chg o s addr _ (handle_line-Change c s addr text) (Reach_induction init conn chg cls r))
  Reach_induction init conn chg cls (closed {returned = o} {s = s} r addr e) =
      rw e (cls o s addr (Reach_induction init conn chg cls r))
  Reach_induction init conn chg cls (failed r addr e) = rw e (Reach_induction init conn chg cls r)

-- In every run, whoever is in a channel is connected and has a nick, unless its address was accepted
-- while the server still had an entry for it, and whoever is authenticated has a key.
pub Reach-IsValid :
    (c : Crypto) (bits : ℕ) {returned : List Addr} {s : ServerState}
    → Reach c bits returned s
    → IsValid returned s
Reach-IsValid c bits r =
    Reach_induction c bits IsValid
      (record {
        members_named = λ ch ms a h k n. unfold Dict.get in cc h;
        authed_keyed = λ a h. unfold Dict.get in cc h;
      })
      arrive-IsValid (Change-IsValid c) (λ returned s a v. close-IsValid returned s a v) r

-- After a read error, a new connection from the same address that is accepted, and its orderly end, the
-- server has no client at the address, and every channel has the members it had, the address too
-- where it was one.
pub ghost_member :
    (s : ServerState) (a : Addr)
    → accepts s a ≡ true
    → let after = (close (arrive (fail s a) a) a).0 in
      (Dict.get after.clients a ≡ none) × (after.channels ≡ s.channels)
unfolding arrive connect close
ghost_member s a ok =
    let fresh_client : Client = record {
      nick = none;
      pubkey = none;
      authenticated = false;
      ip = a.ip;
    } in
    let clients' = Dict.insert s.clients a fresh_client in
    rw ok (
      rw (Dict.get-insert s.clients a fresh_client a, eqb_refl a, cleanup)
        (ground (arith, Dict.get-remove clients' a a, eqb_refl a), refl))

pub Change-bits :
    {c : Crypto} (s : ServerState) (addr : Addr) (t : ServerState)
    → Change c s addr t
    → s.pow_required_bits ≤ 28
    → t.pow_required_bits ≤ 28
unfolding set_nick mark_authenticated leave
Change-bits s addr t (same e) h = rw e h
Change-bits s addr t (renamed nick g e) h = rw e (ground arith)
Change-bits s addr t (claimed nick pubkey p n d o e) h = rw e (ground arith)
Change-bits s addr t (pow_set bits le a e) h = rw e le
Change-bits s addr t (entered channel n e) h = rw e h
Change-bits s addr t (kicked channel target_nick target a f e) h = rw e (ground arith)
Change-bits s addr t (parted channel e) h = rw e (ground arith)

pub close-bits :
    (s : ServerState) (a : Addr) → (close s a).0.pow_required_bits ≡ s.pow_required_bits
unfolding close
close-bits s a = elim (Option-cases (Dict.get s.clients a)) [
  | inl e ↦ rw e refl
  | inr (client, e) ↦ elim (Option-cases client.nick) [
    | inl n ↦ rw e (rw (n, cleanup) refl)
    | inr (nick, n) ↦ rw e (rw (n, cleanup) (unfold quit in refl))
  ]
]

-- A server that begins with a difficulty of at most 28 bits never requires more.
pub Reach-bits :
    (c : Crypto) (bits : ℕ) {returned : List Addr} {s : ServerState}
    → bits ≤ 28
    → Reach c bits returned s
    → s.pow_required_bits ≤ 28
Reach-bits c bits le r =
    Reach_induction c bits (λ _ s. s.pow_required_bits ≤ 28) le
      (λ _ s a h. arrive_keeps (λ t. t.pow_required_bits ≤ 28) s a h (unfold connect in h))
      (λ _ s a t. Change-bits s a t) (λ _ s a h. rw close-bits h) r

abbrev pub AllProved : Crypto → ServerState → Type 0
AllProved c s =
    (nick pubkey : Text) → Dict.get s.nick_pubkeys nick ≡ some pubkey → IsProved c nick pubkey

pub Change-AllProved :
    (c : Crypto) (s : ServerState) (addr : Addr) (t : ServerState)
    → Change c s addr t
    → AllProved c s
    → AllProved c t
Change-AllProved c s addr t ch h nick pubkey g =
    elim (KeysChange-sound c s addr (Change-keys c s addr t ch) nick pubkey g) [
      | inl old ↦ h nick pubkey old
      | inr new ↦ new.0
    ]

pub close-AllProved :
    (c : Crypto) (s : ServerState) (a : Addr) → AllProved c s → AllProved c (close s a).0
close-AllProved c s a h nick pubkey g = h nick pubkey (ground (arith, close-keys s a nick, g))

-- In every run, a nick is bound only to a key that has signed it.
pub Reach-IsProved :
    (c : Crypto) (bits : ℕ) {returned : List Addr} {s : ServerState} (nick pubkey : Text)
    → Reach c bits returned s
    → Dict.get s.nick_pubkeys nick ≡ some pubkey
    → IsProved c nick pubkey
Reach-IsProved c bits nick pubkey r =
    Reach_induction c bits (λ _ s. AllProved c s) (λ n k h. unfold Dict.get in cc h)
      (λ _ s a h. arrive_keeps (AllProved c) s a h (unfold connect in h))
      (λ _ s a t. Change-AllProved c s a t) (λ _ s a h. close-AllProved c s a h) r nick pubkey
