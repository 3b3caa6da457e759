-- ===== src/Server/Races.antt =====
-- What the order of the tasks of src/irc_server.rs decides, and what it does not.
use voirc.Base.{
  ℕ, ◌≡◌, ◌≤◌, refl, true, false, none, some, List, [], ◌∷◌, Text, text_eq, eqb, eqb_iff, eqb_refl,
  arith, Option-cases, inl, inr,
}
use voirc.Dict
use voirc.Dict.{Dict, is_some}
use voirc.Crypto.{Crypto}
use voirc.Pow.{check_difficulty}
use voirc.Server.{Addr, addr_eq, Client, ServerState, is_other, is_authed, try_bind_nick_pubkey}
use voirc.Server.Auth.{bind_hello, mark_authenticated, authenticate}
use voirc.Server.Changes.{IsProved, bind}
use voirc.Server.Sections.{
  check_work, bind_key, write_bits, run_section, Concurrent, Move, advance, step, take_lock,
  set_next, run, begun,
}
use voirc.Server.Safety.{run-IsSafe}

-- However the tasks of the clients are interleaved between the locks that they take, a nick is bound
-- only to a key that has signed it, and a server that begins with a difficulty of at most 28 bits
-- never requires more.
pub interleaving_sound :
    (c : Crypto) (bits : ℕ) (moves : List Move)
    → bits ≤ 28
    → ((nick pubkey : Text)
        → Dict.get (run c (begun bits) moves).server.nick_pubkeys nick ≡ some pubkey
        → IsProved c nick pubkey)
      × ((run c (begun bits) moves).server.pow_required_bits ≤ 28)
interleaving_sound c bits moves le =
    let safe = run-IsSafe c bits moves le in (safe.proved, safe.low)

bind_hello-free :
    (c : Crypto) (s : ServerState) (addr : Addr) (nick pubkey : Text)
    → is_other (Dict.get s.nick_pubkeys nick) pubkey ≡ false
    → (bind_hello c s addr nick pubkey).0 ≡ bind s addr nick pubkey
unfolding bind_hello try_bind_nick_pubkey
bind_hello-free c s addr nick pubkey free = rw free refl

bind-authenticates :
    (s : ServerState) (addr : Addr) (nick pubkey : Text)
    → is_some (Dict.get s.clients addr) ≡ true
    → (is_authed (bind s addr nick pubkey) addr ≡ true)
      × ((bind s addr nick pubkey).pow_required_bits ≡ s.pow_required_bits)
unfolding mark_authenticated
bind-authenticates s addr nick pubkey there = elim (Option-cases (Dict.get s.clients addr)) [
  | inl e ↦ let there' : is_some {A = Client} none ≡ true = rw e at there in cc there'
  | inr (client, e) ↦
      rw (e, mark_authenticated)
        (
          ground (
            arith,
            Dict.get-insert s.clients addr (authenticate pubkey client) addr,
            eqb_refl addr,
          ),
          refl,
        )
]

module _ (c : Crypto) (s : Concurrent) (a b : Addr) (nick pubkey : Text) (bits : ℕ) where
  abbrev checked_state : Concurrent
  checked_state = record s { pending = Dict.insert s.pending a (bind_key nick pubkey) }

  abbrev raised_state : Concurrent
  raised_state = record {
    server = record s.server { pow_required_bits = bits };
    pending = Dict.remove checked_state.pending b;
  }

  abbrev bound_state : Concurrent
  bound_state = record {
    server = (bind_hello c raised_state.server a nick pubkey).0;
    pending = Dict.remove raised_state.pending a;
  }

  checked_lem :
      Dict.get s.pending a ≡ some (check_work nick pubkey)
      → check_difficulty c.sha256 nick pubkey s.server.pow_required_bits ≡ true
      → step c s (advance a) ≡ checked_state
  unfolding step take_lock run_section set_next
  checked_lem ha work = rw ha (rw work refl)

  raised_lem :
      eqb a b ≡ false
      → Dict.get s.pending b ≡ some (write_bits bits)
      → step c checked_state (advance b) ≡ raised_state
  unfolding step take_lock run_section set_next
  raised_lem other hb =
      let hb' : Dict.get checked_state.pending b ≡ some (write_bits bits) =
        ground (arith, Dict.get-insert s.pending a (bind_key nick pubkey) b, other, hb) in
      rw hb' refl

  bound_lem : eqb a b ≡ false → step c raised_state (advance a) ≡ bound_state
  unfolding step take_lock run_section set_next
  bound_lem other =
      let ha : Dict.get raised_state.pending a ≡ some (bind_key nick pubkey) = ground (
        arith,
        Dict.get-remove checked_state.pending b a,
        Dict.get-insert s.pending a (bind_key nick pubkey) a,
        eqb_refl a,
        eqb_iff b a,
        eqb_iff a b,
        other,
      ) in
      rw ha refl

  -- Between the check of a client's work and its binding, another client that is authenticated can
  -- raise the requirement: whatever the new requirement is, the first client is then authenticated.
  pub stale_work :
      eqb a b ≡ false
      → Dict.get s.pending a ≡ some (check_work nick pubkey)
      → Dict.get s.pending b ≡ some (write_bits bits)
      → check_difficulty c.sha256 nick pubkey s.server.pow_required_bits ≡ true
      → is_other (Dict.get s.server.nick_pubkeys nick) pubkey ≡ false
      → is_some (Dict.get s.server.clients a) ≡ true
      → (is_authed (run c s (advance a ∷ advance b ∷ advance a ∷ [])).server a ≡ true)
        × ((run c s (advance a ∷ advance b ∷ advance a ∷ [])).server.pow_required_bits ≡ bits)
  unfolding run
  stale_work other ha hb work free there =
      rw
        (
          checked_lem ha work,
          raised_lem other hb,
          bound_lem other,
          bind_hello-free c raised_state.server a nick pubkey free,
        )
        (bind-authenticates raised_state.server a nick pubkey there)
