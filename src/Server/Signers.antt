-- ===== src/Server/Signers.antt =====
-- Who is authenticated where the tasks of src/irc_server.rs interleave.
use voirc.Base.{
  ℕ, ◌≡◌, ◌≤◌, refl, Bool, true, false, Option, none, some, List, Text, text_eq, eqb_refl, arith,
  Option-cases, inl, inr, if◌then◌else◌,
}
use voirc.Dict
use voirc.Dict.{Dict, is_some}
use voirc.Crypto.{Crypto}
use voirc.Server.{Addr, addr_eq, ServerState, nick_of, pubkey_of, is_authed}
use voirc.Server.Auth.{is_nick}
use voirc.Server.Connection.{arrive, connect, close, cleanup, quit}
use voirc.Server.Changes.{IsProved, bind, handle_line-Change, handle_control-Change, Change}
use voirc.Server.Run.{arrive_keeps}
use voirc.Server.Authentication.{authed-bind, bound_client, Change-authenticates, IsAuthenticated}
use voirc.Server.Sections.{
  Section, first_section, Concurrent, Move, line, control, advance, arrival, closed, step, is_busy,
  take_lock, begin_control, run, begun,
}
use voirc.Server.Claims.{Effect, kept, bound, bits_set, run_section-IsSound}
use voirc.Server.Safety.{IsSafe, run-IsSafe}

-- The key of the client at `a`, by which its nick is signed.
pub record IsSigned (c : Crypto) (a : Addr) (t : ServerState) : Type 0 where
  pub nick : Text
  pub pubkey : Text
  pub proof : IsProved c nick pubkey
  pub nick_eq : nick_of t a ≡ some nick
  pub pubkey_eq : pubkey_of t a ≡ some pubkey
  pub binding_eq : Dict.get t.nick_pubkeys nick ≡ some pubkey

module _ (c : Crypto) (a : Addr) where
  signed : (s t : ServerState) → IsAuthenticated c s a t → IsSigned c a t
  signed s t h = record {
    nick = h.nick;
    pubkey = h.pubkey;
    proof = h.proof;
    nick_eq = h.nick_eq;
    pubkey_eq = h.pubkey_eq;
    binding_eq = h.binding_eq;
  }

  Effect-signed :
      (s : ServerState) (addr : Addr) (t : ServerState)
      → Effect c s addr t
      → is_authed s a ≡ false
      → is_authed t a ≡ true
      → IsSigned c a t
  Effect-signed s addr t (kept e) h k = let k' : is_authed s a ≡ true = rw e at k in cc (h, k')
  Effect-signed s addr t (bits_set bits le g e) h k =
      let k' : is_authed s a ≡ true = rw e at k in cc (h, k')
  Effect-signed s addr t (bound nick pubkey p n o e) h k =
      let k' : is_authed (bind s addr nick pubkey) a ≡ true = rw e at k in
      let same_addr : a ≡ addr = authed-bind s a addr nick pubkey h k' in
      let own : is_nick (nick_of s addr) nick ≡ true = rw n (eqb_refl nick) in
      let (en, ep, eb) = bound_client s addr nick pubkey own in
      rw (same_addr, e)
        (record {
          nick = nick;
          pubkey = pubkey;
          proof = p;
          nick_eq = en;
          pubkey_eq = ep;
          binding_eq = eb;
        })

  arrive-unauthenticated :
      (s : ServerState) (addr : Addr) → is_authed s a ≡ false → is_authed (arrive s addr) a ≡ false
  arrive-unauthenticated s addr h =
      arrive_keeps (λ t. is_authed t a ≡ false) s addr h
        (unfold connect in
          ground (
            arith,
            Dict.get-insert s.clients addr
                (record { nick = none; pubkey = none; authenticated = false; ip = addr.ip }) a,
            h,
          ))

  close-unauthenticated :
      (s : ServerState) (addr : Addr) → is_authed s a ≡ false → is_authed (close s addr).0 a ≡ false
  unfolding close
  close-unauthenticated s addr h = elim (Option-cases (Dict.get s.clients addr)) [
    | inl e ↦ rw e h
    | inr (client, e) ↦ elim (Option-cases client.nick) [
      | inl n ↦ rw e (rw (n, cleanup) (ground (arith, Dict.get-remove s.clients addr a, h)))
      | inr (nick, n) ↦
          rw e
            (rw (n, cleanup) (unfold quit in ground (arith, Dict.get-remove s.clients addr a, h)))
    ]
  ]

  -- Whether `a` becomes authenticated on the way from `s` to `t`, it is signed there.
  abbrev Signs : ServerState → ServerState → Type 0
  Signs s t = is_authed s a ≡ false → is_authed t a ≡ true → IsSigned c a t

  same-Signs : (s : ServerState) → Signs s s
  same-Signs s h k = cc (h, k)

  Change-Signs : (s : ServerState) (addr : Addr) (t : ServerState) → Change c s addr t → Signs s t
  Change-Signs s addr t ch h k = signed s t (Change-authenticates c s addr t a ch h k).1

  take_lock-Signs :
      (s : Concurrent) (addr : Addr) (task : Option Section)
      → IsSafe c s
      → Dict.get s.pending addr ≡ task
      → Signs s.server (take_lock c s addr task).server
  unfolding take_lock
  take_lock-Signs s addr none safe e = same-Signs s.server
  take_lock-Signs s addr (some section) safe e =
      Effect-signed s.server addr _
        (run_section-IsSound c s.server addr section (safe.checked addr section e)).effect

  begin_control-Signs :
      (s : Concurrent) (addr : Addr) (text : Text) (task : Option Section)
      → Signs s.server (begin_control c s addr text task).server
  unfolding begin_control
  begin_control-Signs s addr text none =
      Change-Signs s.server addr _ (handle_control-Change c s.server addr text)
  begin_control-Signs s addr text (some section) = same-Signs s.server

  -- The choice between two states.
  Signs-if :
      (b : Bool) (s : ServerState) (t u : Concurrent)
      → Signs s t.server
      → Signs s u.server
      → Signs s (if b then t else u).server
  Signs-if true s t u h k = h
  Signs-if false s t u h k = k

  step-Signs : (s : Concurrent) (m : Move) → IsSafe c s → Signs s.server (step c s m).server
  unfolding step
  step-Signs s (line addr text) safe =
      Signs-if (is_busy s addr) s.server s _ (same-Signs s.server)
        (Change-Signs s.server addr _ (handle_line-Change c s.server addr text))
  step-Signs s (control addr text) safe =
      Signs-if (is_busy s addr) s.server s _ (same-Signs s.server)
        (begin_control-Signs s addr text (first_section c text))
  step-Signs s (advance addr) safe = take_lock-Signs s addr (Dict.get s.pending addr) safe refl
  step-Signs s (arrival addr) safe = Signs-if (is_busy s addr) s.server s _ (same-Signs s.server) (
      Signs-if (is_some (Dict.get s.server.clients addr)) s.server s _ (same-Signs s.server)
        (λ h k. let kept_out = arrive-unauthenticated s.server addr h in cc (kept_out, k)))
  step-Signs s (closed addr) safe =
      Signs-if (is_busy s addr) s.server s _ (same-Signs s.server)
        (λ h k. let kept_out = close-unauthenticated s.server addr h in cc (kept_out, k))

-- However the tasks of the clients are interleaved between the locks that they take, a client that
-- becomes authenticated has a nick and a key that has signed it, and the nick is bound to that key.
pub interleaved_authentication :
    (c : Crypto) (bits : ℕ) (moves : List Move) (m : Move) (a : Addr)
    → bits ≤ 28
    → is_authed (run c (begun bits) moves).server a ≡ false
    → is_authed (step c (run c (begun bits) moves) m).server a ≡ true
    → IsSigned c a (step c (run c (begun bits) moves) m).server
interleaved_authentication c bits moves m a le =
    step-Signs c a (run c (begun bits) moves) m (run-IsSafe c bits moves le)
