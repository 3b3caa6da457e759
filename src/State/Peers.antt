-- ===== src/State/Peers.antt =====
-- The table of peers: entries stand under their own nick, and roles.
use mathlib.Core.Path.{subst}
use voirc.Base.{
  ℕ, ◌-◌, ◌≡◌, refl, Bool, none, some, [], ◌∷◌, Text, eqb, text_eq, eqb_iff, contains, eqb_refl,
  Option-cases, arith, Bool-cases, inl, inr, ltb, if◌then◌else◌,
}
use voirc.Dict
use voirc.Dict.{Dict, Every, HasUniqueKeys, dict_laws}
use voirc.Config.{ConnState, connecting, nat_issue, Role, is_superpeer}
use voirc.State.{
  PeerState, AppState, update_peer_state, set_peer_connecting, set_peer_conn_state, set_peer_role,
  fresh_peer, in_state, get_peer_role, superpeer_nicks, all_superpeers, refresh_peer,
  refresh_speaking, remove_peer, existing_role, existing_conn_state, mark_speaking, connect_timeout,
  speaking_window,
}

-- Each nick has one entry, and the entry names that nick.
pub record IsKeyed (s : AppState) : Type 0 where
  pub unique : HasUniqueKeys s.peer_states
  pub named : Every (λ k (ps : PeerState). ps.nickname ≡ k) s.peer_states

superpeer_nicks-contains :
    (m : Dict Text PeerState) (n : Text)
    → HasUniqueKeys m
    → Every (λ k (ps : PeerState). ps.nickname ≡ k) m
    → contains (superpeer_nicks m) n ≡ is_superpeer (existing_role (Dict.get m n))
unfolding superpeer_nicks contains Dict.get is_superpeer
superpeer_nicks-contains [] n u h = refl
superpeer_nicks-contains ((k, ps) ∷ m) n u h =
    let ih = superpeer_nicks-contains m n u.1 h.1 in
    elim (Bool-cases (eqb k n)) [
      | inl same ↦
          let e : k ≡ n = (eqb_iff k n).0 same in
          let f : Dict.get m n ≡ none = subst (λ (x : Text). Dict.get m x ≡ none) e u.0 in
          ground (arith, ih, e, f, h.0, eqb_iff ps.nickname n)
      | inr other ↦ ground (arith, ih, h.0, eqb_iff ps.nickname n, eqb_iff k n)
    ]

-- In a keyed state, `all_superpeers` lists exactly the nicks whose role is that of a superpeer.
pub contains-all_superpeers :
    (s : AppState) (n : Text)
    → IsKeyed s
    → contains (all_superpeers s) n ≡ is_superpeer (get_peer_role s n)
unfolding all_superpeers get_peer_role
contains-all_superpeers s n h = superpeer_nicks-contains s.peer_states n h.unique h.named

-- One entry is written under its own nick.
insert-IsKeyed :
    (s : AppState) (n : Text) (ps : PeerState)
    → IsKeyed s
    → ps.nickname ≡ n
    → IsKeyed (record s { peer_states = Dict.insert s.peer_states n ps })
insert-IsKeyed s n ps h e = record {
  unique = Dict.insert-HasUniqueKeys s.peer_states n ps h.unique;
  named = Dict.Every-insert (λ k (q : PeerState). q.nickname ≡ k) s.peer_states n ps h.named e;
}

module _ (s : AppState) (h : IsKeyed s) where
  nickname-get : (n : Text) (ps : PeerState) → Dict.get s.peer_states n ≡ some ps → ps.nickname ≡ n
  nickname-get n ps e =
      Dict.Every-get (λ k (q : PeerState). q.nickname ≡ k) s.peer_states n ps h.named e

  nickname-or_fresh :
      (n : Text) → (Dict.or_else (Dict.get s.peer_states n) (fresh_peer n)).nickname ≡ n
  nickname-or_fresh n = elim (Option-cases (Dict.get s.peer_states n)) [
    | inl e ↦ rw e
    | inr (ps, e) ↦ rw e (nickname-get n ps e)
  ]

  pub update_peer_state-IsKeyed :
      (n : Text) (c : Bool) (sp : Bool) → IsKeyed (update_peer_state s n c sp)
  unfolding update_peer_state
  update_peer_state-IsKeyed n c sp = insert-IsKeyed s n _ h refl

  pub set_peer_connecting-IsKeyed : (n : Text) (now : ℕ) → IsKeyed (set_peer_connecting s n now)
  unfolding set_peer_connecting
  set_peer_connecting-IsKeyed n now = insert-IsKeyed s n _ h (nickname-or_fresh n)

  pub set_peer_role-IsKeyed : (n : Text) (r : Role) → IsKeyed (set_peer_role s n r)
  unfolding set_peer_role
  set_peer_role-IsKeyed n r = insert-IsKeyed s n _ h (nickname-or_fresh n)

  pub set_peer_conn_state-IsKeyed : (n : Text) (c : ConnState) → IsKeyed (set_peer_conn_state s n c)
  unfolding set_peer_conn_state
  set_peer_conn_state-IsKeyed n c = elim (Option-cases (Dict.get s.peer_states n)) [
    | inl e ↦ rw (e, set_peer_conn_state) h
    | inr (ps, e) ↦
        rw (e, set_peer_conn_state) (insert-IsKeyed s n (in_state ps c) h (nickname-get n ps e))
  ]

  pub refresh_speaking-IsKeyed :
      (now : ℕ) (clock : Text → ℕ) → IsKeyed (refresh_speaking s now clock)
  unfolding refresh_speaking refresh_peer
  refresh_speaking-IsKeyed now clock = record {
    unique = Dict.map_values-HasUniqueKeys (refresh_peer s now clock) s.peer_states h.unique;
    named =
        Dict.Every-map_values (λ k (q : PeerState). q.nickname ≡ k) (refresh_peer s now clock)
          s.peer_states (λ k v e. e) h.named;
  }

  pub remove_peer-IsKeyed : (n : Text) → IsKeyed (remove_peer s n)
  unfolding remove_peer
  remove_peer-IsKeyed n = record {
    unique = Dict.remove-HasUniqueKeys s.peer_states n h.unique;
    named = Dict.Every-remove (λ k (q : PeerState). q.nickname ≡ k) s.peer_states n h.named;
  }

-- A peer that began to connect at `t` is still connecting at the next refresh, and has a NAT issue
-- instead exactly where more than ten seconds have gone by.
pub refresh_speaking-set_peer_connecting :
    (s : AppState) (n : Text) (t now : ℕ) (clock : Text → ℕ)
    → existing_conn_state
        (Dict.get (refresh_speaking (set_peer_connecting s n t) now clock).peer_states n)
      ≡ (if ltb connect_timeout (now - t) then nat_issue else connecting)
unfolding refresh_speaking refresh_peer set_peer_connecting
refresh_speaking-set_peer_connecting s n t now clock = simp (dict_laws, eqb_refl) (ground arith)

-- After audio from a peer at `t`, the refresh marks its entry as speaking exactly where less than
-- 400 ms have gone by; entries of other peers are marked as they would be without it.
pub refresh_speaking-mark_speaking :
    (s : AppState) (n k : Text) (t now : ℕ) (clock : Text → ℕ) (ps : PeerState)
    → Dict.get s.peer_states k ≡ some ps
    → Dict.mapped
        (λ (q : PeerState). q.speaking)
        (Dict.get (refresh_speaking (mark_speaking s n t) now clock).peer_states k)
      ≡ some (
          if eqb n k
          then ltb (clock k - t) speaking_window
          else (refresh_peer s now clock k ps).speaking)
unfolding refresh_speaking refresh_peer mark_speaking
refresh_speaking-mark_speaking s n k t now clock ps h = simp (dict_laws, h) (ground arith)
