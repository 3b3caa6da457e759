-- ===== src/Topology.antt =====
-- src/topology.rs: whom a peer connects to for audio.
use voirc.Base.{
  ◌∙◌, Bool-cases, sym, ◌≡◌, refl, ◌↔◌, ◌⊎◌, inl, inr, Bool, true, false, not, ◌&&◌, List, [], ◌∷◌,
  Text, text_eq, eqb_refl, contains, if◌then◌else◌, arith,
}
use voirc.Config.{Role, host, moderator, peer, is_superpeer}
use voirc.State.{AppState, new, all_superpeers, get_peer_role}
use voirc.State.Run.{Call, run, all_superpeers-run}

abbrev pub is_empty {ℓ} : {A : Type ℓ} → List A → Bool
is_empty [] = true
is_empty (x ∷ xs) = false

unfoldable pub should_connect_to : AppState → Text → Role → Text → Role → Bool
should_connect_to s our_nick our_role target_nick target_role =
    if is_superpeer our_role && is_superpeer target_role
    then true
    else if not (is_superpeer our_role) && is_superpeer target_role
    then true
    else if is_superpeer our_role && not (is_superpeer target_role)
    then true
    else if is_empty (all_superpeers s)
    then true
    else false

-- Both ends of a possible connection decide alike.
pub should_connect_to_symm :
    (s : AppState) (a b : Text) (r t : Role)
    → should_connect_to s a r b t ≡ should_connect_to s b t a r
unfolding should_connect_to is_superpeer
should_connect_to_symm s a b host t = ground arith
should_connect_to_symm s a b moderator t = ground arith
should_connect_to_symm s a b peer t = ground arith

contains-head : (x : Text) (xs : List Text) → contains (x ∷ xs) x ≡ true
unfolding contains
contains-head x xs = ground (arith, eqb_refl x)

some_member : (xs : List Text) → is_empty xs ≡ false → (n : Text) × (contains xs n ≡ true)
some_member [] h = cc
some_member (x ∷ xs) h = (x, contains-head x xs)

no_member : (xs : List Text) (n : Text) → is_empty xs ≡ true → contains xs n ≡ false
unfolding contains
no_member [] n h = refl
no_member (x ∷ xs) n h = cc

-- A direct connection is refused only between two regular peers.
refused_roles :
    (s : AppState) (a b : Text) (r t : Role)
    → should_connect_to s a r b t ≡ false
    → (r ≡ peer) × (t ≡ peer) × (is_empty (all_superpeers s) ≡ false)
unfolding should_connect_to is_superpeer
refused_roles s a b host t h = ground arith
refused_roles s a b moderator t h = ground arith
refused_roles s a b peer t h = ground arith

refused_of :
    (s : AppState) (a b : Text) (r t : Role)
    → r ≡ peer
    → t ≡ peer
    → (n : Text) → contains (all_superpeers s) n ≡ true
    → should_connect_to s a r b t ≡ false
unfolding should_connect_to is_superpeer
refused_of s a b r t er et n m = elim (Bool-cases (is_empty (all_superpeers s))) [
  | inl e ↦ cc (no_member (all_superpeers s) n e)
  | inr e ↦ rw (er, et, e)
]

-- After any calls on a new state, a direct connection is refused exactly where both sides are
-- regular peers and some nick is known as a superpeer.
pub should_connect_to-eq_false :
    (calls : List Call) (a b : Text) (r t : Role)
    → (should_connect_to (run new calls) a r b t ≡ false) ↔ (
        (r ≡ peer)
        × (t ≡ peer)
        × ((n : Text) × (is_superpeer (get_peer_role (run new calls) n) ≡ true)))
should_connect_to-eq_false calls a b r t = (
  λ h.
      let (er, et, e) = refused_roles (run new calls) a b r t h in
      let (n, m) = some_member (all_superpeers (run new calls)) e in
      (er, et, (n, sym (all_superpeers-run calls n) ∙ m)),
  λ (er, et, (n, m)). refused_of (run new calls) a b r t er et n (all_superpeers-run calls n ∙ m),
)

-- Two members of a room connect directly, or both connect to any given superpeer.
pub two_hops :
    (s : AppState) (a b x : Text) (r t p : Role)
    → is_superpeer p ≡ true
    → (should_connect_to s a r b t ≡ true)
      ⊎ ((should_connect_to s a r x p ≡ true) × (should_connect_to s x p b t ≡ true))
unfolding should_connect_to is_superpeer
two_hops s a b x r t p h = ground arith
