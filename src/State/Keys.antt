-- ===== src/State/Keys.antt =====
-- The keys known for nicks, and what is forgotten with a peer.
use voirc.Base.{
  ◌≡◌, ◌≢◌, true, false, some, Text, text_eq, eqb_iff, eqb_refl, arith, Option-cases, inl, inr,
}
use voirc.Dict
use voirc.Dict.{Dict, dict_laws, is_some}
use voirc.State.{AppState, register_peer_pubkey, pubkey_for_nick}

-- Where registering a key for a nick succeeds, the key is known afterwards; it fails only where
-- another key is known, and then changes nothing; what is known for other nicks stays.
pub register_peer_pubkey_lem :
    (s : AppState) (n k m : Text)
    → ((register_peer_pubkey s n k).1 ≡ true
        → pubkey_for_nick (register_peer_pubkey s n k).0 n ≡ some k)
      × ((register_peer_pubkey s n k).1 ≡ false
          → (j : Text) × (pubkey_for_nick s n ≡ some j)
            × (j ≢ k)
            × ((register_peer_pubkey s n k).0 ≡ s))
      × (m ≢ n → pubkey_for_nick (register_peer_pubkey s n k).0 m ≡ pubkey_for_nick s m)
unfolding register_peer_pubkey pubkey_for_nick
register_peer_pubkey_lem s n k m = elim (Option-cases (Dict.get s.known_pubkeys n)) [
  | inl e ↦ ground (
    arith,
    e,
    Dict.get-insert s.known_pubkeys n k n,
    Dict.get-insert s.known_pubkeys n k m,
    eqb_iff n m,
    eqb_refl n,
  )
  | inr (j, e) ↦ ground (
    arith,
    e,
    Dict.get-insert s.known_pubkeys n k n,
    Dict.get-insert s.known_pubkeys n k m,
    eqb_iff n m,
    eqb_refl n,
    eqb_iff j k,
  )
]

-- A known key is kept by any registration.
pub register_peer_pubkey_stable :
    (s : AppState) (n k m j : Text)
    → pubkey_for_nick s m ≡ some j
    → pubkey_for_nick (register_peer_pubkey s n k).0 m ≡ some j
unfolding register_peer_pubkey pubkey_for_nick
register_peer_pubkey_stable s n k m j h =
    ground (arith, Dict.get-insert s.known_pubkeys n k m, eqb_iff n m, eqb_iff j k)
