-- ===== src/Session/Initiator.antt =====
-- Who calls whom: `our_nickname < nick` in src/gui.rs compares the bytes of two nicks.
use voirc.Base.{
  ap, ◌∙◌, ◌⊎◌, false, ℕ, ◌≡◌, ◌≢◌, ◌⊎◌, ◌∙◌, ap, if◌then◌else◌, inl, inr, refl, true, not,
  Bool-cases, List, [], ◌∷◌, Text, ◌==◌, arith,
}
use voirc.Strings.{as_bytes}
use voirc.Strings.Utf8.{AreScalars, as_bytes-injective}
use voirc.Session.{lit, World, Session}
use voirc.Session.Connections.{
  bytes_lt, text_lt, should_connect, connecting_to, place_call, maybe_create_peer,
}

eqb_cons : (a b : ℕ) (s t : List ℕ) → (a == b) ≡ true → s ≡ t → a ∷ s ≡ b ∷ t
eqb_cons a b s t e f = ground arith

-- Of two lists that differ, exactly one stands before the other.
bytes_lt-not : (s t : List ℕ) → s ≢ t → bytes_lt s t ≡ not (bytes_lt t s)
unfolding bytes_lt
bytes_lt-not [] [] n = absurd (n refl)
bytes_lt-not [] (b ∷ t) n = refl
bytes_lt-not (a ∷ s) [] n = refl
bytes_lt-not (a ∷ s) (b ∷ t) n = elim (Bool-cases (a == b)) [
  | inl e ↦ let rest = bytes_lt-not s t (λ f. n (eqb_cons a b s t e f)) in ground arith
  | inr e ↦ ground arith
]

-- Of two different nicks of Unicode code points exactly one is below the other by `text_lt`, the test
-- by which a side decides whether it calls.
pub text_lt-not :
    (a b : Text) → AreScalars a → AreScalars b → a ≢ b → text_lt a b ≡ not (text_lt b a)
unfolding text_lt
text_lt-not a b h k n =
    bytes_lt-not (as_bytes a) (as_bytes b) (λ e. n (as_bytes-injective a b h k e))

module _ (w : World) (s : Session) (nick : Text) where
  -- What a side does that is to connect: it places the call, where the topology wants one.
  abbrev pub placed : Session
  placed =
      if should_connect w s nick
      then place_call w (connecting_to w s nick) nick (lit "-> Calling ") (w.calling nick)
      else s

  maybe_create_peer-lower : text_lt w.nickname nick ≡ true → maybe_create_peer w s nick ≡ placed
  unfolding maybe_create_peer
  maybe_create_peer-lower e = elim (Bool-cases (should_connect w s nick)) [
    | inl h ↦ rw (h, e) refl
    | inr h ↦ rw h refl
  ]

  maybe_create_peer-higher : text_lt w.nickname nick ≡ false → maybe_create_peer w s nick ≡ s
  unfolding maybe_create_peer
  maybe_create_peer-higher e = elim (Bool-cases (should_connect w s nick)) [
    | inl h ↦ rw (h, e) refl
    | inr h ↦ rw h refl
  ]

-- Of two clients with different nicks of Unicode code points that learn of each other, one places the
-- call where the topology wants one, and the other does nothing.
pub one_caller :
    (w v : World) (s t : Session)
    → AreScalars w.nickname
    → AreScalars v.nickname
    → w.nickname ≢ v.nickname
    → ((maybe_create_peer w s v.nickname ≡ placed w s v.nickname)
        × (maybe_create_peer v t w.nickname ≡ t))
      ⊎ ((maybe_create_peer w s v.nickname ≡ s)
          × (maybe_create_peer v t w.nickname ≡ placed v t w.nickname))
one_caller w v s t hw hv ne =
    let other = text_lt-not w.nickname v.nickname hw hv ne in
    elim (Bool-cases (text_lt v.nickname w.nickname)) [
      | inl e ↦ inr (
        maybe_create_peer-higher w s v.nickname (other ∙ ap not e),
        maybe_create_peer-lower v t w.nickname e,
      )
      | inr e ↦ inl (
        maybe_create_peer-lower w s v.nickname (other ∙ ap not e),
        maybe_create_peer-higher v t w.nickname e,
      )
    ]
