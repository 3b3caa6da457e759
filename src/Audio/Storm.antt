-- ===== src/Audio/Storm.antt =====
-- What becomes of a packet where more than two superpeers forward it, in src/gui.rs.
use voirc.Base.{
  ℕ, zero, suc, ◌≡◌, refl, Bool, true, false, ◌&&◌, ◌||◌, List, [], ◌∷◌, ◌++◌, Text, text_eq, eqb,
  eqb_iff, eqb_refl, keep, contains, arith, Bool-cases, inl, inr,
}
use voirc.Config.{is_superpeer}
use voirc.Topology.{should_connect_to, is_empty}
use voirc.Audio.{Room, Packet, packets, links, forward_to, arrive, hop, hops, speak, has}

pub contains-keep :
    (p : Text → Bool) (l : List Text) (n : Text) → contains (keep p l) n ≡ (contains l n && p n)
unfolding contains keep
contains-keep p [] n = refl
contains-keep p (x ∷ l) n = elim (Bool-cases (eqb x n)) [
  | inl e ↦ let same : x ≡ n = (eqb_iff x n).0 e in ground (arith, contains-keep p l n, same)
  | inr e ↦ ground (arith, contains-keep p l n, e)
]

pub has-append :
    (s r : Text) (ps qs : List Packet) → has s r (ps ++ qs) ≡ (has s r ps || has s r qs)
unfolding has
has-append s r [] qs = refl
has-append s r (p ∷ ps) qs = ground (arith, has-append s r ps qs)

pub has-packets : (s r : Text) (l : List Text) → has s r (packets s l) ≡ contains l r
unfolding has contains
has-packets s r [] = refl
has-packets s r (n ∷ l) = ground (arith, has-packets s r l, eqb_refl s)

module _ (room : Room) where
  pub contains-links :
      (a n : Text)
      → contains room.nodes n ≡ true
      → eqb n a ≡ false
      → is_superpeer (room.role a) ≡ true
      → contains (links room a) n ≡ true
  unfolding links should_connect_to
  contains-links a n there other super = rw contains-keep (ground (arith, there, other, super))

  has-arrive :
      (p : Packet) (n : Text)
      → is_superpeer (room.role p.receiver) ≡ true
      → contains (links room p.receiver) n ≡ true
      → eqb n p.sender ≡ false
      → has p.receiver n (arrive room p) ≡ true
  unfolding arrive forward_to
  has-arrive p n super link other =
      rw super (rw (has-packets, contains-keep) (ground (arith, link, other)))

  pub has-hop :
      (s r n : Text) (ps : List Packet)
      → has s r ps ≡ true
      → is_superpeer (room.role r) ≡ true
      → contains (links room r) n ≡ true
      → eqb n s ≡ false
      → has r n (hop room ps) ≡ true
  unfolding has hop
  has-hop s r n [] h super link other = ground (arith, h)
  has-hop s r n (p ∷ ps) h super link other =
      elim (Bool-cases (eqb p.sender s && eqb p.receiver r)) [
        | inr e ↦ rw has-append (ground (arith, has-hop s r n ps, h, e, super, link, other))
        | inl e ↦
            let es : s ≡ p.sender = ground (arith, eqb_iff p.sender s, e) in
            let er : r ≡ p.receiver = ground (arith, eqb_iff p.receiver r, e) in
            let first : has r n (arrive room p) ≡ true =
              rw er (has-arrive p n (rw (← er) super) (rw (← er) link) (rw (← es) other)) in
            rw has-append (ground (arith, first))
      ]

  -- Three superpeers that are all in the room.
  pub record IsTriangle (a b c : Text) : Type 0 where
    pub a_there : contains room.nodes a ≡ true
    pub b_there : contains room.nodes b ≡ true
    pub c_there : contains room.nodes c ≡ true
    pub a_super : is_superpeer (room.role a) ≡ true
    pub b_super : is_superpeer (room.role b) ≡ true
    pub c_super : is_superpeer (room.role c) ≡ true
    pub ab : eqb a b ≡ false
    pub bc : eqb b c ≡ false
    pub ca : eqb c a ≡ false

  turned : (a b c : Text) → IsTriangle a b c → IsTriangle b c a
  turned a b c t = record {
    a_there = t.b_there;
    b_there = t.c_there;
    c_there = t.a_there;
    a_super = t.b_super;
    b_super = t.c_super;
    c_super = t.a_super;
    ab = t.bc;
    bc = t.ca;
    ca = t.ab;
  }

  -- One round takes a packet from the first edge of the triangle to the second.
  around :
      (a b c : Text) (ps : List Packet)
      → IsTriangle a b c
      → has a b ps ≡ true
      → has b c (hop room ps) ≡ true
  around a b c ps t h =
      has-hop a b c ps h t.b_super
        (contains-links b c t.c_there (ground (arith, eqb_iff c b, eqb_iff b c, t.bc)) t.b_super)
        t.ca

  circling :
      (n : ℕ) (a b c : Text) (ps : List Packet)
      → IsTriangle a b c
      → has a b ps ≡ true
      → is_empty (hops room n ps) ≡ false
  unfolding hops has
  circling zero a b c [] t h = ground (arith, h)
  circling zero a b c (p ∷ ps) t h = refl
  circling (suc n) a b c ps t h =
      circling n b c a (hop room ps) (turned a b c t) (around a b c ps t h)

  speaks : (a b c : Text) → IsTriangle a b c → has a b (speak room a) ≡ true
  speaks a b c t =
      rw has-packets
        (contains-links a b t.b_there (ground (arith, eqb_iff b a, eqb_iff a b, t.ab)) t.a_super)

  -- Where three superpeers are in a room, what one of them says once is forwarded without end: some
  -- packet of it is under way after any number of rounds.
  pub forwarding_storm :
      (a b c : Text) (n : ℕ) → IsTriangle a b c → is_empty (hops room n (speak room a)) ≡ false
  forwarding_storm a b c n t = circling n a b c (speak room a) t (speaks a b c t)

  -- And after two rounds it comes back to the one who said it.
  pub own_voice : (a b c : Text) → IsTriangle a b c → has c a (hops room 2 (speak room a)) ≡ true
  unfolding hops
  own_voice a b c t = around b c a _ (turned a b c t) (around a b c _ t (speaks a b c t))
