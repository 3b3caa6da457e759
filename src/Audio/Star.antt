-- ===== src/Audio/Star.antt =====
-- Sound in a room with one superpeer, the star of src/topology.rs.
use voirc.Base.{
  ◌≡◌, refl, Bool, true, false, not, ◌&&◌, ◌||◌, List, [], ◌∷◌, Text, text_eq, eqb, eqb_iff, keep,
  contains, arith, Bool-cases, inl, inr, All, All-append, All-keep,
}
use voirc.Config.{is_superpeer}
use voirc.Topology.{should_connect_to}
use voirc.Audio.{Room, Packet, packets, links, forward_to, arrive, hop, speak, has}
use voirc.Audio.Storm.{contains-keep, has-packets, contains-links, has-hop}

kept : (p : Text → Bool) (l : List Text) → All (λ n. p n ≡ true) (keep p l)
unfolding keep
kept p [] = tt
kept p (x ∷ l) = elim (Bool-cases (p x)) [ inl e ↦ rw e (e, kept p l) | inr e ↦ rw e (kept p l) ]

module _ (room : Room) (s : Text)
    (only : (n : Text) → is_superpeer (room.role n) ≡ true → n ≡ s) where
  -- A packet for a regular peer sets nothing off.
  abbrev IsLast : Packet → Type 0
  IsLast p = is_superpeer (room.role p.receiver) ≡ false

  packets-IsLast :
      (a : Text) (l : List Text)
      → All (λ n. is_superpeer (room.role n) ≡ false) l
      → All IsLast (packets a l)
  packets-IsLast a [] h = tt
  packets-IsLast a (n ∷ l) h = (h.0, packets-IsLast a l h.1)

  regular : (n : Text) → eqb n s ≡ false → is_superpeer (room.role n) ≡ false
  regular n other = elim (Bool-cases (is_superpeer (room.role n))) [
    | inr e ↦ e
    | inl e ↦ ground (arith, eqb_iff n s, only n e, other)
  ]

  members-regular :
      (l : List Text)
      → All (λ n. eqb n s ≡ false) l
      → All (λ n. is_superpeer (room.role n) ≡ false) l
  members-regular [] h = tt
  members-regular (n ∷ l) h = (regular n h.0, members-regular l h.1)

  not_itself :
      (l : List Text)
      → All
          (λ n.
            (not (eqb n s) && should_connect_to room.app s (room.role s) n (room.role n)) ≡ true)
          l
      → All (λ n. eqb n s ≡ false) l
  not_itself [] h = tt
  not_itself (n ∷ l) h = (ground (arith, h.0), not_itself l h.1)

  forward_to-regular :
      (x : Text) → All (λ n. is_superpeer (room.role n) ≡ false) (forward_to (links room s) x)
  unfolding forward_to links
  forward_to-regular x = members-regular (forward_to (links room s) x) (
      All-keep (λ n. eqb n s ≡ false) (λ n. not (eqb n x)) (links room s)
        (not_itself (links room s) (kept _ room.nodes)))

  arrive-IsLast : (p : Packet) → All IsLast (arrive room p)
  unfolding arrive
  arrive-IsLast p = elim (Bool-cases (is_superpeer (room.role p.receiver))) [
    | inr e ↦ rw e tt
    | inl e ↦ rw e (
        packets-IsLast p.receiver (forward_to (links room p.receiver) p.sender)
          (rw (only p.receiver e) (forward_to-regular p.sender)))
  ]

  hop-IsLast : (ps : List Packet) → All IsLast (hop room ps)
  unfolding hop
  hop-IsLast [] = tt
  hop-IsLast (p ∷ ps) =
      All-append IsLast (arrive room p) (hop room ps) (arrive-IsLast p) (hop-IsLast ps)

  hop-last : (ps : List Packet) → All IsLast ps → hop room ps ≡ []
  unfolding hop arrive
  hop-last [] h = refl
  hop-last (p ∷ ps) h = rw (h.0, hop-last ps h.1) refl

  -- Nothing is under way after two rounds, whatever was before.
  forwarding_ends : (ps : List Packet) → hop room (hop room ps) ≡ []
  forwarding_ends ps = hop-last (hop room ps) (hop-IsLast ps)

  linked :
      (a n : Text)
      → contains room.nodes n ≡ true
      → eqb n a ≡ false
      → is_superpeer (room.role n) ≡ true
      → contains (links room a) n ≡ true
  unfolding links should_connect_to
  linked a n there other super = rw contains-keep (ground (arith, there, other, super))

  heard :
      (a n : Text)
      → contains room.nodes s ≡ true
      → is_superpeer (room.role s) ≡ true
      → contains room.nodes n ≡ true
      → eqb n a ≡ false
      → (has a n (speak room a) || has s n (hop room (speak room a))) ≡ true
  heard a n s_there s_super n_there other = elim (Bool-cases (eqb s a)) [
    | inl own ↦
        let same : s ≡ a = (eqb_iff s a).0 own in
        let direct : has a n (speak room a) ≡ true =
          rw has-packets (contains-links room a n n_there other (rw (← same) s_super)) in
        ground (arith, direct)
    | inr far ↦ elim (Bool-cases (eqb n s)) [
      | inl top ↦
          let same : n ≡ s = (eqb_iff n s).0 top in
          let direct : has a n (speak room a) ≡ true =
            rw has-packets (linked a n n_there other (rw same s_super)) in
          ground (arith, direct)
      | inr low ↦
          let up : has a s (speak room a) ≡ true =
            rw has-packets (linked a s s_there far s_super) in
          let down : has s n (hop room (speak room a)) ≡ true =
            has-hop room a s n (speak room a) up s_super
              (contains-links room s n n_there low s_super) other in
          ground (arith, down)
    ]
  ]

  -- In a room with one superpeer, what one of its members says reaches every other, by a connection of
  -- its own or forwarded once by the superpeer, and after that nothing of it is under way.
  pub star_delivers :
      (a n : Text)
      → contains room.nodes s ≡ true
      → is_superpeer (room.role s) ≡ true
      → contains room.nodes n ≡ true
      → eqb n a ≡ false
      → ((has a n (speak room a) || has s n (hop room (speak room a))) ≡ true)
        × (hop room (hop room (speak room a)) ≡ [])
  star_delivers a n s_there s_super n_there other =
      (heard a n s_there s_super n_there other, forwarding_ends (speak room a))
