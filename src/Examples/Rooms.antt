-- ===== src/Examples/Rooms.antt =====
-- Rooms with one and with three superpeers, for src/gui.rs and src/topology.rs.
use voirc.Base.{
  ◌≡◌, refl, true, false, ◌||◌, [], ◌∷◌, Text, text_eq, text_beq, eqb, eqb_iff, arith,
  if◌then◌else◌,
}
use voirc.Strings.{lit}
use voirc.Config.{host, peer, moderator, is_superpeer}
use voirc.State.{new}
use voirc.Topology.{is_empty}
use voirc.Audio.{Room, hop, hops, speak, has}
use voirc.Audio.Star.{star_delivers}
use voirc.Audio.Storm.{forwarding_storm}
use voirc.Examples.{alice}

abbrev bob : Text
bob = lit "bob"

abbrev zoe : Text
zoe = lit "zoe"

abbrev one_host : Room
one_host = record {
  nodes = alice ∷ bob ∷ zoe ∷ [];
  role = λ n. if eqb n zoe then host else peer;
  app = new;
}

only_zoe : (n : Text) → is_superpeer (one_host.role n) ≡ true → n ≡ zoe
unfolding is_superpeer
only_zoe n h = ground (arith, eqb_iff n zoe, h)

star_delivers_example :
    ((has alice bob (speak one_host alice) || has zoe bob (hop one_host (speak one_host alice)))
      ≡ true)
    × (hop one_host (hop one_host (speak one_host alice)) ≡ [])
unfolding text_beq is_superpeer voirc.Base.contains
star_delivers_example = star_delivers one_host zoe only_zoe alice bob refl refl refl refl

abbrev three_hosts : Room
three_hosts = record one_host { role = λ _. moderator }

forwarding_storm_example : is_empty (hops three_hosts 1000 (speak three_hosts alice)) ≡ false
unfolding text_beq is_superpeer voirc.Base.contains
forwarding_storm_example = forwarding_storm three_hosts alice bob zoe 1000 (record {
  a_there = refl;
  b_there = refl;
  c_there = refl;
  a_super = refl;
  b_super = refl;
  c_super = refl;
  ab = refl;
  bc = refl;
  ca = refl;
})
