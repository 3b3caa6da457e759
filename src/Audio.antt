-- ===== src/Audio.antt =====
-- The tasks of src/gui.rs that carry sound, and the network that they make by the rule of
-- src/topology.rs.
pub mod Star
pub mod Storm
use voirc.Base.{
  ℕ, zero, suc, Bool, true, false, not, ◌&&◌, ◌||◌, Option, none, some, List, [], ◌∷◌, ◌++◌, Text,
  text_eq, eqb, keep, map, length, ltb, contains, if◌then◌else◌,
}
use voirc.Dict
use voirc.Dict.{Dict, is_some}
use voirc.Config.{Role, is_superpeer}
use voirc.State
use voirc.State.{AppState}
use voirc.Topology.{should_connect_to}
use voirc.VoiceMixer.{Float, Devices, decode}

-- the sound of a peer, as it comes from a track or from the relay
abbrev pub Heard : Type 0
Heard = Text × List ℕ

abbrev pub ring_capacity : ℕ
ring_capacity = 64

-- `queue_audio` of src/voice_mixer.rs: `ArrayQueue::push` refuses what a full ring cannot take.
unfoldable pub queue_audio {ℓ} : {A : Type ℓ} → List A → A → List A
queue_audio ring pcm = if ltb (length ring) ring_capacity then ring ++ pcm ∷ [] else ring

module _ (f : Float) (d : Devices f) where
  -- What the task that decodes keeps, and the state that it marks speakers in.
  pub record Mixing : Type 0 where
    pub decoders : Dict Text d.Decoder
    pub net_ring : List (List f.F32)
    pub app : AppState
    pub forwarded : List Heard

  abbrev pub play : ℕ → Text → Mixing → Option (List f.F32) → Mixing
  play now nick m none = m
  play now nick m (some pcm) = record m {
    net_ring = queue_audio m.net_ring pcm;
    app = State.mark_speaking m.app nick now;
  }

  -- one packet of `mix_rx`
  unfoldable pub mix_packet : ℕ → Mixing → Heard → Mixing
  unfolding queue_audio decode
  mix_packet now m (nick, packet) =
      let (decoders, output) = decode f d m.decoders nick packet in
      let m1 = play now nick (record m { decoders = decoders }) output in
      if is_superpeer m1.app.our_role
      then record m1 { forwarded = m1.forwarded ++ (nick, packet) ∷ [] }
      else m1

-- The task of the microphone: whom a packet goes to, and whether the relay gets it too.
unfoldable pub send_mic : List Text → Bool → List (Option Text)
send_mic peers relayed = map (λ n. some n) peers ++ (if relayed then none ∷ [] else [])

-- The task that forwards: all connections but the sender's.
unfoldable pub forward_to : List Text → Text → List Text
forward_to peers sender_nick = keep (λ n. not (eqb n sender_nick)) peers

-- Everyone in a room, with a view of the roles on which all agree.
pub record Room : Type 0 where
  pub nodes : List Text
  pub role : Text → Role
  pub app : AppState

-- The connections of one of them, once all are made.
unfoldable pub links : Room → Text → List Text
links room a =
    keep (λ n. not (eqb n a) && should_connect_to room.app a (room.role a) n (room.role n))
      room.nodes

-- A packet on its way. It is heard as the sound of the connection that it comes from.
pub record Packet : Type 0 where
  pub sender : Text
  pub receiver : Text

abbrev pub packets : Text → List Text → List Packet
packets a [] = []
packets a (n ∷ ns) = record { sender = a; receiver = n } ∷ packets a ns

-- what a packet sets off where it arrives
unfoldable pub arrive : Room → Packet → List Packet
unfolding links forward_to
arrive room p =
    if is_superpeer (room.role p.receiver)
    then packets p.receiver (forward_to (links room p.receiver) p.sender)
    else []

unfoldable pub hop : Room → List Packet → List Packet
unfolding arrive
hop room [] = []
hop room (p ∷ ps) = arrive room p ++ hop room ps

-- The packets under way after some rounds, and those that a word of `a` begins with.
unfoldable pub hops : Room → ℕ → List Packet → List Packet
unfolding hop
hops room zero ps = ps
hops room (suc n) ps = hops room n (hop room ps)

abbrev pub speak : Room → Text → List Packet
speak room a = packets a (links room a)

-- whether a packet from one to the other is under way
unfoldable pub has : Text → Text → List Packet → Bool
has s r [] = false
has s r (p ∷ ps) = (eqb p.sender s && eqb p.receiver r) || has s r ps
