-- ===== src/WebrtcPeer.antt =====
-- src/webrtc_peer.rs: a connection to a peer. The crate `webrtc` is not modelled: what it reports, a
-- message of a data channel or a new state of the connection, is an argument of the handlers.
pub mod Files
pub mod Delivery
pub mod States
use voirc.Base.{ℕ, Bool, true, false, Option, none, some, List, [], ◌∷◌, ◌++◌, Text, map}
use voirc.Strings.{lit}
use voirc.Config
use voirc.Config.{TurnServer}
use voirc.State
use voirc.State.{AppState}
use voirc.Session.{WebRtcSignal}

-- `RTCIceServer`, as far as it is set
pub record IceServer : Type 0 where
  pub urls : List Text
  pub username : Text
  pub credential : Text

abbrev turn_server : TurnServer → IceServer
turn_server ts = record { urls = ts.url ∷ []; username = ts.username; credential = ts.credential }

unfoldable pub build_ice_servers : List TurnServer → List IceServer
build_ice_servers turn_servers =
    record {
      urls = lit "stun:stun.l.google.com:19302" ∷ lit "stun:stun1.l.google.com:19302" ∷ [];
      username = [];
      credential = [];
    }
    ∷ map turn_server turn_servers

pub data InternalSignal : Type 0 where
  web_rtc : Text → WebRtcSignal → InternalSignal
  reconnect conn_failed : Text → InternalSignal

-- `RTCPeerConnectionState`
pub data RtcState : Type 0 where
  unspecified new connecting connected disconnected failed closed : RtcState

-- the handler of `on_peer_connection_state_change`: the state after it, and what it sends to the loop
unfoldable pub on_state_change : AppState → Text → RtcState → AppState × List InternalSignal
on_state_change s nick connected = (
  State.set_peer_conn_state (State.update_peer_state s nick true false) nick Config.connected,
  [],
)
on_state_change s nick failed = (
  State.set_peer_conn_state (State.update_peer_state s nick false false) nick Config.failed,
  conn_failed nick ∷ reconnect nick ∷ [],
)
on_state_change s nick disconnected =
    (State.update_peer_state s nick false false, reconnect nick ∷ [])
on_state_change s nick unspecified = (s, [])
on_state_change s nick new = (s, [])
on_state_change s nick connecting = (s, [])
on_state_change s nick closed = (s, [])
