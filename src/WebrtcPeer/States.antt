-- ===== src/WebrtcPeer/States.antt =====
-- A connection that breaks, from the handler of src/webrtc_peer.rs to the event loop of src/gui.rs.
use voirc.Base.{
  ap, ◌∙◌, ◌≡◌, refl, true, false, none, some, List, [], ◌∷◌, ◌++◌, Text, text_eq, eqb_refl,
  if◌then◌else◌,
}
use voirc.Dict
use voirc.Dict.{Dict, is_some, mapped}
use voirc.Config
use voirc.State
use voirc.State.{AppState, PeerState, in_state}
use voirc.Session.{World, Session, say, emit, slept}
use voirc.Session.Connections.{on_failed, on_reconnect, next_attempt, backoff}
use voirc.Session.Loop.{Input, step, event_loop}
use voirc.WebrtcPeer.{lit, InternalSignal, RtcState, on_state_change}

-- How the loop takes what the handlers send; a candidate goes straight to the IRC connection.
abbrev pub inputs_of : World → List InternalSignal → List (World × Input)
inputs_of w [] = []
inputs_of w (InternalSignal.web_rtc nick signal ∷ signals) = inputs_of w signals
inputs_of w (InternalSignal.reconnect nick ∷ signals) =
    (w, Input.reconnect nick) ∷ inputs_of w signals
inputs_of w (InternalSignal.conn_failed nick ∷ signals) =
    (w, Input.conn_failed nick) ∷ inputs_of w signals

-- The state of the session after a change of a connection's state, and after the loop took what the
-- handler sent.
abbrev pub connection_changes : World → Session → Text → RtcState → Session
connection_changes w s nick state =
    let (app, signals) = on_state_change s.app nick state in
    event_loop (record s { app = app }) (inputs_of w signals)

get_inserted {ℓ} :
    {V : Type ℓ} (m : Dict Text V) (k : Text) (v : V) → Dict.get (Dict.insert m k v) k ≡ some v
get_inserted m k v =
    Dict.get-insert m k v k ∙ ap (λ b. if b then some v else Dict.get m k) (eqb_refl k)

get_removed {ℓ} : {V : Type ℓ} (m : Dict Text V) (k : Text) → Dict.get (Dict.remove m k) k ≡ none
get_removed m k = Dict.get-remove m k k ∙ ap (λ b. if b then none else Dict.get m k) (eqb_refl k)

get-set_peer_conn_state :
    (a : AppState) (nick : Text) (c : Config.ConnState) (ps : PeerState)
    → Dict.get a.peer_states nick ≡ some ps
    → Dict.get (State.set_peer_conn_state a nick c).peer_states nick ≡ some (in_state ps c)
unfolding State.set_peer_conn_state
get-set_peer_conn_state a nick c ps e =
    rw (e, State.set_peer_conn_state) (get_inserted a.peer_states nick (in_state ps c))

module _ (w : World) (s : Session) (nick : Text) where
  -- A connection that fails while a relay is there and the loop runs: the loop marks its peer as relayed, drops the
  -- connection, counts an attempt and waits its delay.
  pub connection_changes-failed :
      (relay : Text)
      → w.relay_addr ≡ some relay
      → s.running ≡ true
      → let t = connection_changes w s nick RtcState.failed in
        (mapped (λ ps. ps.conn_state) (Dict.get t.app.peer_states nick) ≡ some Config.relayed)
        × (mapped (λ ps. ps.connected) (Dict.get t.app.peer_states nick) ≡ some false)
        × (Dict.get t.peers nick ≡ none)
        × (Dict.get t.reconnect_attempts nick ≡ some (next_attempt s nick))
        × (t.out ≡ s.out ++ slept (backoff (next_attempt s nick)) ∷ [])
  unfolding on_state_change event_loop step on_failed on_reconnect say emit State.update_peer_state
      State.set_peer_conn_state State.add_message
  connection_changes-failed relay r running =
      let a1 = State.update_peer_state s.app nick false false in
      let e2 =
        get-set_peer_conn_state a1 nick Config.failed _ (get_inserted s.app.peer_states nick _) in
      let e3 =
        get-set_peer_conn_state
          (State.add_message (State.set_peer_conn_state a1 nick Config.failed) s.current_channel
            (lit "WebRTC to " ++ (nick ++ lit " failed - audio will route through relay")))
          nick Config.relayed _ e2 in
      rw (running, r)
        (rw e3 (
          ap (mapped (λ ps. ps.conn_state)) e3,
          ap (mapped (λ ps. ps.connected)) e3,
          get_removed s.peers nick,
          get_inserted s.reconnect_attempts nick _,
          refl,
        ))
