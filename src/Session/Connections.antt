-- ===== src/Session/Connections.antt =====
-- Connections to peers: `maybe_create_peer`, the backoff of reconnects, and the signals that arrive,
-- in `event_loop` of src/gui.rs.
use voirc.Base.{
  ℕ, ◌+◌, ◌%◌, ◌^◌, min, Bool, true, false, not, Option, none, some, List, [], ◌∷◌, ◌++◌, Text,
  text_eq, if◌then◌else◌, ltb, ◌==◌,
}
use voirc.Dict
use voirc.Dict.{or_else, is_some}
use voirc.Strings.{lit, as_bytes}
use voirc.Config.{relayed}
use voirc.State
use voirc.State.{get_peer_role}
use voirc.Topology.{should_connect_to}
use voirc.Session.{
  World, Session, WebRtcSignal, offer, answer, ice_candidate, Opened, not_opened, not_usable,
  usable, say, emit, slept, answer_taken, candidate_taken, send_signal,
}

-- `<` on `str`, which compares bytes
unfoldable pub bytes_lt : List ℕ → List ℕ → Bool
bytes_lt [] [] = false
bytes_lt [] (b ∷ t) = true
bytes_lt (a ∷ s) [] = false
bytes_lt (a ∷ s) (b ∷ t) =
    let rest = bytes_lt s t in if ltb a b then true else if a == b then rest else false

unfoldable pub text_lt : Text → Text → Bool
unfolding bytes_lt
text_lt a b = bytes_lt (as_bytes a) (as_bytes b)

unfoldable pub connecting_to : World → Session → Text → Session
connecting_to w s nick = record s { app = State.set_peer_connecting s.app nick w.now }

unfoldable pub add_peer : Session → Text → Session
add_peer s nick = record s { peers = Dict.insert s.peers nick (record { nickname = nick }) }

-- a new connection that calls its peer
unfoldable pub place_call : World → Session → Text → Text → Opened → Session
unfolding add_peer connecting_to
place_call w s nick what not_opened = s
place_call w s nick what not_usable = connecting_to w s nick
place_call w s nick what (usable none) = connecting_to w s nick
place_call w s nick what (usable (some sdp)) =
    let s1 =
      send_signal w (add_peer (connecting_to w s nick) nick) nick (w.signal_json (offer sdp)) in
    say s1 s1.current_channel (what ++ nick)

unfoldable pub should_connect : World → Session → Text → Bool
should_connect w s nick =
    should_connect_to s.app w.nickname w.our_role nick (get_peer_role s.app nick)

unfoldable pub maybe_create_peer : World → Session → Text → Session
unfolding place_call text_lt should_connect
maybe_create_peer w s nick =
    if not (should_connect w s nick)
    then s
    else if not (text_lt w.nickname nick)
    then s
    else place_call w (connecting_to w s nick) nick (lit "-> Calling ") (w.calling nick)

-- The delay before an attempt, in seconds: `2u64.pow(attempt)` wraps at 64 bits.
unfoldable pub backoff : ℕ → ℕ
backoff attempt = min (2 ^ attempt % 2 ^ 64) 30

-- the attempt that is counted, a `u32`
abbrev pub next_attempt : Session → Text → ℕ
next_attempt s nick = (or_else (Dict.get s.reconnect_attempts nick) 0 + 1) % 2 ^ 32

-- the arm of `reconnect_rx` up to the sleep
unfoldable pub on_reconnect : Session → Text → Session
unfolding backoff
on_reconnect s nick =
    let s1 = record s { peers = Dict.remove s.peers nick } in
    if not (is_some (Dict.get s.app.peer_states nick))
    then s1
    else emit
        (record s1 {
          reconnect_attempts = Dict.insert s.reconnect_attempts nick (next_attempt s nick);
        })
        (slept (backoff (next_attempt s nick)))

-- and after it, on the state as it is then
unfoldable pub on_awake : World → Session → Text → Session
unfolding place_call text_lt should_connect
on_awake w s nick =
    if not (text_lt w.nickname nick)
    then s
    else if not (should_connect w s nick)
    then s
    else place_call w (connecting_to w s nick) nick (lit "-> Reconnecting to ") (w.calling nick)

abbrev pub forget_attempts : Session → Text → Session
forget_attempts s nick = record s { reconnect_attempts = Dict.remove s.reconnect_attempts nick }

unfoldable pub take_offer : World → Session → Text → Opened → Session
unfolding add_peer connecting_to
take_offer w s nick not_opened = s
take_offer w s nick not_usable = connecting_to w s nick
take_offer w s nick (usable none) = connecting_to w s nick
take_offer w s nick (usable (some sdp)) =
    forget_attempts
      (send_signal w (add_peer (connecting_to w s nick) nick) nick (w.signal_json (answer sdp)))
      nick

unfoldable pub on_offer : World → Session → Text → Text → Session
unfolding take_offer should_connect
on_offer w s nick sdp =
    if not (should_connect w s nick)
    then s
    else take_offer w (connecting_to w s nick) nick (w.answering nick sdp)

unfoldable pub on_signal : World → Session → Text → Option WebRtcSignal → Session
unfolding on_offer
on_signal w s nick none = s
on_signal w s nick (some (offer sdp)) = on_offer w s nick sdp
on_signal w s nick (some (answer sdp)) =
    if is_some (Dict.get s.peers nick)
    then forget_attempts (emit s (answer_taken nick sdp)) nick
    else s
on_signal w s nick (some (ice_candidate candidate mid index)) =
    if is_some (Dict.get s.peers nick) then emit s (candidate_taken nick candidate) else s

unfoldable pub on_failed : World → Session → Text → Option Text → Session
on_failed w s nick (some relay) =
    let s1 =
      say s s.current_channel
        (lit "WebRTC to " ++ (nick ++ lit " failed - audio will route through relay")) in
    record s1 { app = State.set_peer_conn_state s1.app nick relayed }
on_failed w s nick none =
    say s s.current_channel
      (lit "Connection to " ++ (nick ++ lit " failed. Ask the host to enable relay mode."))
