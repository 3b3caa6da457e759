-- ===== src/Session/Events.antt =====
-- The events of the IRC client in `event_loop` of src/gui.rs.
use voirc.Base.{
  ℕ, false, not, List, [], ◌∷◌, ◌++◌, Text, text_eq, eqb, if◌then◌else◌, ◌==◌, contains,
}
use voirc.Dict
use voirc.Dict.{or_else, is_some}
use voirc.Int.{ℤ, pos}
use voirc.Strings.{lit}
use voirc.Strings.Decimal.{to_dec}
use voirc.Config.{Role, moderator, peer, can_moderate}
use voirc.State
use voirc.State.{get_peer_role}
use voirc.Log.{SignedMessage, messages_since}
use voirc.Pow.{time_estimate}
use voirc.Client.{
  Event, user_joined, user_left, webrtc_signal, chat_message, mod_action, pow_requirement_changed,
  pow_too_weak,
}
use voirc.Session.{World, Session, say, emit, closed, send_message}
use voirc.Session.Commands.{chat_line}
use voirc.Session.Connections.{maybe_create_peer, on_signal, forget_attempts}

-- the time of the last of some messages, or 0
unfoldable pub last_timestamp : List SignedMessage → ℤ
last_timestamp [] = pos 0
last_timestamp (m ∷ []) = m.timestamp
last_timestamp (m ∷ n ∷ ms) = last_timestamp (n ∷ ms)

-- `make_sync_request`, sent to the one who joined
unfoldable pub request_sync : World → Session → Text → Session
unfolding last_timestamp
request_sync w s nick = send_message w s nick (
    lit "VOIRC_SYNC_REQ:"
    ++ w.sync_json s.current_channel
        (last_timestamp (messages_since s.message_log s.current_channel (pos 0))))

unfoldable pub on_joined : World → Session → Text → Role → Session
unfolding request_sync
on_joined w s nick role =
    if contains w.banned_users nick
    then say s s.current_channel (lit "Banned user " ++ (nick ++ lit " tried to join"))
    else let listed = State.update_peer_state s.app nick false false in
      let s1 = record s { app = State.set_peer_role listed nick role } in
      maybe_create_peer w (request_sync w (forget_attempts s1 nick) nick) nick

unfoldable pub on_left : Session → Text → Session
on_left s nick =
    let s1 = if is_some (Dict.get s.peers nick) then emit s (closed nick) else s in
    record s1 {
      peers = Dict.remove s1.peers nick;
      app = State.remove_peer s1.app nick;
      reconnect_attempts = Dict.remove s1.reconnect_attempts nick;
    }

unfoldable pub tell_requirement : Session → ℕ → Session
tell_requirement s bits =
    if bits == 0
    then say s s.current_channel (lit "PoW requirement removed — anyone can now register a nick.")
    else say s s.current_channel (
        lit "⚡ Nick PoW requirement changed to "
        ++ (to_dec bits
            ++ (lit " bits. Reconnecting users whose nick has < "
                ++ (to_dec bits
                    ++ (lit " bits will need to /mine first (~"
                        ++ (time_estimate bits ++ lit ")."))))))

-- what is told of an action, to its target and to the others
unfoldable pub tell : World → Session → Text → Text → Text → Session
tell w s target to_us to_others =
    if eqb target w.nickname
    then say s s.current_channel to_us
    else say s s.current_channel to_others

-- a change of rank, which is ours where we are the target
unfoldable pub change_rank : World → Session → Text → Role → Session
change_rank w s target role =
    let s1 = record s { app = State.set_peer_role s.app target role } in
    if eqb target w.nickname then record s1 { app = State.set_our_role s1.app role } else s1

unfoldable pub take_action : World → Session → Text → Text → Text → Session
unfolding tell change_rank
take_action w s sender action target =
    if eqb action (lit "kick")
    then tell w s target (lit "You were kicked by " ++ sender)
        (target ++ (lit " was kicked by " ++ sender))
    else if eqb action (lit "ban")
    then tell w s target (lit "You were banned by " ++ sender)
        (target ++ (lit " was banned by " ++ sender))
    else if eqb action (lit "promote")
    then tell w (change_rank w s target moderator) target
        (lit "You were promoted to mod by " ++ sender)
        (target ++ (lit " was promoted to mod by " ++ sender))
    else if eqb action (lit "demote")
    then tell w (change_rank w s target peer) target (lit "You were demoted from mod")
        (target ++ lit " was demoted from mod")
    else s

unfoldable pub on_mod_action : World → Session → Text → Text → Text → Session
unfolding take_action
on_mod_action w s sender action target =
    if not (can_moderate (get_peer_role s.app sender))
    then s
    else take_action w s sender action target

unfoldable pub on_event : World → Session → Event → Session
unfolding on_joined on_left tell_requirement on_mod_action
on_event w s (user_joined nick role) = on_joined w s nick role
on_event w s (user_left nick) = on_left s nick
on_event w s (pow_requirement_changed bits) = tell_requirement s bits
on_event w s (webrtc_signal signal) = on_signal w s signal.sender (w.read_signal signal.payload)
on_event w s (chat_message channel sender text) = say s channel (chat_line sender text)
on_event w s (mod_action sender action target) = on_mod_action w s sender action target
on_event w s (pow_too_weak required_bits) = say s s.current_channel (
    lit "❌ Connection Rejected: Your nick's Proof-of-Work is too weak. Server requires "
    ++ (to_dec required_bits
        ++ (lit " bits. Please run '/mine "
            ++ (to_dec required_bits ++ lit "' to upgrade your nick."))))
