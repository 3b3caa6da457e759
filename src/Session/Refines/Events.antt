-- ===== src/Session/Refines/Events.antt =====
-- Connections and events of the event loop of src/gui.rs, and the loop.
use voirc.Base.{
  inr, inl, Bool-cases, ◌≡◌, refl, ap, ◌∙◌, false, not, Option, none, some, List, [], ◌∷◌, Text,
  text_eq, eqb, contains, ℕ, ◌==◌,
}
use voirc.Dict
use voirc.Dict.{Dict, is_some}
use voirc.Config.{is_superpeer, Role, relayed, can_moderate}
use voirc.State
use voirc.State.{AppState, new, get_peer_role, all_superpeers}
use voirc.State.Messages.{IsBounded}
use voirc.State.Run.{
  run, set_our_role, set_peer_connecting, set_peer_conn_state, update_peer_state, remove_peer,
  run-IsBounded, all_superpeers-run,
}
use voirc.Client.{
  Event, user_joined, user_left, webrtc_signal, chat_message, mod_action, pow_requirement_changed,
  pow_too_weak,
}
use voirc.Strings.{lit}
use voirc.Session.{
  World, Session, WebRtcSignal, offer, answer, ice_candidate, Opened, not_opened, not_usable,
  usable, emit, answer_taken,
}
use voirc.Session.Chat.{on_file}
use voirc.Session.Connections.{
  text_lt, should_connect, place_call, maybe_create_peer, on_reconnect, on_awake, take_offer,
  on_offer, on_signal, on_failed, connecting_to, add_peer, forget_attempts, next_attempt,
}
use voirc.Session.Events.{
  request_sync, on_joined, on_left, tell_requirement, tell, change_rank, take_action, on_mod_action,
  on_event,
}
use voirc.Session.Loop.{
  Input, command, file, conn_failed, reconnect, awake, event, mined, step, event_loop,
}
use voirc.Session.Refines.{
  Follows, unchanged, called, ◌▸◌, Follows-if, same, say-Follows, emit-Follows, send_signal-Follows,
  send_message-Follows,
}
use voirc.Session.Refines.Commands.{
  called_role, on_command-Follows, store-Follows, tell_mined-Follows,
}

module _ (w : World) (s : Session) (nick : Text) where
  connecting_to-Follows : Follows s (connecting_to w s nick)
  unfolding connecting_to run
  connecting_to-Follows = called (set_peer_connecting nick w.now) tt refl refl

  add_peer-Follows : Follows s (add_peer s nick)
  unfolding add_peer
  add_peer-Follows = unchanged refl refl

module _ (w : World) (s : Session) (nick : Text) where
  place_call-Follows : (what : Text) (o : Opened) → Follows s (place_call w s nick what o)
  unfolding place_call
  place_call-Follows what not_opened = same s
  place_call-Follows what not_usable = connecting_to-Follows w s nick
  place_call-Follows what (usable none) = connecting_to-Follows w s nick
  place_call-Follows what (usable (some sdp)) =
      connecting_to-Follows w s nick
      ▸ add_peer-Follows w _ nick
      ▸ send_signal-Follows w _ nick _
      ▸ say-Follows _ _ _

  take_offer-Follows : (o : Opened) → Follows s (take_offer w s nick o)
  unfolding take_offer
  take_offer-Follows not_opened = same s
  take_offer-Follows not_usable = connecting_to-Follows w s nick
  take_offer-Follows (usable none) = connecting_to-Follows w s nick
  take_offer-Follows (usable (some sdp)) =
      connecting_to-Follows w s nick
      ▸ add_peer-Follows w _ nick
      ▸ send_signal-Follows w _ nick _
      ▸ unchanged refl refl

module _ (w : World) (s : Session) (nick : Text) where
  maybe_create_peer-Follows : Follows s (maybe_create_peer w s nick)
  unfolding maybe_create_peer
  maybe_create_peer-Follows = Follows-if (not (should_connect w s nick)) (same s) (
      Follows-if (not (text_lt w.nickname nick)) (same s) (
        connecting_to-Follows w s nick
        ▸ place_call-Follows w _ nick (lit "-> Calling ") (w.calling nick)))

  on_awake-Follows : Follows s (on_awake w s nick)
  unfolding on_awake
  on_awake-Follows = Follows-if (not (text_lt w.nickname nick)) (same s) (
      Follows-if (not (should_connect w s nick)) (same s) (
        connecting_to-Follows w s nick
        ▸ place_call-Follows w _ nick (lit "-> Reconnecting to ") (w.calling nick)))

  on_reconnect-Follows : Follows s (on_reconnect s nick)
  unfolding on_reconnect
  on_reconnect-Follows =
      Follows-if (not (is_some (Dict.get s.app.peer_states nick))) (unchanged refl refl) (
        ◌▸◌
          {t = record s {
            peers = Dict.remove s.peers nick;
            reconnect_attempts = Dict.insert s.reconnect_attempts nick (next_attempt s nick);
          }}
          (unchanged refl refl) (emit-Follows _ _))

  on_signal-Follows : (sig : Option WebRtcSignal) → Follows s (on_signal w s nick sig)
  unfolding on_signal on_offer
  on_signal-Follows none = same s
  on_signal-Follows (some (offer sdp)) =
      Follows-if (not (should_connect w s nick)) (same s)
        (connecting_to-Follows w s nick ▸ take_offer-Follows w _ nick _)
  on_signal-Follows (some (answer sdp)) =
      Follows-if (is_some (Dict.get s.peers nick))
        (emit-Follows s (answer_taken nick sdp) ▸ unchanged refl refl) (same s)
  on_signal-Follows (some (ice_candidate c m i)) =
      Follows-if (is_some (Dict.get s.peers nick)) (emit-Follows s _) (same s)

  on_failed-Follows : (relay : Option Text) → Follows s (on_failed w s nick relay)
  unfolding on_failed run
  on_failed-Follows none = say-Follows s _ _
  on_failed-Follows (some r) =
      say-Follows s _ _ ▸ called (set_peer_conn_state nick relayed) tt refl refl

  on_left-Follows : Follows s (on_left s nick)
  unfolding on_left run emit
  on_left-Follows = elim (Bool-cases (is_some (Dict.get s.peers nick))) [
    | inl e ↦ rw (e) (called (remove_peer nick) tt refl refl)
    | inr e ↦ rw (e) (called (remove_peer nick) tt refl refl)
  ]

  tell-Follows : (to_us to_others : Text) → Follows s (tell w s nick to_us to_others)
  unfolding tell
  tell-Follows to_us to_others =
      Follows-if (eqb nick w.nickname) (say-Follows s _ to_us) (say-Follows s _ to_others)

  change_rank-Follows : (role : Role) → Follows s (change_rank w s nick role)
  unfolding change_rank run
  change_rank-Follows role =
      Follows-if (eqb nick w.nickname)
        (called_role s nick role ▸ called (set_our_role role) tt refl refl)
        (called_role s nick role)

module _ (w : World) (s : Session) where
  on_joined-Follows : (nick : Text) (role : Role) → Follows s (on_joined w s nick role)
  unfolding on_joined request_sync run
  on_joined-Follows nick role = Follows-if (contains w.banned_users nick) (say-Follows s _ _) (
      ◌▸◌ {t = record s { app = State.update_peer_state s.app nick false false }}
        (called (update_peer_state nick false false) tt refl refl)
        (called_role _ nick role
          ▸ ◌▸◌
              {t = forget_attempts
                (record s {
                  app =
                      State.set_peer_role (State.update_peer_state s.app nick false false) nick
                        role;
                })
                nick}
              (unchanged refl refl)
              (send_message-Follows w _ nick _ ▸ maybe_create_peer-Follows w _ nick)))

  tell_requirement-Follows : (bits : ℕ) → Follows s (tell_requirement s bits)
  unfolding tell_requirement
  tell_requirement-Follows bits = Follows-if (bits == 0) (say-Follows s _ _) (say-Follows s _ _)

  take_action-Follows :
      (sender action target : Text) → Follows s (take_action w s sender action target)
  unfolding take_action
  take_action-Follows sender action target =
      Follows-if (eqb action (lit "kick")) (tell-Follows w s target _ _) (
        Follows-if (eqb action (lit "ban")) (tell-Follows w s target _ _) (
          Follows-if (eqb action (lit "promote"))
            (change_rank-Follows w s target _ ▸ tell-Follows w _ target _ _)
            (Follows-if (eqb action (lit "demote"))
              (change_rank-Follows w s target _ ▸ tell-Follows w _ target _ _) (same s))))

  on_event-Follows : (e : Event) → Follows s (on_event w s e)
  unfolding on_event on_mod_action
  on_event-Follows (user_joined nick role) = on_joined-Follows nick role
  on_event-Follows (user_left nick) = on_left-Follows w s nick
  on_event-Follows (pow_requirement_changed bits) = tell_requirement-Follows bits
  on_event-Follows (webrtc_signal signal) = on_signal-Follows w s signal.sender _
  on_event-Follows (chat_message channel sender text) = say-Follows s channel _
  on_event-Follows (mod_action sender action target) =
      Follows-if (not (can_moderate (get_peer_role s.app sender))) (same s)
        (take_action-Follows sender action target)
  on_event-Follows (pow_too_weak required_bits) = say-Follows s _ _

  pub step-Follows : (input : Input) → Follows s (step w s input)
  unfolding step on_file
  step-Follows (command c) = on_command-Follows w s c
  step-Follows (file f) = store-Follows s f _ _
  step-Follows (conn_failed nick) = on_failed-Follows w s nick w.relay_addr
  step-Follows (reconnect nick) = on_reconnect-Follows w s nick
  step-Follows (awake nick) = on_awake-Follows w s nick
  step-Follows (event e) = on_event-Follows e
  step-Follows (mined channel result) = tell_mined-Follows w s channel result

-- Whatever a session is told, by its user, by the server or by its peers, `event_loop` changes the
-- state of the application by a sequence of calls of its methods and in no other way, each history
-- that it loads has at most a thousand lines, and a log that is ordered stays ordered.
pub event_loop-Follows :
    (inputs : List (World × Input)) (s : Session) → Follows s (event_loop s inputs)
unfolding event_loop
event_loop-Follows [] s = same s
event_loop-Follows ((w, input) ∷ inputs) s =
    Follows-if s.running (step-Follows w s input ▸ event_loop-Follows inputs _) (same s)

-- Where no channel keeps more than a thousand messages, none does after any session.
pub event_loop-IsBounded :
    (s : Session) (inputs : List (World × Input))
    → IsBounded s.app
    → IsBounded (event_loop s inputs).app
event_loop-IsBounded s inputs h =
    let follows = event_loop-Follows inputs s in
    rw follows.app_eq (run-IsBounded s.app follows.calls follows.modest h)

-- In a session that begins with a new state, `all_superpeers` lists exactly the nicks for which
-- `get_peer_role` gives a superpeer's role, whatever happens.
pub all_superpeers-event_loop :
    (s : Session) (inputs : List (World × Input)) (n : Text)
    → s.app ≡ new
    → contains (all_superpeers (event_loop s inputs).app) n
      ≡ is_superpeer (get_peer_role (event_loop s inputs).app n)
all_superpeers-event_loop s inputs n e =
    let follows = event_loop-Follows inputs s in
    let app_eq = follows.app_eq ∙ ap (λ a. run a follows.calls) e in
    rw app_eq (all_superpeers-run follows.calls n)
