-- ===== src/Session.antt =====
-- src/gui.rs: the state of the event loop of a call, and what its handlers have at hand.
-- The crates `webrtc`, `serde_json` and `irc`, the disk and the clock are arguments. A handler is a
-- function on the state; what it does to the outside is added to `out`, in order.
pub mod Commands
pub mod Chat
pub mod Connections
pub mod Events
pub mod Loop
pub mod Start
pub mod Refines
pub mod Backoff
pub mod Initiator
pub mod Authority
use voirc.Base.{
  ℕ, Bool, true, false, Option, none, some, List, [], ◌∷◌, ◌++◌, Text, text_eq, if◌then◌else◌,
}
use voirc.Dict.{Dict}
use voirc.Int.{ℤ}
use voirc.Strings.{lit}
use voirc.Strings.Decimal.{to_dec}
use voirc.Crypto.{Crypto}
use voirc.Config.{Role, NetDiagnostics, as_str}
use voirc.State
use voirc.State.{AppState}
use voirc.Log.{SignedMessage, Json, Identity, MessageLog}
use voirc.Moderation.{CustomCommands}

-- `WebRtcSignal` of src/webrtc_peer.rs
pub data WebRtcSignal : Type 0 where
  offer answer : Text → WebRtcSignal
  ice_candidate : Text → Option Text → Option ℕ → WebRtcSignal

-- The outside as the event loop meets it.
pub data Effect : Type 0 where
  -- a line put into the queue of the IRC connection
  sent : Text → Effect
  -- `send_webrtc_signal` of a payload to a nick
  signalled : Text → Text → Effect
  closed : Text → Effect
  file_sent : Text → Text → List ℕ → Effect
  answer_taken : Text → Text → Effect
  candidate_taken : Text → Text → Effect
  mining : Text → Text → ℕ → Effect
  slept : ℕ → Effect
  file_written : Text → List ℕ → Effect

-- What `WebRtcPeer::new` and the calls on its result come to. A connection that cannot be opened fails
-- before `set_peer_connecting` is called, and may also fail after it.
pub data Opened : Type 0 where
  not_opened : Opened
  not_usable : Opened
  usable : Option Text → Opened

-- What the loop is started with, and what the outside answers while one input is handled.
pub record World : Type 0 where
  pub nickname : Text
  pub our_role : Role
  pub banned_users : List Text
  pub relay_addr : Option Text
  pub identity : Option Identity
  pub crypto : Crypto
  pub json : Json
  pub signal_json : WebRtcSignal → Text
  pub read_signal : Text → Option WebRtcSignal
  pub sync_json : Text → ℤ → Text
  pub to_lowercase : Text → Text
  pub invite_link : Option Text
  pub diagnostics : NetDiagnostics
  pub loaded_commands : CustomCommands
  pub commands_path : Text
  pub editor_opened : Bool
  -- whether the writer of the IRC connection still takes lines
  pub alive : Bool
  -- whether a write to the log succeeds, a fresh id and the time of a message
  pub written : Bool
  pub fresh_id : Text
  pub time : ℤ
  -- an `Instant`
  pub now : ℕ
  -- a new connection with an offer, and one that takes an offer
  pub calling : Text → Opened
  pub answering : Text → Text → Opened
  pub file_taken : Text → Bool
  pub history : Text → List Text
  -- the directory of downloads, and the error of a write
  pub save_dir : Text
  pub save_error : Option Text

-- `WebRtcPeer`, as far as the loop tells one from another
pub record Peer : Type 0 where
  pub nickname : Text

-- The variables of `event_loop`, and the shared state of the application.
pub record Session : Type 0 where
  pub app : AppState
  pub message_log : MessageLog
  pub current_channel : Text
  pub channels : List Text
  pub peers : Dict Text Peer
  pub reconnect_attempts : Dict Text ℕ
  pub custom_commands : CustomCommands
  pub running : Bool
  pub out : List Effect

-- `state.add_message`
unfoldable pub say : Session → Text → Text → Session
say s channel text = record s { app = State.add_message s.app channel text }

unfoldable pub emit : Session → Effect → Session
emit s e = record s { out = s.out ++ e ∷ [] }

-- `send_raw`: nothing is sent once the writer is gone, and the caller learns it from `alive`.
unfoldable pub send_raw : World → Session → Text → Session
unfolding emit
send_raw w s line = if w.alive then emit s (sent line) else s

unfoldable pub send_message : World → Session → Text → Text → Session
unfolding send_raw
send_message w s channel text = send_raw w s (lit "PRIVMSG " ++ (channel ++ (lit " :" ++ text)))

unfoldable pub announce_role : World → Session → Text → Role → Session
unfolding send_raw
announce_role w s channel role =
    send_raw w s (lit "PRIVMSG " ++ (channel ++ (lit " :VOIRC_ROLE:" ++ as_str role)))

unfoldable pub send_mod_action : World → Session → Text → Text → Text → Session
unfolding send_raw
send_mod_action w s channel action target =
    send_raw w s (lit "PRIVMSG " ++ (channel ++ (lit " :VOIRC_MOD:" ++ (action ++ b':' ∷ target))))

unfoldable pub send_pow_set : World → Session → ℕ → Session
unfolding send_raw
send_pow_set w s bits = send_raw w s (lit "PRIVMSG voirc :VOIRC_POW_SET:" ++ to_dec bits)

unfoldable pub join_channel : World → Session → Text → Session
unfolding send_raw
join_channel w s channel = send_raw w s (lit "JOIN " ++ channel)

unfoldable pub part_channel : World → Session → Text → Session
unfolding send_raw
part_channel w s channel = send_raw w s (lit "PART " ++ channel)

-- `send_webrtc_signal`, whose fragments are modelled with the client's
unfoldable pub send_signal : World → Session → Text → Text → Session
unfolding emit
send_signal w s target payload = if w.alive then emit s (signalled target payload) else s
