-- ===== src/Session/Start.antt =====
-- The task that `connect_to_server` of src/gui.rs starts: from the end of `IrcClient::connect` to the
-- event loop.
use voirc.Base.{Bool, true, false, List, [], ◌++◌, Text, if◌then◌else◌}
use voirc.Dict.{is_some}
use voirc.Strings.{lit}
use voirc.Config.{Role, host, peer}
use voirc.State
use voirc.State.{AppState}
use voirc.Log.{MessageLog}
use voirc.Session.{World, Session, say, announce_role}
use voirc.Session.Loop.{Input, event_loop}

-- What the task knows of the connection.
pub record Connection : Type 0 where
  pub default_channel : Text
  pub channels : List Text
  pub is_host : Bool
  pub use_tls : Bool
  pub has_mic : Bool

-- What ten seconds of `IrcClient::connect` come to.
pub data Attempt : Type 0 where
  connected : Attempt
  failed : Text → Attempt
  timed_out : Attempt

abbrev pub role_of : Bool → Role
role_of true = host
role_of false = peer

-- The state of a new call, with the role of the one who starts it.
unfoldable pub new_session : Connection → AppState → MessageLog → Session
new_session k app message_log = record {
  app = State.set_our_role app (role_of k.is_host);
  message_log = message_log;
  current_channel = k.default_channel;
  channels = k.channels;
  peers = [];
  reconnect_attempts = [];
  custom_commands = [];
  running = true;
  out = [];
}

unfoldable pub say_if : Bool → Session → Text → Session
say_if b s text = if b then say s s.current_channel text else s

-- what is said of the connection
unfoldable pub greet : World → Connection → Session → Session
unfolding say_if
greet w k s =
    let s1 =
      say s s.current_channel
        (lit "Connected as " ++ (w.nickname ++ (if k.use_tls then lit " (TLS)" else []))) in
    let s2 = say_if k.is_host s1 (lit "You are hosting this room") in
    let s3 =
      if k.is_host
      then say_if (is_some w.relay_addr) s2 (lit "Audio relay is active for NAT-challenged peers")
      else s2 in
    if k.has_mic
    then s3
    else say s3 s3.current_channel
        (lit "No microphone detected - listen-only mode. Chat still works!")

unfoldable pub load_first : World → Session → Session
load_first w s = record s {
  app = State.load_history s.app s.current_channel 100 (w.history s.current_channel);
  custom_commands = w.loaded_commands;
}

-- up to the event loop
unfoldable pub prepare : World → Connection → Session → Session
unfolding greet load_first
prepare w k s = load_first w (greet w k (announce_role w s k.default_channel w.our_role))

unfoldable pub run_call : World → Connection → Attempt → Session → List (World × Input) → Session
unfolding prepare
run_call w k connected s inputs = event_loop (prepare w k s) inputs
run_call w k (failed e) s inputs = say s s.current_channel (lit "Connection failed: " ++ e)
run_call w k timed_out s inputs = say s s.current_channel (lit "Connection timed out")
