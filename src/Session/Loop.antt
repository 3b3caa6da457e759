-- ===== src/Session/Loop.antt =====
-- `event_loop` of src/gui.rs: one arm of the `select!` after another, until it ends.
use voirc.Base.{Option, List, [], ◌∷◌, Text, if◌then◌else◌}
use voirc.Pow.{MinedNick}
use voirc.Client.{Event}
use voirc.Session.{World, Session}
use voirc.Session.Commands.{tell_mined}
use voirc.Session.Chat.{CallCommand, ReceivedFile, on_command, on_file}
use voirc.Session.Connections.{on_reconnect, on_awake, on_failed}
use voirc.Session.Events.{on_event}

-- What wakes the loop. A reconnect is cut at its sleep, after which the state may be another one;
-- `mined` is the end of a search that `/mine` began, in the channel where it began.
pub data Input : Type 0 where
  command : CallCommand → Input
  file : ReceivedFile → Input
  conn_failed : Text → Input
  reconnect : Text → Input
  awake : Text → Input
  event : Event → Input
  mined : Text → Option MinedNick → Input

unfoldable pub step : World → Session → Input → Session
unfolding on_command on_file on_failed on_reconnect on_awake on_event tell_mined
step w s (command c) = on_command w s c
step w s (file f) = on_file w s f
step w s (conn_failed nick) = on_failed w s nick w.relay_addr
step w s (reconnect nick) = on_reconnect s nick
step w s (awake nick) = on_awake w s nick
step w s (event e) = on_event w s e
step w s (mined channel result) = tell_mined s channel result

unfoldable pub event_loop : Session → List (World × Input) → Session
unfolding step
event_loop s [] = s
event_loop s ((w, input) ∷ inputs) =
    let rest = event_loop (step w s input) inputs in if s.running then rest else s
