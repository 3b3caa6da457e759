-- ===== src/Online.antt =====
-- The task of src/irc_client.rs that reads lines, the queue of its events and the event loop of
-- src/gui.rs, which share the state of the application and the signed log.
pub mod Follows
pub mod Ranks
pub mod Chat
pub mod Silence
use voirc.Base.{
  ℕ, Bool, true, false, Option, none, some, List, [], ◌∷◌, ◌++◌, Text, text_eq, eqb, if◌then◌else◌,
}
use voirc.State
use voirc.Strings.{lit}
use voirc.Fragments.{Buffers}
use voirc.Client.{Event, Context, Client, Reaction}
use voirc.Client.Reader.{Parsed, read_line}
use voirc.Session.{World, Session, Effect, say, sent}
use voirc.Config.{Role}
use voirc.Pow.{MinedNick}
use voirc.Session.Commands.{tell_mined}
use voirc.Session.Loop.{Input, event, step}
use voirc.WebrtcPeer.{RtcState, on_state_change}

-- The session, what the reader keeps to itself, and the events that wait for the loop.
pub record Online : Type 0 where
  pub session : Session
  pub fragments : Buffers
  pub queue : List Event
  -- whether the reader still runs
  pub reading : Bool

-- The reader reads a line; the loop takes the next event, or is woken by something else; the task of
-- the mixer marks who speaks; the window refreshes the list of peers; the connection to a peer changes
-- its state, where what the handler sends to the loop is an input that wakes it; the task that waits
-- for the client's `run` tells an error; a search of `/mine` ends, which it may do after the loop; the
-- task that sets our role runs. Each runs to its end before the next begins.
pub data Happening : Type 0 where
  line_read : Context → Text → Happening
  event_taken : World → Happening
  woken : World → Input → Happening
  heard : Text → ℕ → Happening
  refreshed : ℕ → (Text → ℕ) → Happening
  peer_changed : Text → RtcState → Happening
  irc_failed : Text → Happening
  search_ended : Text → Option MinedNick → Happening
  role_set : Role → Happening

-- The lines that the reader puts into the queue of the connection.
abbrev pub all_sent : List Text → List Effect
all_sent [] = []
all_sent (line ∷ lines) = sent line ∷ all_sent lines

abbrev pub client_of : Online → Client
client_of s = record {
  app = s.session.app;
  message_log = s.session.message_log;
  fragments = s.fragments;
  reading = s.reading;
}

abbrev pub react : Online → Reaction → Online
react s r = record {
  session = record s.session {
    app = r.client.app;
    message_log = r.client.message_log;
    out = s.session.out ++ all_sent r.sent;
  };
  fragments = r.client.fragments;
  queue = s.queue ++ r.events;
  reading = r.client.reading;
}

abbrev pub take_next : World → Online → List Event → Online
take_next w s [] = s
take_next w s (e ∷ queue) = record s { session = step w s.session (event e); queue = queue }

-- `from_str` and `debug` are those of `read_line`. The loop takes nothing once it has ended, nor does a
-- reader that has panicked.
unfoldable pub happen : (Text → Parsed) → (Option Text → Text) → Online → Happening → Online
happen from_str debug s (line_read k line) =
    if s.reading then react s (read_line from_str debug k (client_of s) line) else s
happen from_str debug s (event_taken w) = if s.session.running then take_next w s s.queue else s
happen from_str debug s (woken w input) =
    if s.session.running then record s { session = step w s.session input } else s
happen from_str debug s (heard nick now) = record s {
  session = record s.session { app = State.mark_speaking s.session.app nick now };
}
happen from_str debug s (refreshed now clock) = record s {
  session = record s.session { app = State.refresh_speaking s.session.app now clock };
}
happen from_str debug s (peer_changed nick state) = record s {
  session = record s.session { app = (on_state_change s.session.app nick state).0 };
}
happen from_str debug s (irc_failed e) = record s {
  session = say s.session s.session.current_channel (lit "IRC error: " ++ e);
}
happen from_str debug s (search_ended channel result) = record s {
  session = tell_mined s.session channel result;
}
happen from_str debug s (role_set role) = record s {
  session = record s.session { app = State.set_our_role s.session.app role };
}

unfoldable pub run : (Text → Parsed) → (Option Text → Text) → Online → List Happening → Online
unfolding happen
run from_str debug s [] = s
run from_str debug s (h ∷ hs) = run from_str debug (happen from_str debug s h) hs

abbrev pub begun : Session → Online
begun s = record { session = s; fragments = []; queue = []; reading = true }
