-- ===== src/Online/Follows.antt =====
-- What holds of the application whatever the server, the peers and the user do, in any order.
use voirc.Base.{
  ◌≡◌, refl, Bool, true, false, Option, none, some, List, [], ◌∷◌, ◌++◌, Text, text_eq, eqb,
  contains, if◌then◌else◌, Bool-cases, inl, inr,
}
use voirc.Strings.{lit, trim}
use voirc.Config
use voirc.Config.{is_superpeer}
use voirc.State.{new, all_superpeers, get_peer_role, update_peer_state}
use voirc.State.Messages.{IsBounded}
use voirc.State.Run.{run-IsBounded, all_superpeers-run, mark_speaking, refresh_speaking}
use voirc.State.Run
use voirc.Log.{MessageLog}
use voirc.Log.Order.{IsOrdered}
use voirc.Client.{Event, Context, Client, Reaction, quiet}
use voirc.Client.Calls.{Calls, handle_message-Calls}
use voirc.Client.History.{handle_message-IsOrdered}
use voirc.Client.Reader.{Parsed, unreadable, ping, message, take_parsed, read_line}
use voirc.Session.{World, Session}
use voirc.Session.Loop.{event}
use voirc.WebrtcPeer.{
  RtcState, unspecified, connecting, connected, disconnected, failed, closed, on_state_change,
}
use voirc.Session.Refines.{Follows, same, called, say-Follows, ◌▸◌}
use voirc.Session.Commands.{tell_mined}
use voirc.Session.Start.{Connection, new_session, prepare}
use voirc.Session.Refines.Start.{prepare-Follows}
use voirc.Session.Refines.Events.{step-Follows}
use voirc.Online.{
  Online, Happening, line_read, event_taken, woken, heard, refreshed, peer_changed, irc_failed,
  search_ended, role_set, react, client_of, take_next, happen, run, begun,
}

-- What the reader does to what it shares with the loop.
record Sound (h : Client) (r : Reaction) : Type 0 where
  app : Calls h.app r.client.app
  log_ordered : IsOrdered h.message_log → IsOrdered r.client.message_log

-- The handler of a peer's connection calls two methods at most.
changed-Follows :
    (s : Session) (nick : Text) (state : RtcState)
    → Follows s (record s { app = (on_state_change s.app nick state).0 })
unfolding on_state_change Run.run
changed-Follows s nick connected =
    called {t = record s { app = update_peer_state s.app nick true false }}
      (Run.update_peer_state nick true false) tt refl refl
    ▸ called (Run.set_peer_conn_state nick Config.connected) tt refl refl
changed-Follows s nick failed =
    called {t = record s { app = update_peer_state s.app nick false false }}
      (Run.update_peer_state nick false false) tt refl refl
    ▸ called (Run.set_peer_conn_state nick Config.failed) tt refl refl
changed-Follows s nick disconnected = called (Run.update_peer_state nick false false) tt refl refl
changed-Follows s nick unspecified = same s
changed-Follows s nick RtcState.new = same s
changed-Follows s nick connecting = same s
changed-Follows s nick closed = same s

module _ (from_str : Text → Parsed) (debug : Option Text → Text) where
  quiet-Sound : (h : Client) → Sound h (quiet h)
  unfolding Run.run
  quiet-Sound h = record {
    app = record { calls = []; modest = tt; app_eq = refl };
    log_ordered = λ o. o;
  }

  take_parsed-Sound :
      (k : Context) (h : Client) (parsed : Parsed) → Sound h (take_parsed debug k h parsed)
  unfolding take_parsed
  take_parsed-Sound k h unreadable = quiet-Sound h
  take_parsed-Sound k h (ping s1 s2) = record { app = (quiet-Sound h).app; log_ordered = λ o. o }
  take_parsed-Sound k h (message source command) = record {
    app = handle_message-Calls k h source command;
    log_ordered = handle_message-IsOrdered k h source command;
  }

  read_line-Sound :
      (k : Context) (h : Client) (line : Text) → Sound h (read_line from_str debug k h line)
  unfolding read_line
  read_line-Sound k h line = elim (Bool-cases (eqb (trim line) [])) [
    | inl e ↦ rw e (quiet-Sound h)
    | inr e ↦ rw e (take_parsed-Sound k h (from_str (trim line)))
  ]

  react-Follows :
      (s : Online) (r : Reaction) → Sound (client_of s) r → Follows s.session (react s r).session
  react-Follows s r h = record {
    calls = h.app.calls;
    modest = h.app.modest;
    app_eq = h.app.app_eq;
    log_ordered = h.log_ordered;
  }

  take_next-Follows :
      (w : World) (s : Online) (queue : List Event)
      → Follows s.session (take_next w s queue).session
  take_next-Follows w s [] = same s.session
  take_next-Follows w s (e ∷ queue) = step-Follows w s.session (event e)

  -- The choice between two states.
  Online-if :
      (b : Bool) (s t u : Online)
      → Follows s.session t.session
      → Follows s.session u.session
      → Follows s.session (if b then t else u).session
  Online-if true s t u p q = p
  Online-if false s t u p q = q

  happen-Follows :
      (s : Online) (h : Happening) → Follows s.session (happen from_str debug s h).session
  unfolding happen Run.run tell_mined
  happen-Follows s (line_read k line) =
      Online-if s.reading s _ s (react-Follows s _ (read_line-Sound k (client_of s) line))
        (same s.session)
  happen-Follows s (event_taken w) =
      Online-if s.session.running s _ s (take_next-Follows w s s.queue) (same s.session)
  happen-Follows s (woken w input) =
      Online-if s.session.running s _ s (step-Follows w s.session input) (same s.session)
  happen-Follows s (heard nick now) = called (mark_speaking nick now) tt refl refl
  happen-Follows s (refreshed now clock) = called (refresh_speaking now clock) tt refl refl
  happen-Follows s (peer_changed nick state) = changed-Follows s.session nick state
  happen-Follows s (irc_failed e) =
      say-Follows s.session s.session.current_channel (lit "IRC error: " ++ e)
  happen-Follows s (search_ended channel none) = say-Follows s.session channel _
  happen-Follows s (search_ended channel (some m)) = say-Follows s.session channel _
  happen-Follows s (role_set role) = called (Run.set_our_role role) tt refl refl

  -- Whatever happens, in any order, the state of the application changes by calls of its methods alone,
  -- with histories of at most a thousand lines, and a log that is ordered stays ordered.
  pub run-Follows :
      (s : Online) (hs : List Happening) → Follows s.session (run from_str debug s hs).session
  unfolding run
  run-Follows s [] = same s.session
  run-Follows s (h ∷ hs) = happen-Follows s h ▸ run-Follows (happen from_str debug s h) hs

  -- In a call that begins with a new state and an ordered log, whatever the server, the peers and the
  -- user do and in whatever order, no channel keeps more than a thousand messages, the signed log is
  -- sorted by time in each channel with every id once, and `all_superpeers` lists exactly the nicks for
  -- which `get_peer_role` gives a superpeer's role.
  pub online_sound :
      (w : World) (k : Connection) (log : MessageLog) (hs : List Happening)
      → IsOrdered log
      → let after = (run from_str debug (begun (prepare w k (new_session k new log))) hs).session in
        IsBounded after.app
        × IsOrdered after.message_log
        × ((n : Text)
            → contains (all_superpeers after.app) n ≡ is_superpeer (get_peer_role after.app n))
  unfolding new_session
  online_sound w k log hs ordered =
      let follows =
        prepare-Follows w k new log
        ▸ run-Follows (begun (prepare w k (new_session k new log))) hs in
      (
        rw follows.app_eq (run-IsBounded new follows.calls follows.modest tt),
        follows.log_ordered ordered,
        λ n. rw follows.app_eq (all_superpeers-run follows.calls n),
      )
