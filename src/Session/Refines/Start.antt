-- ===== src/Session/Refines/Start.antt =====
-- The start of a call in src/gui.rs changes the application by calls of its methods.
use voirc.Base.{refl, Bool, Text, [], ◌++◌, arith, if◌then◌else◌}
use voirc.Dict.{is_some}
use voirc.Strings.{lit}
use voirc.State.{AppState}
use voirc.State.Run.{run, set_our_role, load_history}
use voirc.Log.{MessageLog}
use voirc.Session.{World, Session, announce_role}
use voirc.Session.Refines.{Follows, called, same, ◌▸◌, Follows-if, say-Follows, send_raw-Follows}
use voirc.Session.Start.{Connection, role_of, new_session, say_if, greet, load_first, prepare}

module _ (w : World) (k : Connection) where
  say_if-Follows : (b : Bool) (s : Session) (text : Text) → Follows s (say_if b s text)
  unfolding say_if
  say_if-Follows b s text = Follows-if b (say-Follows s _ text) (same s)

  greet-Follows : (s : Session) → Follows s (greet w k s)
  unfolding greet
  greet-Follows s =
      let connected =
        say-Follows s s.current_channel
          (lit "Connected as " ++ (w.nickname ++ (if k.use_tls then lit " (TLS)" else []))) in
      let hosting = connected ▸ say_if-Follows k.is_host _ (lit "You are hosting this room") in
      let relaying =
        hosting ▸ Follows-if k.is_host (say_if-Follows (is_some w.relay_addr) _ _) (same _) in
      relaying ▸ Follows-if k.has_mic (same _) (say-Follows _ _ _)

  announce_role-Follows :
      (s : Session) (channel : Text) → Follows s (announce_role w s channel w.our_role)
  unfolding announce_role
  announce_role-Follows s channel = send_raw-Follows w s _

  loaded : (s : Session) → Follows s (load_first w s)
  unfolding load_first run
  loaded s =
      called (load_history s.current_channel 100 (w.history s.current_channel)) (omega arith) refl
        refl

  -- From a new state of the application to the event loop.
  pub prepare-Follows :
      (app : AppState) (log : MessageLog)
      → Follows (record (new_session k app log) { app = app }) (prepare w k (new_session k app log))
  unfolding prepare new_session run
  prepare-Follows app log =
      called (set_our_role (role_of k.is_host)) tt refl refl
      ▸ announce_role-Follows (new_session k app log) k.default_channel
      ▸ greet-Follows _
      ▸ loaded _
