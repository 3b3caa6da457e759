-- ===== src/Examples/Windows.antt =====
-- The window of src/gui.rs.
use voirc.Base.{◌≡◌, refl, [], ◌∷◌, ◌++◌, List, Text, text_eq, text_beq, arith}
use voirc.Dict
use voirc.Dict.{is_some}
use voirc.Strings.{lit, trim}
use voirc.Config.{TurnServer, default, can_moderate}
use voirc.State
use voirc.State.{get_peer_role}
use voirc.Session.{say}
use voirc.Session.Commands.{chat_line}
use voirc.Session.Events.{on_mod_action}
use voirc.App.Window.{
  Window, new, run, Turn, clicked, drawn, show_settings, save, join_a_room, typed, join_input,
  connect,
}
use voirc.App.Screens.{is_in_call, run-IsConsistent}
use voirc.App.Settings.{save_drops_servers}
use voirc.App.Display.{show_line, said, forged_message}
use voirc.Examples.{alice}
use voirc.Examples.App.{outside, app}
use voirc.Examples.Session.{world, session}

abbrev turns : List Turn
turns =
    clicked join_a_room ∷ clicked (typed join_input app.join_input) ∷ clicked connect ∷ drawn ∷ []

run-IsConsistent_example :
    is_some (run outside (new app.config) turns).app.call_state
    ≡ is_in_call (run outside (new app.config) turns).app.screen
run-IsConsistent_example = run-IsConsistent outside app.config turns

abbrev turn_server : Text → TurnServer
turn_server url = record { url = url; username = []; credential = [] }

abbrev window : Window
window = new (record (default alice) {
  turn_servers = turn_server (lit "turn:a") ∷ turn_server (lit "turn:b") ∷ [];
})

save_drops_servers_example :
    (run outside window (clicked show_settings ∷ clicked save ∷ [])).app.config
    ≡ record window.app.config { turn_servers = turn_server (lit "turn:a") ∷ [] }
unfolding new text_beq
save_drops_servers_example =
    save_drops_servers outside window (turn_server (lit "turn:a")) (turn_server (lit "turn:b") ∷ [])
      refl refl

forged_message_example :
    (line : Text) × (on_mod_action world session
        (lit "bob")
        (lit "kick")
        (chat_line alice (lit "hi"))
      ≡ say session session.current_channel line)
    × (show_line line ≡ said alice (trim (lit "hi" ++ (lit " was kicked by " ++ lit "bob"))))
unfolding get_peer_role State.set_peer_role Dict.get Dict.insert text_beq can_moderate
forged_message_example =
    forged_message world session (lit "bob") alice (lit "hi") (omega arith) refl refl
