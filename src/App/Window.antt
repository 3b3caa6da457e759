-- ===== src/App/Window.antt =====
-- What the widgets of src/gui.rs do: `new`, the closures of the `render_…` methods that a click, a
-- key or a change of text runs, and `send_message`. How a screen looks is not modelled.
use voirc.Base.{
  min, ℕ, true, false, not, Option, none, some, List, [], ◌∷◌, ◌++◌, Text, text_eq, eqb,
  if◌then◌else◌,
}
use voirc.Strings.{lit, trim, starts_with}
use voirc.Config.{UserConfig, TurnServer}
use voirc.Topology.{is_empty}
use voirc.MagicLink.{ConnectionInfo, from_magic_link}
use voirc.Session.Chat.{CallCommand, send_text, switch_channel, create_channel, send_file, shutdown}
use voirc.App.{
  App, Screen, dashboard, host_setup, join_prompt, settings, recent_servers, in_call, Outside, Call,
  connect_to_server, start_hosting, join_room, update, mined,
}

-- The fields of `VoircApp` beside those of `App`, the text that was copied and the commands that were
-- sent to the loop of a call.
pub record Window : Type 0 where
  pub app : App
  pub settings_name : Text
  pub settings_turn_url : Text
  pub settings_turn_user : Text
  pub settings_turn_cred : Text
  pub chat_input : Text
  pub new_channel_input : Text
  pub host_link_external : Option Text
  pub upnp_warning : Option Text
  pub copied_text : Option Text
  pub commands : List CallCommand

unfoldable pub new : UserConfig → Window
new config = record {
  app = record {
    config = config;
    screen = dashboard;
    host_port = lit "6667";
    host_channels = lit "#general, #gaming";
    host_error = none;
    host_link = none;
    link_copied = false;
    join_input = [];
    join_error = none;
    pending_pow_bits = 0;
    mining_in_progress = false;
    pending_connect = none;
    host_pow_bits = config.pow_required_bits;
    mine_result = none;
    call_state = none;
    tasks = [];
  };
  settings_name = [];
  settings_turn_url = [];
  settings_turn_user = [];
  settings_turn_cred = [];
  chat_input = [];
  new_channel_input = [];
  host_link_external = none;
  upnp_warning = none;
  copied_text = none;
  commands = [];
}

pub data Field : Type 0 where
  host_port host_channels join_input settings_name turn_url turn_user turn_cred chat_input
        new_channel_input :
      Field

-- What the user does. A channel is picked while another one, the first, is current.
pub data Click : Type 0 where
  host_a_room join_a_room show_recent show_settings : Click
  typed : Field → Text → Click
  slid : ℕ → Click
  start_server copy join_your_room back connect save cancel disconnect enter add_channel : Click
  picked_server : Text → Click
  picked_channel : Text → Text → Click
  dropped_file : Text → List ℕ → Click
  copy_invite : Option Text → Click

abbrev pub show : Window → Screen → Window
show w s = record w { app = record w.app { screen = s } }

abbrev pub send : Window → CallCommand → Window
send w c = record w { commands = w.commands ++ c ∷ [] }

-- the fields of the settings, where a TURN server is configured
abbrev pub fill_turn : Window → List TurnServer → Window
fill_turn w [] = w
fill_turn w (ts ∷ rest) = record w {
  settings_turn_url = ts.url;
  settings_turn_user = ts.username;
  settings_turn_cred = ts.credential;
}

unfoldable pub click_dashboard : Window → Click → Window
click_dashboard w host_a_room = show w host_setup
click_dashboard w join_a_room = show w join_prompt
click_dashboard w show_recent =
    if is_empty w.app.config.recent_servers then w else show w recent_servers
click_dashboard w show_settings =
    show
      (fill_turn (record w { settings_name = w.app.config.display_name }) w.app.config.turn_servers)
      settings
click_dashboard w _ = w

-- the link of the server that runs, and a call to it
abbrev pub join_own : Outside → Window → Option ConnectionInfo → Window
join_own o w none = w
join_own o w (some info) = record w { app = connect_to_server o w.app info true }

abbrev pub leave_host_setup : Window → Window
leave_host_setup w = record w {
  app = record w.app {
    screen = dashboard;
    host_error = none;
    host_link = none;
    link_copied = false;
  };
  upnp_warning = none;
}

abbrev pub copy_external : Window → Option Text → Window
copy_external w none = w
copy_external w (some external) = record w {
  app = record w.app { link_copied = true };
  copied_text = some external;
}

-- before a server runs
unfoldable pub click_host_form : Outside → Window → Click → Window
click_host_form o w (typed host_port text) = record w { app = record w.app { host_port = text } }
click_host_form o w (typed host_channels text) = record w {
  app = record w.app { host_channels = text };
}
click_host_form o w (slid bits) = record w { app = record w.app { host_pow_bits = min bits 24 } }
click_host_form o w start_server = record w { app = start_hosting o w.app }
click_host_form o w back = leave_host_setup w
click_host_form o w _ = w

-- while it runs: the link for others is shown once its address is known
unfoldable pub click_running : Outside → Window → Text → Click → Window
click_running o w link copy = copy_external w w.host_link_external
click_running o w link join_your_room = join_own o w (from_magic_link o.codec link)
click_running o w link back = leave_host_setup w
click_running o w link _ = w

unfoldable pub click_host : Outside → Window → Option Text → Click → Window
unfolding click_host_form click_running
click_host o w none c = click_host_form o w c
click_host o w (some link) c = click_running o w link c

unfoldable pub click_join : Outside → Window → Click → Window
click_join o w (typed join_input text) = record w { app = record w.app { join_input = text } }
click_join o w connect =
    if w.app.mining_in_progress then w else record w { app = join_room o w.app }
click_join o w back = record w { app = record w.app { screen = dashboard; join_error = none } }
click_join o w _ = w

-- the TURN servers that are saved
abbrev pub entered_turn : Window → List TurnServer
entered_turn w =
    if not (eqb w.settings_turn_url [])
    then record {
      url = w.settings_turn_url;
      username = w.settings_turn_user;
      credential = w.settings_turn_cred;
    }
      ∷ []
    else []

unfoldable pub click_settings : Window → Click → Window
click_settings w (typed settings_name text) = record w { settings_name = text }
click_settings w (typed turn_url text) = record w { settings_turn_url = text }
click_settings w (typed turn_user text) = record w { settings_turn_user = text }
click_settings w (typed turn_cred text) = record w { settings_turn_cred = text }
click_settings w save = record w {
  app = record w.app {
    config = record w.app.config { display_name = w.settings_name; turn_servers = entered_turn w };
    screen = dashboard;
  };
}
click_settings w cancel = show w dashboard
click_settings w _ = w

-- a server of the list, by its link
abbrev pub join_recent : Outside → Window → Option ConnectionInfo → Window
join_recent o w none = w
join_recent o w (some info) = record w { app = connect_to_server o w.app info false }

unfoldable pub click_recent : Outside → Window → Click → Window
click_recent o w (picked_server link) = join_recent o w (from_magic_link o.codec link)
click_recent o w back = show w dashboard
click_recent o w _ = w

-- the name of a channel that was typed
unfoldable pub channel_name : Text → Text
channel_name text =
    let name = trim text in if not (starts_with (lit "#") name) then b'#' ∷ name else name

unfoldable pub send_message : Window → Option Call → Window
send_message w none = w
send_message w (some call) =
    if not (eqb w.chat_input [])
    then record (send w (send_text w.chat_input)) { chat_input = [] }
    else w

unfoldable pub click_call : Window → Click → Window
unfolding channel_name send_message
click_call w disconnect = record (send w shutdown) {
  app = record w.app { call_state = none; screen = dashboard };
}
click_call w (typed chat_input text) = record w { chat_input = text }
click_call w (typed new_channel_input text) = record w { new_channel_input = text }
click_call w enter = send_message w w.app.call_state
click_call w add_channel =
    if not (eqb w.new_channel_input [])
    then record (send w (create_channel (channel_name w.new_channel_input))) {
      new_channel_input = [];
    }
    else w
click_call w (picked_channel current channel) =
    if eqb channel current then w else send w (switch_channel channel)
click_call w (dropped_file name bytes) = send w (send_file name bytes)
click_call w (copy_invite none) = w
click_call w (copy_invite (some link)) = record w { copied_text = some link }
click_call w _ = w

-- without a call, the screen of a call shows nothing
abbrev pub click_if_called : Window → Option Call → Click → Window
click_if_called w none c = w
click_if_called w (some call) c = click_call w c

unfoldable pub click_on : Outside → Window → Screen → Click → Window
unfolding click_dashboard click_host click_join click_settings click_recent click_call
click_on o w dashboard c = click_dashboard w c
click_on o w host_setup c = click_host o w w.app.host_link c
click_on o w join_prompt c = click_join o w c
click_on o w settings c = click_settings w c
click_on o w recent_servers c = click_recent o w c
click_on o w in_call c = click_if_called w w.app.call_state c

-- A click on the screen that is shown, a frame, or the end of a search for a nick.
pub data Turn : Type 0 where
  clicked : Click → Turn
  drawn : Turn
  search_done : Text → Text → ℕ → Turn

unfoldable pub turn : Outside → Window → Turn → Window
unfolding click_on
turn o w (clicked c) = click_on o w w.app.screen c
turn o w drawn = record w { app = update o w.app }
turn o w (search_done base pubkey required) = record w { app = mined o w.app base pubkey required }

unfoldable pub run : Outside → Window → List Turn → Window
unfolding turn
run o w [] = w
run o w (t ∷ ts) = run o (turn o w t) ts
