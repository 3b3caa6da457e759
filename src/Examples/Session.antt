-- ===== src/Examples/Session.antt =====
-- A session of the event loop of src/gui.rs.
use voirc.Base.{
  ◌⊎◌, ◌≡◌, ◌≢◌, refl, sym, ◌∙◌, true, false, none, some, [], ◌∷◌, text_eq, text_beq, eqb, arith,
  if◌then◌else◌, ◌&&◌,
}
use voirc.Dict
use voirc.Dict.{mapped}
use voirc.Int.{pos}
use voirc.Strings.{lit}
use voirc.Config
use voirc.Config.{host, moderator, peer, can_moderate}
use voirc.State
use voirc.State.{new, get_peer_role}
use voirc.Log.{empty_log}
use voirc.Moderation.{promote, mod_command}
use voirc.Session.{World, Session, usable, not_opened, slept}
use voirc.Session.Authority.{rank_after, on_mod_action-ranks, run_command-ranks}
use voirc.Session.Commands.{run_command}
use voirc.Session.Connections.{maybe_create_peer}
use voirc.Session.Events.{on_mod_action}
use voirc.Session.Initiator.{placed, one_caller}
use voirc.Examples.{toy, alice}
use voirc.Examples.Log.{json}

-- The client of a host whose peers answer.
abbrev pub world : World
world = record {
  nickname = lit "zoe";
  our_role = host;
  banned_users = [];
  relay_addr = some (lit "h:6668");
  identity = none;
  crypto = toy;
  json = json;
  signal_json = λ _. lit "{}";
  read_signal = λ _. none;
  sync_json = λ _ _. lit "{}";
  to_lowercase = λ t. t;
  invite_link = none;
  diagnostics = record {
    local_ip = none;
    external_ip = none;
    upnp_status = none;
    turn_configured = 0;
    relay_enabled = false;
    relay_port = none;
    port_open = none;
  };
  loaded_commands = [];
  commands_path = lit "commands.toml";
  editor_opened = false;
  alive = true;
  written = true;
  fresh_id = lit "i";
  time = pos 7;
  now = 1;
  calling = λ _. usable (some (lit "sdp"));
  answering = λ _ _. not_opened;
  file_taken = λ _. true;
  history = λ _. [];
  save_dir = lit "d";
  save_error = none;
}

abbrev pub session : Session
session = record {
  app = State.set_peer_role (State.set_peer_role new (lit "bob") moderator) alice peer;
  message_log = empty_log;
  current_channel = lit "#general";
  channels = lit "#general" ∷ [];
  peers = [];
  reconnect_attempts = [];
  custom_commands = [];
  running = true;
  out = [];
}

on_mod_action-ranks_example :
    (on_mod_action world session (lit "bob") (lit "promote") alice ≡ (
      if can_moderate (get_peer_role session.app (lit "bob"))
      then on_mod_action world session (lit "bob") (lit "promote") alice
      else session))
    × (get_peer_role (on_mod_action world session (lit "bob") (lit "promote") alice).app alice ≡ (
        if can_moderate (get_peer_role session.app (lit "bob")) && eqb alice alice
        then rank_after (lit "promote") (get_peer_role session.app alice)
        else get_peer_role session.app alice))
    × ((on_mod_action world session (lit "bob") (lit "promote") alice).app.our_role ≡ (
        if can_moderate (get_peer_role session.app (lit "bob")) && eqb alice world.nickname
        then rank_after (lit "promote") session.app.our_role
        else session.app.our_role))
on_mod_action-ranks_example =
    on_mod_action-ranks world session (lit "bob") (lit "promote") alice alice

rank_now : get_peer_role session.app alice ≡ peer
unfolding get_peer_role State.set_peer_role Dict.get Dict.insert text_beq
rank_now = refl

rank_then :
    get_peer_role
      (run_command world session (lit "#general") (mod_command (promote alice))).app
      alice
    ≡ moderator
unfolding run_command get_peer_role State.set_peer_role Dict.get Dict.insert text_beq
    State.add_message voirc.Moderation.check_permission voirc.Config.can_promote voirc.Session.say
    voirc.Session.send_mod_action
rank_then = refl

moderator_ne_peer : moderator ≢ peer
moderator_ne_peer e = ground (arith, e)

promoted :
    get_peer_role
      (run_command world session (lit "#general") (mod_command (promote alice))).app
      alice
    ≢ get_peer_role session.app alice
promoted e = moderator_ne_peer (sym rank_then ∙ e ∙ rank_now)

run_command-ranks_example : (alice ≡ alice) × (host ≡ host)
run_command-ranks_example =
    run_command-ranks world session (lit "#general") (promote alice) alice promoted

abbrev other_world : World
other_world = record world { nickname = alice; our_role = peer }

zoe_ne_alice : lit "zoe" ≢ alice
zoe_ne_alice e = ground (arith, e)

one_caller_example :
    ((maybe_create_peer world session alice ≡ placed world session alice)
      × (maybe_create_peer other_world session (lit "zoe") ≡ session))
    ⊎ ((maybe_create_peer world session alice ≡ session)
        × (maybe_create_peer other_world session (lit "zoe")
            ≡ placed other_world session (lit "zoe")))
one_caller_example =
    one_caller world other_world session session (omega arith) (omega arith) zoe_ne_alice
