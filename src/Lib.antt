-- ===== src/Lib.antt =====
-- voirc: a voice chat with an embedded IRC server, text channels with signed messages, direct audio
-- between peers, and an audio relay for those that no direct connection reaches.
--
-- How the parts interact. The server (src/irc_server.rs) admits connections, handles their lines and
-- binds a nick to an ed25519 key once a HELLO with a signature and enough proof of work (src/pow.rs)
-- has arrived. The client (src/irc_client.rs) reacts to what the server relays: it keeps the state of
-- the application (src/state.rs), the signed log (src/persistence.rs) and the fragments of long
-- signals, and raises events. The event loop of src/gui.rs takes these events, the commands of the user
-- (src/moderation.rs), and what the peers report (src/webrtc_peer.rs); src/topology.rs decides which
-- peers connect directly, by their roles (src/config.rs). src/voice_mixer.rs takes and mixes sound,
-- src/relay.rs forwards it where no direct connection is. src/magic_link.rs writes and reads
-- invitations, src/tls.rs has the certificate of a host, and src/upnp.rs its port and addresses.
--
-- Which file models which part:
--   Server      src/irc_server.rs: `ServerState` and its methods. Auth has `handle_hello` and
--               `handle_pow_set`, Commands has `process_command` with one function for each arm,
--               Connection has the accept loop, the reading loop and the clean-up.
--   Server/Run  runs of the server: arrivals, lines, ends and failures, one after another; an address
--               may arrive again where a read error left its entry.
--   Server/Sections, Server/Locks: `handle_hello` and `handle_pow_set` between their locks, as steps of
--               tasks that interleave, and the queue of the lock. Untouched, Claims and Safety have the
--               invariant of these steps; Interleaving, Races, Signers and Deadlock are about their runs.
--   Log         src/persistence.rs: `SignedMessage`, `verify`, `MessageLog`, `process_sync_response`.
--   Pow         src/pow.rs: `leading_zero_bits`, `check_difficulty`, `mine_nick`, `base_name`.
--   State       src/state.rs: `AppState`, a function for each method; State/Run has sequences of calls.
--   Topology    src/topology.rs: `should_connect_to`.
--   Config      src/config.rs: roles, connection states, `add_recent_server`.
--   Client      src/irc_client.rs: Handler has `handle_message`, `handle_notice`, `handle_privmsg`,
--               Reader `connect` with the task that reads lines; Steps has what a handler may do at
--               all, Calls and History are about the state and the log.
--   Fragments   src/irc_client.rs: `send_webrtc_signal`, `handle_fragment`.
--   Relay       src/relay.rs: `handle_relay_client`, `connect`, `send_audio`.
--   MagicLink   src/magic_link.rs: `to_magic_link`, `from_magic_link`; Wire has what serde derives for
--               their records.
--   Moderation  src/moderation.rs: `parse_command`, `check_permission`, `expand_template`; Help has
--               `help_text`.
--   Session     src/gui.rs: `event_loop`, an arm for each input. Commands has the slash commands, Chat
--               what the user sends and the files, Connections calls, offers and reconnects, Events the
--               events of the client, Loop the loop. Refines relates it to the methods of State.
--               Start has the task that connects.
--   Online      src/irc_client.rs, src/gui.rs and src/webrtc_peer.rs: the reader, its queue of events,
--               the event loop, the mixer, the window and the connections to peers on one state of the
--               application. Silence is about the reader's panic.
--   Audio       src/gui.rs, src/topology.rs: the tasks that play, send and forward sound, and a room of
--               peers; Star has one superpeer in it, Storm three.
--   App         src/gui.rs: `start_hosting`, `join_room`, `connect_to_server`, `update`. Window has what
--               the widgets of the `render_...` methods do, Screens and Settings are about it, and
--               Display has how a line of the chat is shown.
--   WebrtcPeer  src/webrtc_peer.rs: Files has `send_file` and `setup_dc_receive`; States has a failing
--               connection from its handler to the event loop.
--   VoiceMixer  src/voice_mixer.rs: the callbacks of the devices; Frames has their loops.
--   Tls         src/tls.rs: `load_or_generate`, `PinnedCertVerifier`.
--   Upnp        src/upnp.rs: `forward_port`, `get_external_ip`.
--   Base, Dict, Strings, Int, Crypto: what the parts share: native numbers, association lists in place
--               of HashMap, texts as lists of code points with their UTF-8 bytes, i64 as an integer,
--               and the functions of the crates hex, ed25519_dalek and ring as one record.
--   Examples    concrete runs.
--
-- Conventions. A handler takes the state and gives the new state and what it sent, in order; a map's
-- order is that of the list. Rust's `Mod` is `moderator`. A `u8` that is added to wraps by `% 256`, a
-- nonce is cut to 32 bits by `% 2 ^ 32`. Crates are arguments; a theorem that relies on them names what
-- it uses as a hypothesis. The clock, fresh ids and the success of a write to the disk are arguments.
-- `run` of the IRC client gives no error in the source, and the arm of its task for one is there anyway.
--
-- Fuel. The reading loops of the relay, the decoding of UTF-8, `chunks`, `replace` and the loops over
-- frames of samples have as fuel the length of their input, of which each turn takes at least one
-- element. The mining loop has `max_attempts`, as in the source. All else is structural recursion.
--
-- A session. The event loop is a function of the inputs that wake it, each with what the outside answers
-- while it is handled; the arm that reconnects is cut at its sleep. What the loop does to the outside is
-- a list of effects. `2u64.pow` and `port + 1` wrap as in a release build.
--
-- Interleaving. Tasks are sequences of steps. In Server/Run a handler of the server is one step; in
-- Server/Sections `handle_hello` and `handle_pow_set` are cut where they give a lock back; the arm
-- of JOIN, which takes two locks as well, is one step. In Online each handler of the client and each
-- arm of the event loop runs to its end before the next step, though the methods of the state take
-- their locks one by one. In Audio a round delivers all packets that are under way, and all
-- connections of a room are made.
--
-- Not modelled. How the screens of src/gui.rs look, src/main.rs, and the task of src/gui.rs that fetches
-- the external address for a link are input and output. Calls of the crates webrtc, cpal, opus, rustls,
-- rcgen, igd and irc are arguments, or left out where nothing but the call is there. Files and their
-- formats are left out but for the lines of the signed log and the certificate. The order in which a
-- HashMap iterates is left out. `to_lowercase` is an argument of `parse_command`.
pub mod Base
pub mod Audio
pub mod Dict
pub mod Strings
pub mod Config
pub mod State
pub mod Topology
pub mod Tls
pub mod App
pub mod Upnp
pub mod VoiceMixer
pub mod WebrtcPeer
pub mod Pow
pub mod Crypto
pub mod Server
pub mod Int
pub mod Log
pub mod Fragments
pub mod Client
pub mod Relay
pub mod MagicLink
pub mod Online
pub mod Moderation
pub mod Session
pub mod Examples
