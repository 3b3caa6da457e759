-- ===== src/State.antt =====
-- src/state.rs: the state of the application, its messages, its peers and their keys.
-- Each field stands behind a lock of its own; an operation here is the whole method. An `Instant` is
-- a number of nanoseconds, and the clock is an argument. The plain log files that `persist_message`
-- appends to are not modelled; `load_history` takes the text that it read. `diagnostics` is set by
-- src/upnp.rs alone and is left out, and the signed log has a module of its own, `Log`.
pub mod Peers
pub mod Messages
pub mod Keys
pub mod Run
use voirc.Base.{
  ℕ, ◌+◌, ◌-◌, ◌*◌, ◌<◌, Bool, true, false, Option, none, some, List, [], ◌∷◌, ◌++◌, Text, eqb,
  nat_eq, text_eq, keep, drop, length, map, ltb, if◌then◌else◌,
}
use voirc.Dict
use voirc.Dict.{Dict, or_else, mapped, is_some}
use voirc.Config.{ConnState, connecting, connected, nat_issue, Role, peer, is_superpeer}

pub record PeerState : Type 0 where
  pub nickname : Text
  pub connected : Bool
  pub speaking : Bool
  pub role : Role
  pub conn_state : ConnState
  pub conn_started : Option ℕ

pub record SharedFile : Type 0 where
  pub sender : Text
  pub name : Text
  pub size : ℕ
  pub path : Text

-- `peers` holds a handle for each open connection.
pub record AppState : Type 0 where
  pub peers : Dict Text ℕ
  pub peer_states : Dict Text PeerState
  pub messages : Dict Text (List Text)
  pub last_audio : Dict Text ℕ
  pub received_files : List SharedFile
  pub our_role : Role
  pub known_pubkeys : Dict Text Text

-- `new`
abbrev pub new : AppState
new = record {
  peers = [];
  peer_states = [];
  messages = [];
  last_audio = [];
  received_files = [];
  our_role = peer;
  known_pubkeys = [];
}

unfoldable pub set_our_role : AppState → Role → AppState
set_our_role s role = record s { our_role = role }

-- `list.push(msg)`, then `list.drain(0..100)` where it has passed a thousand
unfoldable pub push_message : List Text → Text → List Text
push_message list msg =
    let all = list ++ msg ∷ [] in if ltb 1000 (length all) then drop 100 all else all

unfoldable pub add_message : AppState → Text → Text → AppState
add_message s channel msg = record s {
  messages =
      Dict.insert s.messages channel (push_message (or_else (Dict.get s.messages channel) []) msg);
}

-- What follows the first "] " of a line.
unfoldable pub after_bracket : Text → Option Text
after_bracket [] = none
after_bracket (c ∷ []) = none
after_bracket (c ∷ d ∷ s) =
    let rest = after_bracket (d ∷ s) in if eqb (c ∷ d ∷ []) (b']' ∷ b' ' ∷ []) then some s else rest

-- `load_history`: `lines` are the lines of the channel's file.
unfoldable pub load_history : AppState → Text → ℕ → List Text → AppState
load_history s channel max_lines lines =
    let list = or_else (Dict.get s.messages channel) [] in
    let start = length lines - max_lines in
    let loaded = map (λ line. or_else (after_bracket line) line) (drop start lines) in
    record s {
      messages = Dict.insert s.messages channel (if eqb (length list) 0 then loaded else list);
    }

abbrev pub existing_role : Option PeerState → Role
existing_role none = peer
existing_role (some s) = s.role

abbrev pub existing_conn_state : Option PeerState → ConnState
existing_conn_state none = connecting
existing_conn_state (some s) = s.conn_state

abbrev pub existing_started : Option PeerState → Option ℕ
existing_started none = none
existing_started (some s) = s.conn_started

unfoldable pub update_peer_state : AppState → Text → Bool → Bool → AppState
update_peer_state s nick is_connected speaking =
    let existing = Dict.get s.peer_states nick in
    record s {
      peer_states = Dict.insert s.peer_states nick (record {
        nickname = nick;
        connected = is_connected;
        speaking = speaking;
        role = existing_role existing;
        conn_state = if is_connected then connected else existing_conn_state existing;
        conn_started = existing_started existing;
      });
    }

-- The entry that a peer gets at its first mention.
abbrev pub fresh_peer : Text → PeerState
fresh_peer nick = record {
  nickname = nick;
  connected = false;
  speaking = false;
  role = peer;
  conn_state = connecting;
  conn_started = none;
}

unfoldable pub set_peer_connecting : AppState → Text → ℕ → AppState
set_peer_connecting s nick now =
    let ps = or_else (Dict.get s.peer_states nick) (fresh_peer nick) in
    record s {
      peer_states =
          Dict.insert s.peer_states nick
            (record ps { conn_state = connecting; conn_started = some now });
    }

abbrev pub in_state : PeerState → ConnState → PeerState
in_state ps state = record ps {
  conn_state = state;
  connected = elim state [ connected ↦ true | _ ↦ ps.connected ];
}

unfoldable pub set_peer_conn_state : AppState → Text → ConnState → AppState
set_peer_conn_state s nick state = elim (Dict.get s.peer_states nick) [
  | none ↦ s
  | some ps ↦ record s { peer_states = Dict.insert s.peer_states nick (in_state ps state) }
]

unfoldable pub set_peer_role : AppState → Text → Role → AppState
set_peer_role s nick role =
    let ps = or_else (Dict.get s.peer_states nick) (fresh_peer nick) in
    record s { peer_states = Dict.insert s.peer_states nick (record ps { role = role }) }

unfoldable pub get_peer_role : AppState → Text → Role
get_peer_role s nick = existing_role (Dict.get s.peer_states nick)

superpeer_nicks : Dict Text PeerState → List Text
superpeer_nicks [] = []
superpeer_nicks ((k, ps) ∷ m) =
    let rest = superpeer_nicks m in if is_superpeer ps.role then ps.nickname ∷ rest else rest

unfoldable pub all_superpeers : AppState → List Text
unfolding superpeer_nicks
all_superpeers s = superpeer_nicks s.peer_states

unfoldable pub mark_speaking : AppState → Text → ℕ → AppState
mark_speaking s nick now = record s { last_audio = Dict.insert s.last_audio nick now }

-- `Duration::from_millis(400)` and `Duration::from_secs(10)`
abbrev pub speaking_window : ℕ
speaking_window = 400 * 1_000_000

abbrev pub connect_timeout : ℕ
connect_timeout = 10 * 1_000_000_000

abbrev is_recent : ℕ → Option ℕ → Bool
is_recent clock none = false
is_recent clock (some t) = ltb (clock - t) speaking_window

abbrev timed_out : ℕ → ConnState → Option ℕ → ConnState
timed_out now connecting (some started) =
    if ltb connect_timeout (now - started) then nat_issue else connecting
timed_out now state _ = state

unfoldable pub refresh_peer : AppState → ℕ → (Text → ℕ) → Text → PeerState → PeerState
refresh_peer s now clock nick ps = record ps {
  speaking = is_recent (clock nick) (Dict.get s.last_audio nick);
  conn_state = timed_out now ps.conn_state ps.conn_started;
}

-- `refresh_speaking`: `clock nick` is the time that `elapsed` reads at that entry.
unfoldable pub refresh_speaking : AppState → ℕ → (Text → ℕ) → AppState
refresh_speaking s now clock = record s {
  peer_states = Dict.map_values (refresh_peer s now clock) s.peer_states;
}

unfoldable pub remove_peer : AppState → Text → AppState
remove_peer s nick = record s {
  peers = Dict.remove s.peers nick;
  peer_states = Dict.remove s.peer_states nick;
  last_audio = Dict.remove s.last_audio nick;
  known_pubkeys = Dict.remove s.known_pubkeys nick;
}

unfoldable pub clear_peers : AppState → AppState
clear_peers s = record s { peers = []; peer_states = []; last_audio = []; known_pubkeys = [] }

unfoldable pub add_received_file : AppState → Text → Text → ℕ → Text → AppState
add_received_file s sender name size path = record s {
  received_files =
      s.received_files ++ record { sender = sender; name = name; size = size; path = path } ∷ [];
}

-- Whether a key is known under the nick, and is another one.
abbrev pub conflicts : Option Text → Text → Bool
conflicts none pubkey = false
conflicts (some existing) pubkey = if eqb existing pubkey then false else true

unfoldable pub register_peer_pubkey : AppState → Text → Text → AppState × Bool
register_peer_pubkey s nick pubkey =
    if conflicts (Dict.get s.known_pubkeys nick) pubkey
    then (s, false)
    else (record s { known_pubkeys = Dict.insert s.known_pubkeys nick pubkey }, true)

unfoldable pub pubkey_for_nick : AppState → Text → Option Text
pubkey_for_nick s nick = Dict.get s.known_pubkeys nick

unfoldable pub trusted_keys_snapshot : AppState → Dict Text Text
trusted_keys_snapshot s = s.known_pubkeys
