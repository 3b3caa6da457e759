-- ===== src/Config.antt =====
-- src/config.rs: roles, the state of a connection, and the user's configuration.
-- The file that `save` writes, and the paths, are not modelled; the time of day is an argument.
pub mod Recent
use voirc.Base.{
  ℕ, Bool, true, false, not, Option, none, List, [], ◌∷◌, Text, eqb, text_eq, keep, take,
  if◌then◌else◌,
}
use voirc.Strings.{lit}

pub data ConnState : Type 0 where
  connecting connected nat_issue relayed failed : ConnState

-- `fmt` of `ConnState`
unfoldable pub display : ConnState → Text
display connecting = lit "connecting..."
display connected = lit "connected"
display nat_issue = lit "NAT issue - try relay"
display relayed = lit "relayed"
display failed = lit "failed"

-- The source's `Mod` is spelled out, since `mod` is a keyword here.
pub data Role : Type 0 where
  host moderator peer : Role

unfoldable pub is_superpeer : Role → Bool
is_superpeer host = true
is_superpeer moderator = true
is_superpeer peer = false

unfoldable pub can_moderate : Role → Bool
can_moderate host = true
can_moderate moderator = true
can_moderate peer = false

unfoldable pub can_promote : Role → Bool
can_promote host = true
can_promote moderator = false
can_promote peer = false

unfoldable pub as_str : Role → Text
as_str host = lit "host"
as_str moderator = lit "mod"
as_str peer = lit "peer"

unfoldable pub from_str : Text → Role
from_str s = if eqb s (lit "host") then host else if eqb s (lit "mod") then moderator else peer

pub record RecentServer : Type 0 where
  pub name : Text
  pub connection_string : Text
  pub last_connected : Text

pub record TurnServer : Type 0 where
  pub url : Text
  pub username : Text
  pub credential : Text

pub record NetDiagnostics : Type 0 where
  pub local_ip : Option Text
  pub external_ip : Option Text
  pub upnp_status : Option Text
  pub turn_configured : ℕ
  pub relay_enabled : Bool
  pub relay_port : Option ℕ
  pub port_open : Option Bool

pub record UserConfig : Type 0 where
  pub user_id : Text
  pub display_name : Text
  pub recent_servers : List RecentServer
  pub turn_servers : List TurnServer
  pub banned_users : List Text
  pub pubkey_hex : Option Text
  pub pow_required_bits : ℕ

-- `default`, with the fresh identifier that `Uuid::new_v4` gives
unfoldable pub default : Text → UserConfig
default id = record {
  user_id = id;
  display_name = lit "User";
  recent_servers = [];
  turn_servers = [];
  banned_users = [];
  pubkey_hex = none;
  pow_required_bits = 0;
}

-- `add_recent_server`; `now` is the formatted time, and the `save` at the end changes no field
unfoldable pub add_recent_server : UserConfig → Text → Text → Text → UserConfig
add_recent_server c name connection_string now = record c {
  recent_servers = take 10 (
      record { name = name; connection_string = connection_string; last_connected = now }
      ∷ keep (λ s. not (eqb s.connection_string connection_string)) c.recent_servers);
}
