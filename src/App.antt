-- ===== src/App.antt =====
-- src/gui.rs: the application around a call: hosting, joining by a link, mining a nick that is strong
-- enough, and connecting. The windows are not modelled. What runs beside it is listed in `tasks`.
pub mod Joining
pub mod Hosting
pub mod Window
pub mod Screens
pub mod Settings
pub mod Display
use voirc.Base.{
  ℕ, ◌+◌, ◌%◌, ◌^◌, Bool, true, false, not, Option, none, some, List, [], ◌∷◌, ◌++◌, Text, text_eq,
  eqb, if◌then◌else◌, ltb, ◌==◌, map, keep,
}
use voirc.Dict.{or_else, mapped}
use voirc.Strings.{lit, len, trim, split, join, starts_with}
use voirc.Strings.Decimal.{to_dec, parse, u16_max}
use voirc.Config.{UserConfig, add_recent_server}
use voirc.MagicLink
use voirc.MagicLink.{
  ConnectionInfo, Codec, with_tls, with_relay, with_pow, to_magic_link, from_magic_link,
  server_address, default_channel,
}
use voirc.Pow.{
  MinedNick, check_difficulty, leading_zero_bits, nick_hash, base_name, mine_nick, time_estimate,
}
use voirc.Tls.{CertInfo}

pub data Screen : Type 0 where
  dashboard host_setup join_prompt settings recent_servers in_call : Screen

-- A call that was begun: its connection, and the nick under which it is made.
pub record Call : Type 0 where
  pub nickname : Text
  pub conn_info : ConnectionInfo
  pub is_host : Bool

pub data Task : Type 0 where
  run_server : ℕ → ℕ → Task
  run_tls_server : ℕ → CertInfo → ℕ → Task
  run_relay : ℕ → Task
  forward_port : ℕ → Task
  mine : Text → Text → ℕ → Task

-- The fields of `VoircApp` that these methods use, and what they began.
pub record App : Type 0 where
  pub config : UserConfig
  pub screen : Screen
  pub host_port : Text
  pub host_channels : Text
  pub host_error : Option Text
  pub host_link : Option Text
  pub link_copied : Bool
  pub join_input : Text
  pub join_error : Option Text
  pub pending_pow_bits : ℕ
  pub mining_in_progress : Bool
  pub pending_connect : Option (ConnectionInfo × Bool)
  pub host_pow_bits : ℕ
  pub mine_result : Option MinedNick
  pub call_state : Option Call
  pub tasks : List Task

-- What is outside: the hash, the public key of the identity and the certificate, where they can be
-- loaded, the codec of links with its errors, the time, and the audio devices.
pub record Outside : Type 0 where
  pub sha256 : List ℕ → List ℕ
  pub pubkey_hex : Option Text
  pub cert_info : Option CertInfo
  pub codec : Codec
  pub link_error : Text
  pub now : Text
  pub mixer : Bool
  pub output : Bool

abbrev pub spawn : App → Task → App
spawn a t = record a { tasks = a.tasks ++ t ∷ [] }

-- the name under which a server is remembered
server_name : ConnectionInfo → Bool → Text
server_name info is_host =
    let channels = join (lit ", ") info.channels in
    if is_host
    then lit "My Server (" ++ (channels ++ lit ")")
    else info.host ++ (lit " (" ++ (channels ++ lit ")"))

-- `connect_to_server`, up to the task that connects
unfoldable pub connect_to_server : Outside → App → ConnectionInfo → Bool → App
unfolding server_name
connect_to_server o a info is_host =
    let a1 = record a {
      config =
          add_recent_server a.config (server_name info is_host) (to_magic_link o.codec info) o.now;
    } in
    let call : Call = record {
      nickname = a.config.display_name;
      conn_info = info;
      is_host = is_host;
    } in
    if not o.mixer
    then a1
    else if not o.output
    then a1
    else record a1 { call_state = some call; screen = in_call }

-- the channels that a host named
unfoldable pub parse_channels : Text → List Text
parse_channels text =
    keep (λ s. ltb 1 (len s))
      (map (λ part. let s = trim part in if starts_with (lit "#") s then s else b'#' ∷ s)
        (split b',' text))

-- `u16` arithmetic of a release build
abbrev pub relay_port_of : ℕ → ℕ
relay_port_of port = (port + 1) % 2 ^ 16

unfoldable pub start_plaintext : Outside → App → ℕ → List Text → App
start_plaintext o a port channels = record (spawn a (run_server port 0)) {
  host_link = some (to_magic_link o.codec (MagicLink.new (lit "127.0.0.1") port channels));
  link_copied = false;
  host_error = none;
}

unfoldable pub start_tls : Outside → App → ℕ → List Text → CertInfo → App
start_tls o a port channels cert =
    let pow_bits = a.host_pow_bits in
    let a1 =
      spawn (spawn (spawn a (run_tls_server port cert pow_bits)) (run_relay (relay_port_of port)))
        (forward_port port) in
    let info = MagicLink.new (lit "127.0.0.1") port channels in
    record a1 {
      config = record a.config { pow_required_bits = pow_bits };
      host_link = some (
          to_magic_link o.codec
            (with_pow (with_relay (with_tls info cert.fingerprint) (relay_port_of port)) pow_bits));
      link_copied = false;
      host_error = none;
    }

unfoldable pub host_with : Outside → App → ℕ → List Text → Option CertInfo → App
unfolding start_plaintext start_tls
host_with o a port [] cert = record a { host_error = some (lit "Need at least one channel") }
host_with o a port (ch ∷ channels) none = start_plaintext o a port (ch ∷ channels)
host_with o a port (ch ∷ channels) (some cert) = start_tls o a port (ch ∷ channels) cert

unfoldable pub host_on : Outside → App → Option ℕ → App
unfolding host_with parse_channels
host_on o a none = record a { host_error = some (lit "Invalid port number") }
host_on o a (some port) = host_with o a port (parse_channels a.host_channels) o.cert_info

unfoldable pub start_hosting : Outside → App → App
unfolding host_on
start_hosting o a = host_on o a (parse u16_max a.host_port)

-- whether the nick is strong enough as it is
unfoldable pub nick_ok : Outside → App → ℕ → Bool
nick_ok o a required =
    or_else
      (mapped (λ key. check_difficulty o.sha256 a.config.display_name key required) o.pubkey_hex)
      false

-- the part of `join_room` that mines first
unfoldable pub mine_first : Outside → App → ConnectionInfo → App
mine_first o a info =
    let required = info.pow_required_bits in
    let actual_bits =
      or_else
        (mapped (λ key. leading_zero_bits (nick_hash o.sha256 a.config.display_name key))
          o.pubkey_hex)
        0 in
    spawn
      (record a {
        pending_pow_bits = required;
        pending_connect = some (info, false);
        mining_in_progress = true;
        join_error = some (
            lit "Your nick has "
            ++ (to_dec actual_bits
                ++ (lit " PoW bits but this server requires "
                    ++ (to_dec required
                        ++ (lit ". Mining a new nick (~"
                            ++ (time_estimate required ++ lit ")…"))))));
      })
      (mine (base_name a.config.display_name) (or_else o.pubkey_hex []) required)

unfoldable pub join_with : Outside → App → Option ConnectionInfo → App
unfolding nick_ok mine_first connect_to_server
join_with o a none = record a { join_error = some (lit "Invalid link: " ++ o.link_error) }
join_with o a (some info) =
    if info.pow_required_bits == 0
    then connect_to_server o a info false
    else if nick_ok o a info.pow_required_bits
    then connect_to_server o a info false
    else mine_first o a info

unfoldable pub join_room : Outside → App → App
unfolding join_with
join_room o a = join_with o a (from_magic_link o.codec a.join_input)

-- the end of the search of the task that mines
unfoldable pub mined : Outside → App → Text → Text → ℕ → App
mined o a base pubkey required = record a {
  mine_result = mine_nick o.sha256 base pubkey required 200_000_000;
}

-- The end of a task that was begun; only the one that mines leaves anything in the application.
unfoldable pub finish_task : Outside → App → Task → App
unfolding mined
finish_task o a (mine base pubkey required) = mined o a base pubkey required
finish_task o a _ = a

unfoldable pub finish_tasks : Outside → App → List Task → App
unfolding finish_task
finish_tasks o a [] = a
finish_tasks o a (t ∷ ts) = finish_tasks o (finish_task o a t) ts

unfoldable pub connect_pending : Outside → App → Option (ConnectionInfo × Bool) → App
unfolding connect_to_server
connect_pending o a none = a
connect_pending o a (some (info, is_host)) =
    connect_to_server o (record a { pending_connect = none }) info is_host

unfoldable pub take_mined : Outside → App → Option MinedNick → App
unfolding connect_pending
take_mined o a none = a
take_mined o a (some m) =
    connect_pending o
      (record a {
        mine_result = none;
        mining_in_progress = false;
        config = record a.config { display_name = m.nick };
        join_error = some (
            lit "✓ New nick '"
            ++ (m.nick ++ (lit "' (" ++ (to_dec m.bits ++ lit " bits). Connecting…"))));
      })
      a.pending_connect

-- `update`, as far as it draws nothing
unfoldable pub update : Outside → App → App
unfolding take_mined
update o a = take_mined o a a.mine_result
