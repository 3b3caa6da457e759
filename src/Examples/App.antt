-- ===== src/Examples/App.antt =====
-- The application of src/gui.rs, certificates and addresses.
use voirc.Base.{
  keep, Text, ◌≡◌, ◌⊎◌, ◌↔◌, ◌+◌, refl, true, false, none, some, [], ◌∷◌, text_eq, text_beq, arith,
  List,
}
use voirc.Dict.{mapped, and_then}
use voirc.Strings.{len, starts_with, trim, lit, split}
use voirc.Strings.Decimal.{parse}
use voirc.Examples.Log.{toy-IsSound}
use voirc.Config.{default, NetDiagnostics}
use voirc.MagicLink.{
  from_magic_link-to_magic_link, with_default, from_magic_link, to_magic_link, wire_of, Codec,
}
use voirc.Session.Chat.{join_path}
use voirc.Tls.{CertInfo, Disk, info_of, client_config_pinned, verify_server_cert, load_or_generate}
use voirc.Tls.Pinning.{verify_server_cert-pinned}
use voirc.Upnp.{Outcome, ok, err, get_external_ip}
use voirc.App.{
  App, Outside, run_tls_server, run_relay, forward_port, join_prompt, parse_channels, start_hosting,
}
use voirc.App.Joining.{joined, IsInCall, IsStuck, joined-IsInCall}
use voirc.App.Hosting.{hosted, start_hosting-link}
use voirc.Examples.{toy, key, alice}
use voirc.MagicLink.Wire.{serialize}
use voirc.Examples.Client.{codec, home, home-IsTyped, decode-encode, encode-no_space}

abbrev cert : CertInfo
cert = record { cert_der = 1 ∷ []; key_der = 2 ∷ []; fingerprint = lit "f" }

abbrev pub outside : Outside
outside = record {
  sha256 = toy.sha256;
  pubkey_hex = some key;
  cert_info = some cert;
  codec = codec;
  link_error = lit "bad";
  now = lit "t";
  mixer = true;
  output = true;
}

abbrev pub app : App
app = record {
  config = default alice;
  screen = join_prompt;
  host_port = lit "6667";
  host_channels = lit "#general, gaming";
  host_error = none;
  host_link = none;
  link_copied = false;
  join_input = to_magic_link codec home;
  join_error = none;
  pending_pow_bits = 0;
  mining_in_progress = false;
  pending_connect = none;
  host_pow_bits = 16;
  mine_result = none;
  call_state = none;
  tasks = [];
}

link_reads : from_magic_link codec app.join_input ≡ some (with_default home)
link_reads =
    from_magic_link-to_magic_link codec home
      (record { decode-encode = decode-encode; no_space = encode-no_space }) home-IsTyped refl
      (omega arith)

joined-IsInCall_example :
    IsInCall outside app key (with_default home) (joined outside app)
    ⊎ IsStuck outside app key (with_default home) (joined outside app)
joined-IsInCall_example =
    joined-IsInCall outside app key (with_default home) refl refl refl link_reads refl

abbrev channels : List Text
channels = lit "#gaming" ∷ []

port_reads : parse 65535 app.host_port ≡ some 6667
unfolding parse
port_reads = refl

channels_read : parse_channels app.host_channels ≡ lit "#general" ∷ channels
unfolding parse_channels split trim starts_with len keep
channels_read = refl

-- An encoding whose JSON is the connection of the host.
abbrev host_codec : Codec
host_codec = record codec {
  from_str = λ _. some (serialize (wire_of (hosted app 6667 (lit "#general" ∷ channels) cert)));
}

abbrev host_outside : Outside
host_outside = record outside { codec = host_codec }

start_hosting-link_example :
    (and_then (start_hosting host_outside app).host_link (from_magic_link host_codec)
      ≡ some (hosted app 6667 (lit "#general" ∷ channels) cert))
    × ((start_hosting host_outside app).tasks
        ≡ run_tls_server 6667 cert 16 ∷ run_relay (6667 + 1) ∷ forward_port 6667 ∷ [])
    × ((start_hosting host_outside app).host_error ≡ none)
start_hosting-link_example =
    start_hosting-link host_outside app 6667 (lit "#general") channels cert port_reads (omega arith)
      channels_read refl (record { decode-encode = decode-encode; no_space = encode-no_space })
      (omega arith) refl (omega arith)

verify_server_cert-pinned_example :
    (verify_server_cert toy
        (client_config_pinned toy (info_of toy (1 ∷ []) (2 ∷ [])).fingerprint)
        (1 ∷ [])
      ≡ none)
    × ((verify_server_cert toy
            (client_config_pinned toy (info_of toy (1 ∷ []) (2 ∷ [])).fingerprint)
            (3 ∷ [])
          ≡ none)
        ↔ (toy.sha256 (3 ∷ []) ≡ toy.sha256 (1 ∷ [])))
verify_server_cert-pinned_example =
    verify_server_cert-pinned toy toy-IsSound (1 ∷ []) (2 ∷ []) (3 ∷ [])

abbrev disk : Disk
disk = record { files = []; readable = λ _. true; writable = λ _. true }

generated :
    (load_or_generate toy (lit "d") (some (1 ∷ [], 2 ∷ [])) disk).0
    ≡ some (info_of toy (1 ∷ []) (2 ∷ []))
unfolding load_or_generate join_path text_beq voirc.Dict.get
generated = refl

abbrev diagnostics : NetDiagnostics
diagnostics = record {
  local_ip = none;
  external_ip = none;
  upnp_status = none;
  turn_configured = 0;
  relay_enabled = false;
  relay_port = none;
  port_open = none;
}

abbrev response : Outcome Text
response = ok (lit "HTTP/1.1 200 OK\r\n\r\n1.2.3.4\n")

address :
    (get_external_ip (err (lit "none")) response (ok (lit "10.0.0.2")) (some diagnostics)).1
    ≡ ok (lit "1.2.3.4")
unfolding get_external_ip starts_with trim split
address = refl
