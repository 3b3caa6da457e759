-- ===== src/App/Hosting.antt =====
-- Hosting in src/gui.rs: the link that a host gives away leads to the servers that were started.
use voirc.Base.{ℕ, ◌+◌, ◌%◌, ◌^◌, ◌≡◌, ◌<◌, ◌≤◌, refl, none, some, List, [], ◌∷◌, ◌++◌, Text, arith}
use voirc.Dict.{and_then}
use voirc.Strings.{lit}
use voirc.Strings.Decimal.{parse}
use voirc.Strings.Lossy.{IsAscii}
use voirc.MagicLink.{
  json_of, wire_of, channels_of, ConnectionInfo, IsSound, from_magic_link,
  from_magic_link-to_magic_link,
}
use voirc.MagicLink.Wire.{IsTyped, serialize}
use voirc.App.{
  CertInfo, App, Outside, run_tls_server, run_relay, forward_port, parse_channels, start_hosting,
  host_on, host_with, start_tls,
}

-- The connection to a host's servers.
abbrev pub hosted : App → ℕ → List Text → CertInfo → ConnectionInfo
hosted a port channels cert = record {
  host = lit "127.0.0.1";
  port = port;
  channels = channels;
  cert_fingerprint = some cert.fingerprint;
  relay_port = some (port + 1);
  pow_required_bits = a.host_pow_bits;
}

module _ (o : Outside) (a : App) (port : ℕ) (first : Text) (rest : List Text)
    (cert : CertInfo) where
  -- Hosting on a port below 65535, with a channel and a certificate, starts a TLS server on that port
  -- with the host's difficulty, a relay on the next port and the forwarding of the port, and the link
  -- that the host gets reads back as the connection to them: the same ports, channels, fingerprint and
  -- difficulty. The difficulty is a byte, the JSON of the connection is ASCII, serde_json reads the
  -- object that it wrote as the same members, and base64 is as documented.
  pub start_hosting-link :
      parse 65535 a.host_port ≡ some port
      → port < 65535
      → parse_channels a.host_channels ≡ first ∷ rest
      → o.cert_info ≡ some cert
      → IsSound o.codec
      → a.host_pow_bits ≤ 255
      → o.codec.from_str (json_of o.codec (hosted a port (first ∷ rest) cert))
        ≡ some (serialize (wire_of (hosted a port (first ∷ rest) cert)))
      → IsAscii (json_of o.codec (hosted a port (first ∷ rest) cert))
      → (and_then (start_hosting o a).host_link (from_magic_link o.codec)
          ≡ some (hosted a port (first ∷ rest) cert))
        × ((start_hosting o a).tasks
            ≡ ((a.tasks ++ run_tls_server port cert a.host_pow_bits ∷ [])
                ++ run_relay (port + 1) ∷ [])
              ++ forward_port port ∷ [])
        × ((start_hosting o a).host_error ≡ none)
  unfolding start_hosting host_on host_with start_tls channels_of
  start_hosting-link p l c k sound byte members ascii =
      let small : (port + 1) % 2 ^ 16 ≡ port + 1 = omega arith in
      let typed : IsTyped (wire_of (hosted a port (first ∷ rest) cert)) = record {
        port_fits = omega (arith, l);
        relay_fits = omega (arith, l);
        bits_fit = byte;
      } in
      rw (p, host_on)
        (rw (c, k)
          (rw small (
            from_magic_link-to_magic_link o.codec (hosted a port (first ∷ rest) cert) sound typed
                members ascii,
            refl,
            refl,
          )))
