-- ===== src/Upnp.antt =====
-- src/upnp.rs: the port and the addresses of a host. The crate `igd` and the sockets are not modelled:
-- what a gateway and the service answer is an argument. An error has its message.
pub mod Lookup
use voirc.Base.{
  ℕ, Bool, true, false, Option, none, some, List, [], ◌∷◌, ◌++◌, Text, if◌then◌else◌, length, drop,
  ◌==◌,
}
use voirc.Strings.{lit, trim, split, starts_with}
use voirc.Strings.Decimal.{to_dec}
use voirc.Config.{NetDiagnostics}

pub data Outcome (A : Type 0) : Type 0 where
  ok : A → Outcome A
  err : Text → Outcome A

-- A gateway: the answer to `add_port`, and to `get_external_ip`.
pub record Gateway : Type 0 where
  pub add_port : ℕ → Text → Outcome Unit
  pub get_external_ip : Outcome Text

-- The diagnostics of the state, where there is one
unfoldable pub noted :
    (NetDiagnostics → NetDiagnostics) → Option NetDiagnostics → Option NetDiagnostics
noted change none = none
noted change (some d) = some (change d)

unfoldable pub mapping_added :
    ℕ → Option NetDiagnostics → Outcome Unit → Option NetDiagnostics × Outcome Unit
unfolding noted
mapping_added port state (ok u) = (
  noted
      (λ d. record d {
        upnp_status = some (lit "Port " ++ (to_dec port ++ lit " forwarded"));
        port_open = some true;
      })
      state,
  ok u,
)
mapping_added port state (err e) = (
  noted
      (λ d. record d {
        upnp_status = some (lit "Port mapping failed: " ++ e);
        port_open = some false;
      })
      state,
  err (lit "UPnP port mapping failed: " ++ e),
)

unfoldable pub add_mapping :
    Gateway → ℕ → Option NetDiagnostics → Outcome Text → Option NetDiagnostics × Outcome Unit
unfolding mapping_added
add_mapping gateway port state (ok local) = mapping_added port state (gateway.add_port port local)
add_mapping gateway port state (err e) = (state, err e)

unfoldable pub forward_port :
    Outcome Gateway
    → Outcome Text
    → ℕ
    → Option NetDiagnostics
    → Option NetDiagnostics × Outcome Unit
unfolding noted add_mapping
forward_port (ok gateway) local_ip port state =
    add_mapping gateway port
      (noted (λ d. record d { upnp_status = some (lit "Gateway found") }) state) local_ip
forward_port (err e) local_ip port state = (
  noted (λ d. record d { upnp_status = some (lit "Not available: " ++ e); port_open = some false })
      state,
  err (lit "UPnP not available: " ++ e),
)

-- what follows the first empty line of a response
unfoldable pub body_of : Text → Option Text
body_of [] = none
body_of (c ∷ s) =
    let rest = body_of s in
    if starts_with (lit "\r\n\r\n") (c ∷ s) then some (drop 4 (c ∷ s)) else rest

-- the part of `fetch_public_ip_http` that reads the response
unfoldable pub read_response : Option Text → Outcome Text
read_response none = err (lit "Failed to parse IP from HTTP response")
read_response (some body) =
    let ip = trim body in
    if length (split b'.' ip) == 4 then ok ip else err (lit "Failed to parse IP from HTTP response")

unfoldable pub fetch_public_ip_http : Outcome Text → Outcome Text
unfolding body_of read_response
fetch_public_ip_http (ok response) = read_response (body_of response)
fetch_public_ip_http (err e) = err e

abbrev set_external : Text → Option NetDiagnostics → Option NetDiagnostics
set_external ip state = noted (λ d. record d { external_ip = some ip }) state

abbrev note_local : Outcome Text → Option NetDiagnostics → Option NetDiagnostics
note_local (ok ip) state = noted (λ d. record d { local_ip = some ip }) state
note_local (err e) state = state

-- `gateway.get_external_ip`, where a gateway is found
unfoldable pub asked_gateway : Outcome Gateway → Outcome Text
asked_gateway (ok gateway) = gateway.get_external_ip
asked_gateway (err e) = err e

unfoldable pub fall_back :
    Option NetDiagnostics → Outcome Text → Outcome Text → Option NetDiagnostics × Outcome Text
fall_back state (ok ip) local_ip = (set_external ip state, ok ip)
fall_back state (err e) local_ip = (state, local_ip)

unfoldable pub external_ip_from :
    Option NetDiagnostics
    → Outcome Text
    → Outcome Text
    → Outcome Text
    → Option NetDiagnostics × Outcome Text
unfolding fall_back
external_ip_from state (ok ip) http local_ip = (set_external ip state, ok ip)
external_ip_from state (err e) http local_ip = fall_back state http local_ip

unfoldable pub get_external_ip :
    Outcome Gateway
    → Outcome Text
    → Outcome Text
    → Option NetDiagnostics
    → Option NetDiagnostics × Outcome Text
unfolding noted external_ip_from fetch_public_ip_http asked_gateway
get_external_ip gateway response local_ip state =
    external_ip_from (note_local local_ip state) (asked_gateway gateway)
      (fetch_public_ip_http response) local_ip
