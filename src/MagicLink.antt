-- ===== src/MagicLink.antt =====
-- src/magic_link.rs: the links that carry what is needed to connect.
-- The crates `serde_json` and `base64` are arguments: the first writes the members of an object as a text
-- and reads them. Wire has what serde makes of the records.
pub mod Wire
use voirc.Base.{
  ℕ, ◌≡◌, refl, ap, ◌∙◌, false, Option, none, some, List, [], ◌∷◌, ◌++◌, Text, text_eq, All,
}
use voirc.Dict.{or_else, and_then, mapped}
use voirc.MagicLink.Wire.{
  RawConnectionInfo, WireFormat, Members, serialize, deserialize, raw_of, IsTyped,
  deserialize-serialize,
}
use voirc.Strings.{lit, trim, strip_prefix, as_bytes, is_whitespace}
use voirc.Strings.Laws.{strip_prefix-append, trim-eq_self}
use voirc.Strings.Lossy.{from_utf8, from_utf8-as_bytes, IsAscii}
use voirc.Strings.Decimal.{to_dec}

pub record ConnectionInfo : Type 0 where
  pub host : Text
  pub port : ℕ
  pub channels : List Text
  pub cert_fingerprint : Option Text
  pub relay_port : Option ℕ
  pub pow_required_bits : ℕ

pub record Codec : Type 0 where
  pub to_string : Members → Text
  pub from_str : Text → Option Members
  pub encode : List ℕ → Text
  pub decode : Text → Option (List ℕ)

abbrev pub new : Text → ℕ → List Text → ConnectionInfo
new host port channels = record {
  host = host;
  port = port;
  channels = channels;
  cert_fingerprint = none;
  relay_port = none;
  pow_required_bits = 0;
}

abbrev pub with_tls : ConnectionInfo → Text → ConnectionInfo
with_tls info fingerprint = record info { cert_fingerprint = some fingerprint }

abbrev pub with_relay : ConnectionInfo → ℕ → ConnectionInfo
with_relay info port = record info { relay_port = some port }

abbrev pub with_pow : ConnectionInfo → ℕ → ConnectionInfo
with_pow info bits = record info { pow_required_bits = bits }

abbrev pub wire_of : ConnectionInfo → WireFormat
wire_of info = record {
  host = info.host;
  port = info.port;
  channels = info.channels;
  cert_fingerprint = info.cert_fingerprint;
  relay_port = info.relay_port;
  pow_required_bits = info.pow_required_bits;
}

-- the text of a connection
abbrev pub json_of : Codec → ConnectionInfo → Text
json_of k info = k.to_string (serialize (wire_of info))

unfoldable pub to_magic_link : Codec → ConnectionInfo → Text
to_magic_link k info = lit "voirc://" ++ k.encode (as_bytes (json_of k info))

-- the channels of a link, where an old one has a single channel and none has the default
unfoldable pub channels_of : List Text → Option Text → List Text
channels_of (c ∷ cs) _ = c ∷ cs
channels_of [] (some ch) = ch ∷ []
channels_of [] none = lit "#general" ∷ []

unfoldable pub info_of : RawConnectionInfo → ConnectionInfo
unfolding channels_of
info_of raw = record {
  host = raw.host;
  port = raw.port;
  channels = channels_of raw.channels raw.channel;
  cert_fingerprint = raw.cert_fingerprint;
  relay_port = raw.relay_port;
  pow_required_bits = raw.pow_required_bits;
}

unfoldable pub from_magic_link : Codec → Text → Option ConnectionInfo
unfolding info_of
from_magic_link k link =
    let trimmed = trim link in
    let encoded = or_else (strip_prefix (lit "voirc://") trimmed) trimmed in
    elim (k.decode encoded) [
      | none ↦ none
      | some decoded ↦ elim (from_utf8 decoded) [
        | none ↦ none
        | some json ↦ mapped info_of (and_then (k.from_str json) deserialize)
      ]
    ]

unfoldable pub server_address : ConnectionInfo → Text
server_address info = info.host ++ b':' ∷ to_dec info.port

unfoldable pub default_channel : ConnectionInfo → Text
default_channel info = elim info.channels [ [] ↦ lit "#general" | c ∷ cs ↦ c ]

-- What is documented of `base64`: there is no white space in it, and it decodes to what it encodes.
pub record IsSound (k : Codec) : Type 0 where
  pub decode-encode : (bytes : List ℕ) → k.decode (k.encode bytes) ≡ some bytes
  pub no_space : (bytes : List ℕ) → All (λ c. is_whitespace c ≡ false) (k.encode bytes)

link-no_space :
    (code : Text)
    → All (λ c. is_whitespace c ≡ false) code
    → All (λ c. is_whitespace c ≡ false) (lit "voirc://" ++ code)
unfolding is_whitespace
link-no_space code h = (refl, (refl, (refl, (refl, (refl, (refl, (refl, (refl, h))))))))

-- The connection with the default channel where it has none.
abbrev pub with_default : ConnectionInfo → ConnectionInfo
with_default info = record info { channels = channels_of info.channels none }

-- A link that was made for a connection is read back as that connection, every field of it, also those
-- that the JSON leaves out; only one without a channel is given the channel #general. The numbers fit
-- their types, the JSON is ASCII, serde_json reads the object that it wrote as the same members, and
-- base64 is as documented.
pub from_magic_link-to_magic_link :
    (k : Codec) (info : ConnectionInfo)
    → IsSound k
    → IsTyped (wire_of info)
    → k.from_str (json_of k info) ≡ some (serialize (wire_of info))
    → IsAscii (json_of k info)
    → from_magic_link k (to_magic_link k info) ≡ some (with_default info)
unfolding from_magic_link to_magic_link
from_magic_link-to_magic_link k info sound typed members ascii =
    let json : Text = json_of k info in
    let code : Text = k.encode (as_bytes json) in
    let reads : and_then (k.from_str json) deserialize ≡ some (raw_of (wire_of info)) =
      ap (λ (m : Option Members). and_then m deserialize) members
      ∙ deserialize-serialize (wire_of info) typed in
    rw
      (
        trim-eq_self (lit "voirc://" ++ code) (link-no_space code (sound.no_space (as_bytes json))),
        strip_prefix-append (lit "voirc://") code,
        sound.decode-encode (as_bytes json),
        from_utf8-as_bytes json ascii,
        from_magic_link,
      )
      (ap (mapped info_of) reads)
