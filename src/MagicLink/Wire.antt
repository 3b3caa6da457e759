-- ===== src/MagicLink/Wire.antt =====
-- What serde makes of the records of src/magic_link.rs: the members of a JSON object, with the
-- attributes `skip_serializing_if` and `default`.
use voirc.Base.{
  ℕ, ◌+◌, ◌≤◌, ◌≡◌, refl, Bool, true, not, ◌&&◌, Option, none, some, List, [], ◌∷◌, ◌++◌, Text,
  text_eq, text_beq, eqb, leb, if◌then◌else◌, ◌==◌, ap, Bool-cases, inl, inr, arith,
}
use voirc.Dict
use voirc.Dict.{and_then, mapped}
use voirc.Strings.{lit}
use voirc.Strings.Decimal.{u8_max, u16_max}

-- A value of JSON, as far as these records tell values apart.
pub data Value : Type 0 where
  null : Value
  string : Text → Value
  number : ℕ → Value
  strings : List Text → Value
  other : Value

-- the members of an object, in their order
abbrev pub Members : Type 0
Members = List (Text × Value)

pub record RawConnectionInfo : Type 0 where
  pub host : Text
  pub port : ℕ
  pub channels : List Text
  pub channel : Option Text
  pub cert_fingerprint : Option Text
  pub relay_port : Option ℕ
  pub pow_required_bits : ℕ

pub record WireFormat : Type 0 where
  pub host : Text
  pub port : ℕ
  pub channels : List Text
  pub cert_fingerprint : Option Text
  pub relay_port : Option ℕ
  pub pow_required_bits : ℕ

unfoldable pub is_zero : ℕ → Bool
is_zero v = v == 0

-- a member that is left out where it is none
unfoldable pub skip_none : Text → Option Value → Members
skip_none name none = []
skip_none name (some value) = (name, value) ∷ []

-- `Serialize` of `WireFormat`
unfoldable pub serialize : WireFormat → Members
unfolding skip_none is_zero
serialize w =
    (lit "host", string w.host)
    ∷ (lit "port", number w.port)
    ∷ (lit "channels", strings w.channels)
    ∷ (skip_none (lit "cert_fingerprint") (mapped string w.cert_fingerprint)
        ++ (skip_none (lit "relay_port") (mapped number w.relay_port)
            ++ (if is_zero w.pow_required_bits
                then []
                else (lit "pow_required_bits", number w.pow_required_bits) ∷ [])))

-- how often a member is there
unfoldable pub count_of : Text → Members → ℕ
count_of name [] = 0
count_of name ((k, v) ∷ members) =
    let rest = count_of name members in if eqb k name then 1 + rest else rest

-- No field is there twice, which serde refuses; other members are passed over.
unfoldable pub all_once : List Text → Members → Bool
unfolding count_of
all_once [] members = true
all_once (name ∷ names) members =
    let rest = all_once names members in leb (count_of name members) 1 && rest

abbrev pub field_names : List Text
field_names =
    lit "host"
    ∷ lit "port"
    ∷ lit "channels"
    ∷ lit "channel"
    ∷ lit "cert_fingerprint"
    ∷ lit "relay_port"
    ∷ lit "pow_required_bits"
    ∷ []

-- Values of the types of the fields; a number has to fit its type.
unfoldable pub as_text : Value → Option Text
as_text (string t) = some t
as_text _ = none

unfoldable pub as_number : ℕ → Value → Option ℕ
as_number max (number n) = if leb n max then some n else none
as_number max _ = none

unfoldable pub as_texts : Value → Option (List Text)
as_texts (strings ts) = some ts
as_texts _ = none

-- an `Option` field: null is none
unfoldable pub nullable {ℓ} : {A : Type ℓ} → (Value → Option A) → Value → Option (Option A)
nullable read null = some none
nullable read v = mapped some (read v)

-- a field with its default, where it is missing
unfoldable pub field {ℓ} : {A : Type ℓ} → Members → Text → A → (Value → Option A) → Option A
field members name default read = elim (Dict.get members name) [
  | none ↦ some default
  | some v ↦ read v
]

-- `Deserialize` of `RawConnectionInfo` from an object
unfoldable pub deserialize : Members → Option RawConnectionInfo
unfolding all_once as_text as_number as_texts nullable field
deserialize m =
    if not (all_once field_names m)
    then none
    else and_then (field m (lit "host") [] as_text) (λ host.
      and_then (field m (lit "port") 0 (as_number u16_max)) (λ port.
        and_then (field m (lit "channels") [] as_texts) (λ channels.
          and_then (field m (lit "channel") none (nullable as_text)) (λ channel.
            and_then (field m (lit "cert_fingerprint") none (nullable as_text)) (λ fingerprint.
              and_then (field m (lit "relay_port") none (nullable (as_number u16_max))) (λ relay.
                mapped
                  (λ bits. record {
                    host = host;
                    port = port;
                    channels = channels;
                    channel = channel;
                    cert_fingerprint = fingerprint;
                    relay_port = relay;
                    pow_required_bits = bits;
                  })
                  (field m (lit "pow_required_bits") 0 (as_number u8_max))))))))

-- What a written record reads back as.
abbrev pub raw_of : WireFormat → RawConnectionInfo
raw_of w = record {
  host = w.host;
  port = w.port;
  channels = w.channels;
  channel = none;
  cert_fingerprint = w.cert_fingerprint;
  relay_port = w.relay_port;
  pow_required_bits = w.pow_required_bits;
}

abbrev pub Fits : ℕ → Option ℕ → Type 0
Fits max none = Unit
Fits max (some n) = n ≤ max

-- The numbers fit `u16` and `u8`.
pub record IsTyped (w : WireFormat) : Type 0 where
  pub port_fits : w.port ≤ 65535
  pub relay_fits : Fits 65535 w.relay_port
  pub bits_fit : w.pow_required_bits ≤ 255

abbrev wire : Text → ℕ → List Text → Option Text → Option ℕ → ℕ → WireFormat
wire host port channels fingerprint relay bits = record {
  host = host;
  port = port;
  channels = channels;
  cert_fingerprint = fingerprint;
  relay_port = relay;
  pow_required_bits = bits;
}

fits_leb : (n max : ℕ) → n ≤ max → leb n max ≡ true
fits_leb n max h = ground (arith, h)

module _ (host : Text) (port : ℕ) (channels : List Text) (bits : ℕ) (p : leb port 65535 ≡ true)
    (b : leb bits 255 ≡ true) where
  ReadsBack : Option Text → Option ℕ → Type 0
  ReadsBack fingerprint relay =
      let w = wire host port channels fingerprint relay bits in
      deserialize (serialize w) ≡ some (raw_of w)

  -- bits that are left out
  left_out :
      (fingerprint : Option Text) (relay : Option ℕ)
      → (bits == 0) ≡ true
      → some (raw_of (wire host port channels fingerprint relay 0))
        ≡ some (raw_of (wire host port channels fingerprint relay bits))
  left_out fingerprint relay z =
      ap (λ n. some (raw_of (wire host port channels fingerprint relay n))) (ground (arith, z))

  read_back :
      (fingerprint : Option Text) (relay : Option ℕ)
      → Fits 65535 relay
      → ReadsBack fingerprint relay
  unfolding ReadsBack deserialize serialize Dict.get text_beq
  read_back none none fits = elim (Bool-cases (bits == 0)) [
    | inl z ↦ rw (z, p) (left_out none none z)
    | inr z ↦ rw (z, p, b) refl
  ]
  read_back (some f) none fits = elim (Bool-cases (bits == 0)) [
    | inl z ↦ rw (z, p) (left_out (some f) none z)
    | inr z ↦ rw (z, p, b) refl
  ]
  read_back none (some r) fits = elim (Bool-cases (bits == 0)) [
    | inl z ↦ rw (z, p, fits_leb r 65535 fits) (left_out none (some r) z)
    | inr z ↦ rw (z, p, fits_leb r 65535 fits, b) refl
  ]
  read_back (some f) (some r) fits = elim (Bool-cases (bits == 0)) [
    | inl z ↦ rw (z, p, fits_leb r 65535 fits) (left_out (some f) (some r) z)
    | inr z ↦ rw (z, p, fits_leb r 65535 fits, b) refl
  ]

-- What is written reads back, with the fields that were left out at their defaults.
pub deserialize-serialize :
    (w : WireFormat) → IsTyped w → deserialize (serialize w) ≡ some (raw_of w)
unfolding ReadsBack
deserialize-serialize w t =
    read_back w.host w.port w.channels w.pow_required_bits (fits_leb w.port 65535 t.port_fits)
      (fits_leb w.pow_required_bits 255 t.bits_fit) w.cert_fingerprint w.relay_port t.relay_fits
