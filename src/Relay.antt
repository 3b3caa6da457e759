-- ===== src/Relay.antt =====
-- src/relay.rs: the audio relay, its wire format on both sides, and the clients it forwards to.
-- A connection is the list of the bytes that arrive until it ends or fails; sockets, tasks and logs
-- are not modelled. A client's channel never fails here, as its receiver lives until the clean-up.
pub mod Framing
use voirc.Base.{
  ℕ, zero, suc, ◌+◌, ◌*◌, ◌/◌, ◌%◌, Bool, true, false, not, ◌||◌, Option, none, some, List, [], ◌∷◌,
  ◌++◌, Text, text_eq, eqb, ◌==◌, ltb, length, if◌then◌else◌, keep, map,
}
use voirc.Dict
use voirc.Dict.{Dict}
use voirc.Strings.{as_bytes, len}
use voirc.Strings.Lossy.{from_utf8_lossy}
use voirc.Server.{Addr, addr_eq}

-- `RelayClient` without its channel
abbrev pub RelayClient : Type 0
RelayClient = Text

pub record RelayState : Type 0 where
  pub clients : Dict Addr RelayClient

-- `read_exact` of n bytes, and what is left
unfoldable pub read_exact : ℕ → List ℕ → Option (List ℕ × List ℕ)
read_exact zero s = some ([], s)
read_exact (suc n) [] = none
read_exact (suc n) (a ∷ s) = elim (read_exact n s) [
  | none ↦ none
  | some (t, rest) ↦ some (a ∷ t, rest)
]

-- a block with its length checked: empty and too long ones end the connection
unfoldable pub read_block : ℕ → ℕ → List ℕ → Option (List ℕ × List ℕ)
read_block limit n s = if n == 0 || ltb limit n then none else read_exact n s

abbrev pub max_nick : ℕ
max_nick = 64

abbrev pub max_payload : ℕ
max_payload = 4096

-- `read_u8` and the nick that it announces
unfoldable pub read_nick : List ℕ → Option (List ℕ × List ℕ)
read_nick [] = none
read_nick (n ∷ s) = read_block max_nick n s

-- `read_u16` and the payload that it announces
unfoldable pub read_payload : List ℕ → Option (List ℕ × List ℕ)
read_payload [] = none
read_payload (a ∷ []) = none
read_payload (a ∷ b ∷ s) = read_block max_payload (a * 256 + b) s

-- `to_be_bytes` of a `u16`, to which the source casts the length
unfoldable pub be_bytes : ℕ → List ℕ
be_bytes n = (n / 256) % 256 ∷ n % 256 ∷ []

-- the frame that the relay builds
unfoldable pub relay_frame : Text → List ℕ → List ℕ
relay_frame nick payload =
    len nick % 256 ∷ (as_bytes nick ++ (be_bytes (length payload) ++ payload))

-- the bytes of `send_audio`, and of the handshake that `connect` sends
unfoldable pub send_audio : List ℕ → List ℕ
send_audio bytes = be_bytes (length bytes) ++ bytes

unfoldable pub send_handshake : Text → List ℕ
send_handshake nick = len nick % 256 ∷ as_bytes nick

-- The loop of the relay's reader: the frames that it makes of what one client sends. Each turn takes
-- bytes, so that their number is fuel enough.
unfoldable pub relay_loop : ℕ → Text → List ℕ → List (List ℕ)
relay_loop zero nick s = []
relay_loop (suc fuel) nick s = elim (read_payload s) [
  | none ↦ []
  | some (payload, rest) ↦ relay_frame nick payload ∷ relay_loop fuel nick rest
]

-- `handle_relay_client` up to the clean-up: the nick, and the frames to forward
unfoldable pub serve : List ℕ → Option (Text × List (List ℕ))
serve s = elim (read_nick s) [
  | none ↦ none
  | some (nick_buf, rest) ↦
      some (from_utf8_lossy nick_buf, relay_loop (length rest) (from_utf8_lossy nick_buf) rest)
]

unfoldable pub enter : RelayState → Addr → Text → RelayState
enter s addr nick = record { clients = Dict.insert s.clients addr nick }

unfoldable pub leave : RelayState → Addr → RelayState
leave s addr = record { clients = Dict.remove s.clients addr }

-- whom a frame from `addr` is sent to
unfoldable pub receivers : Dict Addr RelayClient → Addr → List Addr
receivers [] addr = []
receivers ((a, c) ∷ clients) addr =
    let rest = receivers clients addr in if not (eqb a addr) then a ∷ rest else rest

-- The loop of the client's reader: the senders and payloads that it hands on.
unfoldable pub receive_frame : List ℕ → Option ((Text × List ℕ) × List ℕ)
receive_frame s = elim (read_nick s) [
  | none ↦ none
  | some (nick_buf, rest) ↦ elim (read_payload rest) [
    | none ↦ none
    | some (payload, left) ↦ some ((from_utf8_lossy nick_buf, payload), left)
  ]
]

unfoldable pub receive_loop : ℕ → List ℕ → List (Text × List ℕ)
receive_loop zero s = []
receive_loop (suc fuel) s = elim (receive_frame s) [
  | none ↦ []
  | some (audio, rest) ↦ audio ∷ receive_loop fuel rest
]

unfoldable pub receive : List ℕ → List (Text × List ℕ)
unfolding receive_loop
receive s = receive_loop (length s) s

unfoldable pub concat : List (List ℕ) → List ℕ
concat [] = []
concat (x ∷ xs) = x ++ concat xs
