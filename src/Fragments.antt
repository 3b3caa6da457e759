-- ===== src/Fragments.antt =====
-- src/irc_client.rs: signals that are longer than a line, sent in fragments and put together again.
-- `now` is the time in seconds since some start.
pub mod Wire
pub mod Assembly
use voirc.Base.{
  ℕ, zero, suc, ◌+◌, ◌-◌, ◌*◌, ◌/◌, Bool, true, false, not, ◌||◌, Option, none, some, List, [], ◌∷◌,
  ◌++◌, Text, text_eq, nat_eq, eqb, length, take, drop, map, ltb, ◌==◌, if◌then◌else◌,
}
use voirc.Dict
use voirc.Dict.{Dict, or_else, and_then}
use voirc.Strings.{lit, as_bytes, len, strip_prefix, split_once, split}
use voirc.Strings.Decimal.{to_dec, parse, usize_max}
use voirc.Strings.Lossy.{from_utf8_lossy}

pub record FragmentBuffer : Type 0 where
  pub parts : Dict ℕ Text
  pub total : ℕ
  pub last_update : ℕ

abbrev pub Buffers : Type 0
Buffers = Dict Text FragmentBuffer

-- `IrcEvent::WebRtcSignal`
pub record Signal : Type 0 where
  pub sender : Text
  pub payload : Text

abbrev pub chunk_size : ℕ
chunk_size = 400

-- `chunks(chunk_size)`; `f` bounds how many there are
chunks_from : ℕ → List ℕ → List (List ℕ)
chunks_from zero bytes = []
chunks_from (suc f) [] = []
chunks_from (suc f) (b ∷ bytes) =
    take chunk_size (b ∷ bytes) ∷ chunks_from f (drop chunk_size (b ∷ bytes))

unfoldable pub chunks : List ℕ → List (List ℕ)
unfolding chunks_from
chunks bytes = chunks_from (length bytes) bytes

-- The text of one fragment, as the receiver gets it.
unfoldable pub fragment_text : ℕ → ℕ → Text → Text → Text
fragment_text seq total msg_id chunk =
    lit "WRTC:[" ++ (to_dec seq ++ b'/' ∷ (to_dec total ++ b'|' ∷ (msg_id ++ b']' ∷ chunk)))

number_from : ℕ → ℕ → Text → List (List ℕ) → List Text
number_from seq total msg_id [] = []
number_from seq total msg_id (c ∷ cs) =
    fragment_text seq total msg_id (from_utf8_lossy c) ∷ number_from (suc seq) total msg_id cs

-- `send_webrtc_signal`, without the `PRIVMSG {target} :` in front of each line; `msg_id` is the
-- beginning of a fresh uuid
unfoldable pub send_webrtc_signal : Text → Text → List Text
unfolding number_from
send_webrtc_signal msg_id payload =
    let total_chunks = (len payload + chunk_size - 1) / chunk_size in
    number_from 1 total_chunks msg_id (chunks (as_bytes payload))

-- `retain` at the start of `handle_message`
unfoldable pub expire : ℕ → Buffers → Buffers
expire now [] = []
expire now ((k, b) ∷ m) =
    let rest = expire now m in if ltb (now - b.last_update) 60 then (k, b) ∷ rest else rest

-- `for i in 1..=total` over the parts that are there; `n` parts are left, from `i` on
unfoldable pub gather : Dict ℕ Text → ℕ → ℕ → Text
gather parts zero i = []
gather parts (suc n) i = or_else (Dict.get parts i) [] ++ gather parts n (suc i)

-- the buffer after a part is put in
unfoldable pub put_part : Option FragmentBuffer → ℕ → ℕ → Text → ℕ → FragmentBuffer
put_part none seq total payload now = record {
  parts = Dict.insert [] seq payload;
  total = total;
  last_update = now;
}
put_part (some entry) seq total payload now = record entry {
  parts = Dict.insert entry.parts seq payload;
  last_update = now;
}

-- the part of `handle_fragment` that holds the lock
unfoldable pub receive_part : Buffers → ℕ → Text → Text → ℕ → ℕ → Text → Buffers × List Signal
unfolding put_part
receive_part m now sender msg_id seq total payload =
    let key = sender ++ b':' ∷ msg_id in
    let entry = put_part (Dict.get m key) seq total payload now in
    if length entry.parts == entry.total
    then (
      Dict.remove m key,
      record { sender = sender; payload = gather entry.parts entry.total 1 } ∷ [],
    )
    else (Dict.insert m key entry, [])

-- the two numbers of a header; what cannot be read is 0
abbrev read_count : Option Text → ℕ
read_count none = 0
read_count (some s) = or_else (parse usize_max s) 0

abbrev second : List Text → Option Text
second (a ∷ b ∷ _) = some b
second _ = none

abbrev head : List Text → Option Text
head [] = none
head (a ∷ _) = some a

unfoldable pub read_header : Buffers → ℕ → Text → List Text → Text → Buffers × List Signal
read_header m now sender (counts ∷ msg_id ∷ []) payload =
    let numbers = split b'/' counts in
    receive_part m now sender msg_id (read_count (head numbers)) (read_count (second numbers))
      payload
read_header m now sender _ payload = (m, [])

unfoldable pub read_content : Buffers → ℕ → Text → Option (Text × Text) → Buffers × List Signal
read_content m now sender none = (m, [])
read_content m now sender (some ([], _)) = (m, [])
read_content m now sender (some (c ∷ header, payload)) =
    if c == b'[' then read_header m now sender (split b'|' header) payload else (m, [])

unfoldable pub handle_fragment : Buffers → ℕ → Text → Text → Buffers × List Signal
handle_fragment m now sender text =
    read_content m now sender (split_once b']' (or_else (strip_prefix (lit "WRTC:") text) []))
