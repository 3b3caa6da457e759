-- ===== src/WebrtcPeer/Files.antt =====
-- Files over a data channel: `send_file` and `setup_dc_receive` of src/webrtc_peer.rs.
use voirc.Base.{
  ℕ, zero, suc, Bool, true, false, Option, none, some, List, [], ◌∷◌, ◌++◌, Text, text_eq, eqb,
  if◌then◌else◌, ltb, ◌==◌, length, take, drop,
}
use voirc.Dict.{or_else}
use voirc.Strings.{lit, as_bytes, trim, strip_prefix}
use voirc.Strings.Decimal.{to_dec, parse, usize_max}
use voirc.Strings.Lossy.{from_utf8_lossy}
use voirc.Session.Chat.{ReceivedFile}

-- `DataChannelMessage`
pub record DataChannelMessage : Type 0 where
  pub is_string : Bool
  pub bytes : List ℕ

pub record InFlightFile : Type 0 where
  pub name : Text
  pub bytes : List ℕ

-- `rsplit_once(c)`: the parts before and after the last `c`
unfoldable pub rsplit_once : ℕ → Text → Option (Text × Text)
rsplit_once c [] = none
rsplit_once c (d ∷ s) = elim (rsplit_once c s) [
  | none ↦ if d == c then some ([], s) else none
  | some (a, b) ↦ some (d ∷ a, b)
]

-- What a handler leaves: the file in flight, and the files that are complete. `none` is a panic.
abbrev pub Handled : Type 0
Handled = Option (Option InFlightFile × List ReceivedFile)

-- `Vec::with_capacity(size)` panics on more bytes than an `isize` counts.
unfoldable pub with_capacity : ℕ → Text → Handled
with_capacity size name =
    if ltb 9223372036854775807 size
    then none
    else some (some (record { name = name; bytes = [] }), [])

unfoldable pub begin_file : Option InFlightFile → Option (Text × Text) → Handled
unfolding with_capacity
begin_file in_flight none = some (in_flight, [])
begin_file in_flight (some (name, size_str)) =
    with_capacity (or_else (parse usize_max size_str) 0) name

unfoldable pub end_file : Text → Option InFlightFile → Handled
end_file nick none = some (none, [])
end_file nick (some file) =
    some (none, record { sender = nick; name = file.name; bytes = file.bytes } ∷ [])

unfoldable pub on_text : Text → Option InFlightFile → Text → Option Text → Handled
unfolding begin_file rsplit_once end_file
on_text nick in_flight text (some rest) = begin_file in_flight (rsplit_once b':' rest)
on_text nick in_flight text none =
    if eqb (trim text) (lit "FILE_END") then end_file nick in_flight else some (in_flight, [])

unfoldable pub on_bytes : Option InFlightFile → List ℕ → Handled
on_bytes none bytes = some (none, [])
on_bytes (some file) bytes = some (some (record file { bytes = file.bytes ++ bytes }), [])

unfoldable pub on_message : Text → Option InFlightFile → DataChannelMessage → Handled
unfolding on_text on_bytes
on_message nick in_flight msg =
    let text = from_utf8_lossy msg.bytes in
    if msg.is_string
    then on_text nick in_flight text (strip_prefix (lit "FILE:") text)
    else on_bytes in_flight msg.bytes

-- messages in their order, up to a panic
unfoldable pub receive_all : Text → Option InFlightFile → List DataChannelMessage → Handled
unfolding on_message
receive_all nick in_flight [] = some (in_flight, [])
receive_all nick in_flight (msg ∷ msgs) = elim (on_message nick in_flight msg) [
  | none ↦ none
  | some (next, files) ↦ elim (receive_all nick next msgs) [
    | none ↦ none
    | some (end, rest) ↦ some (end, files ++ rest)
  ]
]

-- `data.chunks(size)`; the length of the data is fuel enough
unfoldable pub chunks : ℕ → ℕ → List ℕ → List (List ℕ)
chunks size zero bytes = []
chunks size (suc fuel) [] = []
chunks size (suc fuel) (b ∷ bytes) =
    take size (b ∷ bytes) ∷ chunks size fuel (drop size (b ∷ bytes))

abbrev pub text_message : Text → DataChannelMessage
text_message text = record { is_string = true; bytes = as_bytes text }

unfoldable pub binary_then_end : List (List ℕ) → List DataChannelMessage
binary_then_end [] = text_message (lit "FILE_END") ∷ []
binary_then_end (chunk ∷ cs) = record { is_string = false; bytes = chunk } ∷ binary_then_end cs

-- A channel that takes `n` messages before a send fails: what it took, and whether that is all.
unfoldable pub send_all : ℕ → List DataChannelMessage → List DataChannelMessage × Bool
send_all n [] = ([], true)
send_all zero (msg ∷ msgs) = ([], false)
send_all (suc n) (msg ∷ msgs) = let (taken, ok) = send_all n msgs in (msg ∷ taken, ok)

unfoldable pub file_messages : Text → List ℕ → List DataChannelMessage
unfolding chunks binary_then_end
file_messages name bytes =
    text_message (lit "FILE:" ++ (name ++ b':' ∷ to_dec (length bytes)))
    ∷ binary_then_end (chunks 16384 (length bytes) bytes)

-- `send_file`, which fails on a channel that is not ready
unfoldable pub send_file : Option ℕ → Text → List ℕ → List DataChannelMessage × Bool
unfolding file_messages send_all
send_file none name bytes = ([], false)
send_file (some n) name bytes = send_all n (file_messages name bytes)
