-- ===== src/Log.antt =====
-- src/persistence.rs: signed messages, the log of each channel, and its synchronisation.
-- The clock, the fresh uuid and whether a write to the disk succeeds are arguments. A file is the
-- list of its lines; serde_json is the record `Json`, whose texts hold no line end.
pub mod Canonical
pub mod Chain
pub mod Verify
pub mod Order
pub mod Reload
pub mod Sync
use mathlib.Core.List.{reverse}
use voirc.Base.{
  ℕ, zero, suc, ◌+◌, ◌-◌, ◌≡◌, Bool, true, false, not, ◌||◌, Option, none, some, List, [], ◌∷◌,
  ◌++◌, Text, text_eq, eqb, length, keep, take, map, if◌then◌else◌, ◌==◌,
}
use voirc.Dict
use voirc.Dict.{Dict, or_else, and_then}
use voirc.Strings.{lit, as_bytes, join}
use voirc.Crypto.{Crypto}
use voirc.Int.{ℤ, leb_ℤ, after, to_text}

abbrev pub chain_window : ℕ
chain_window = 5

abbrev pub timestamp_tolerance_secs : ℕ
timestamp_tolerance_secs = 120

pub record SignedMessage : Type 0 where
  pub id : Text
  pub author : Text
  pub pubkey : Text
  pub channel : Text
  pub content : Text
  pub timestamp : ℤ
  pub chain_hash : Text
  pub signature : Text

pub record SyncResponse : Type 0 where
  pub channel : Text
  pub messages : List SignedMessage

-- `serde_json::to_string` and `from_str` at `SignedMessage`
pub record Json : Type 0 where
  pub to_string : SignedMessage → Text
  pub from_str : Text → Option SignedMessage

pub record Identity : Type 0 where
  pub signing_key : List ℕ
  pub pubkey_hex : Text

-- `load_or_generate`, once the key is loaded or generated
unfoldable pub identity_of : Crypto → List ℕ → Identity
identity_of c signing_key = record {
  signing_key = signing_key;
  pubkey_hex = c.hex_encode (c.verifying_key signing_key);
}

unfoldable pub canonical_bytes : Text → Text → Text → Text → ℤ → Text → List ℕ
canonical_bytes id author channel content timestamp chain_hash = as_bytes (
    id
    ++ 0 ∷ (author ++ 0 ∷ (channel ++ 0 ∷ (content ++ 0 ∷ (to_text timestamp ++ 0 ∷ chain_hash)))))

-- `iter().rev().take(n)`, collected and reversed
unfoldable pub last {ℓ} : {A : Type ℓ} → ℕ → List A → List A
last n xs = reverse (take n (reverse xs))

unfoldable pub compute_chain_hash : Crypto → List ℤ → Text
compute_chain_hash c timestamps =
    c.hex_encode (c.sha256 (as_bytes (join (lit ",") (map to_text (last chain_window timestamps)))))

-- `create`, with the fresh id and the time
unfoldable pub create : Crypto → Identity → Text → ℤ → Text → Text → Text → List ℤ → SignedMessage
create c identity id timestamp author channel content recent_timestamps =
    let chain_hash = compute_chain_hash c recent_timestamps in
    record {
      id = id;
      author = author;
      pubkey = identity.pubkey_hex;
      channel = channel;
      content = content;
      timestamp = timestamp;
      chain_hash = chain_hash;
      signature = c.hex_encode (
          c.sign identity.signing_key
            (canonical_bytes id author channel content timestamp chain_hash));
    }

pub data VerifyResult : Type 0 where
  ok invalid_signature : VerifyResult
  chain_mismatch : Text → Text → VerifyResult
  future_timestamp : VerifyResult

unfoldable pub is_ok : VerifyResult → Bool
is_ok ok = true
is_ok _ = false

unfoldable pub is_suspicious : VerifyResult → Bool
is_suspicious (chain_mismatch _ _) = true
is_suspicious future_timestamp = true
is_suspicious _ = false

-- a decoded text of the right length
unfoldable pub decode_array : Crypto → ℕ → Text → Option (List ℕ)
decode_array c n text =
    and_then (c.hex_decode text) (λ bytes. if length bytes == n then some bytes else none)

unfoldable pub message_bytes : SignedMessage → List ℕ
message_bytes m = canonical_bytes m.id m.author m.channel m.content m.timestamp m.chain_hash

-- the first part of `verify`
unfoldable pub signature_valid : Crypto → SignedMessage → Bool
unfolding message_bytes
signature_valid c m = elim (decode_array c 32 m.pubkey) [
  | none ↦ false
  | some key ↦ if not (c.is_key key) then false else elim (decode_array c 64 m.signature) [
    | none ↦ false
    | some sig ↦ c.verify key (message_bytes m) sig
  ]
]

-- the third part
unfoldable pub check_time : ℤ → SignedMessage → VerifyResult
check_time now m =
    if not (leb_ℤ m.timestamp (after now timestamp_tolerance_secs)) then future_timestamp else ok

-- the second part and the third
unfoldable pub check_chain : Crypto → ℤ → SignedMessage → Option (List ℤ) → VerifyResult
check_chain c now m none = check_time now m
check_chain c now m (some timestamps) =
    let expected = compute_chain_hash c timestamps in
    if not (eqb expected m.chain_hash)
    then chain_mismatch expected m.chain_hash
    else check_time now m

unfoldable pub verify : Crypto → ℤ → SignedMessage → Option (List ℤ) → VerifyResult
unfolding signature_valid check_chain check_time
verify c now m known_timestamps =
    if not (signature_valid c m) then invalid_signature else check_chain c now m known_timestamps

-- `messages`, and the lines of each file of the directory
pub record MessageLog : Type 0 where
  pub messages : Dict Text (List SignedMessage)
  pub files : Dict Text (List Text)

abbrev pub empty_log : MessageLog
empty_log = record { messages = []; files = [] }

-- the characters that a file name may not hold
is_unsafe : ℕ → Bool
is_unsafe c =
    c == b'/'
    || c == b'\\'
    || c == b':'
    || c == b'*'
    || c == b'?'
    || c == b'"'
    || c == b'<'
    || c == b'>'
    || c == b'|'

-- `channel_path`, the file's name
unfoldable pub channel_path : Text → Text
unfolding is_unsafe
channel_path channel = map (λ c. if is_unsafe c then b'_' else c) channel ++ lit ".jsonl"

-- `sort_by_key` by the timestamp, a stable sort
unfoldable pub sort_insert : SignedMessage → List SignedMessage → List SignedMessage
sort_insert m [] = m ∷ []
sort_insert m (x ∷ xs) =
    let rest = sort_insert m xs in if leb_ℤ m.timestamp x.timestamp then m ∷ x ∷ xs else x ∷ rest

unfoldable pub sort_by_timestamp : List SignedMessage → List SignedMessage
unfolding sort_insert
sort_by_timestamp [] = []
sort_by_timestamp (m ∷ ms) = sort_insert m (sort_by_timestamp ms)

-- `filter_map` over the lines that are not empty
parse_lines : Json → List Text → List SignedMessage
parse_lines j [] = []
parse_lines j (line ∷ lines) =
    let rest = parse_lines j lines in
    if eqb line [] then rest else elim (j.from_str line) [ none ↦ rest | some m ↦ m ∷ rest ]

unfoldable pub load_channel : Json → MessageLog → Text → MessageLog
unfolding parse_lines
load_channel j log channel = elim (Dict.get log.files (channel_path channel)) [
  | none ↦ log
  | some lines ↦ record log {
    messages = Dict.insert log.messages channel (sort_by_timestamp (parse_lines j lines));
  }
]

unfoldable pub persist_message : Json → MessageLog → SignedMessage → MessageLog
persist_message j log msg =
    let path = channel_path msg.channel in
    record log {
      files =
          Dict.insert log.files path (or_else (Dict.get log.files path) [] ++ j.to_string msg ∷ []);
    }

unfoldable pub has_id : List SignedMessage → Text → Bool
has_id [] id = false
has_id (m ∷ ms) id = eqb m.id id || has_id ms id

-- the list after the message is pushed, unless its id is there
unfoldable pub add_sorted : List SignedMessage → SignedMessage → List SignedMessage
add_sorted list msg = if has_id list msg.id then list else sort_by_timestamp (list ++ msg ∷ [])

-- `append`; `written` is whether the write to the disk succeeded, and the result whether it is `Ok`
unfoldable pub append : Json → Bool → MessageLog → SignedMessage → MessageLog × Bool
append j written log msg =
    if not written
    then (log, false)
    else let log' = persist_message j log msg in
      (
        record log' {
          messages =
              Dict.insert log'.messages msg.channel
                (add_sorted (or_else (Dict.get log'.messages msg.channel) []) msg);
        },
        true,
      )

unfoldable pub get_messages : MessageLog → Text → List SignedMessage
get_messages log channel = or_else (Dict.get log.messages channel) []

unfoldable pub messages_since : MessageLog → Text → ℤ → List SignedMessage
messages_since log channel since =
    keep (λ m. not (leb_ℤ m.timestamp since)) (or_else (Dict.get log.messages channel) [])

abbrev pub timestamps : List SignedMessage → List ℤ
timestamps ms = map (λ m. m.timestamp) ms

unfoldable pub recent_timestamps : MessageLog → Text → List ℤ
recent_timestamps log channel = reverse (
    map (λ m. m.timestamp)
      (take chain_window (reverse (or_else (Dict.get log.messages channel) []))))

-- whether another key than the message's is trusted for its author
abbrev pub distrusts : Option Text → Text → Bool
distrusts none pubkey = false
distrusts (some known) pubkey = not (eqb known pubkey)

-- Whether a message of a response is handed to the log.
unfoldable pub passes : Crypto → ℤ → Dict Text Text → SignedMessage → Bool
passes c now trusted m =
    if distrusts (Dict.get trusted m.author) m.pubkey
    then false
    else elim (verify c now m none) [ invalid_signature ↦ false | _ ↦ true ]

-- The loop of `process_sync_response`; `written` says which of the appends reach the disk.
unfoldable pub process_messages :
    Crypto
    → Json
    → ℤ
    → (SignedMessage → Bool)
    → Dict Text Text
    → MessageLog
    → List SignedMessage
    → MessageLog × ℕ × ℕ
process_messages c j now written trusted log [] = (log, 0, 0)
process_messages c j now written trusted log (m ∷ ms) =
    let passed = passes c now trusted m in
    let (log', done) = if passed then append j (written m) log m else (log, false) in
    let (end, accepted, rejected) = process_messages c j now written trusted log' ms in
    (end, (if done then suc accepted else accepted), (if passed then rejected else suc rejected))

abbrev pub process_sync_response :
    Crypto
    → Json
    → ℤ
    → (SignedMessage → Bool)
    → MessageLog
    → SyncResponse
    → Dict Text Text
    → MessageLog × ℕ × ℕ
process_sync_response c j now written log response trusted_keys =
    process_messages c j now written trusted_keys log response.messages
