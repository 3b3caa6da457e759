-- ===== src/Client.antt =====
-- src/irc_client.rs: what the client does with the messages that the server sends it.
-- The `irc` crate parses a line; a `Message` here is what the handler uses of the result. The text of
-- `Display` and the log lines of `tracing` are not modelled, nor are the sockets of `connect`.
pub mod Handler
pub mod Gate
pub mod History
pub mod Calls
pub mod Reader
pub mod Steps
use voirc.Base.{
  ℕ, Bool, true, false, not, ◌||◌, Option, none, some, List, [], ◌∷◌, ◌++◌, Text, text_eq, eqb,
  ◌==◌, if◌then◌else◌, length, ltb,
}
use voirc.Dict
use voirc.Dict.{or_else, and_then, is_some}
use voirc.Int.{ℤ}
use voirc.Strings.{lit, len, strip_prefix, split_once, splitn, trim, as_bytes}
use voirc.Strings.Slices.{slice_to}
use voirc.Strings.Decimal.{parse, u8_max}
use voirc.Crypto.{Crypto}
use voirc.Config.{Role, from_str}
use voirc.State.{
  AppState, register_peer_pubkey, pubkey_for_nick, set_peer_role, trusted_keys_snapshot,
}
use voirc.Log.{
  SignedMessage, SyncResponse, Json, Identity, MessageLog, append, messages_since,
  process_sync_response, verify, VerifyResult, invalid_signature, is_suspicious, decode_array,
}
use voirc.Fragments.{Buffers, Signal, handle_fragment}

-- `IrcEvent`
pub data Event : Type 0 where
  user_joined : Text → Role → Event
  user_left : Text → Event
  webrtc_signal : Signal → Event
  chat_message : Text → Text → Text → Event
  mod_action : Text → Text → Text → Event
  pow_requirement_changed : ℕ → Event
  pow_too_weak : ℕ → Event

-- `SyncRequest`
pub record SyncRequest : Type 0 where
  pub channel : Text
  pub since : ℤ

-- `serde_json` at `SyncRequest` and `SyncResponse`
pub record SyncJson : Type 0 where
  pub read_request : Text → Option SyncRequest
  pub read_response : Text → Option SyncResponse
  pub write_response : SyncResponse → Option Text

-- What the handler does not change: the crates that it calls, who we are, and, while it handles one
-- message, the time and which writes reach the disk.
pub record Context : Type 0 where
  pub crypto : Crypto
  pub json : Json
  pub sync_json : SyncJson
  pub nickname : Text
  pub identity : Option Identity
  pub now : ℤ
  pub clock : ℕ
  pub written : SignedMessage → Bool

-- What it does change.
pub record Client : Type 0 where
  pub app : AppState
  pub message_log : MessageLog
  pub fragments : Buffers
  -- whether the task that reads lines still runs
  pub reading : Bool

pub record Reaction : Type 0 where
  pub client : Client
  pub events : List Event
  pub sent : List Text

abbrev pub quiet : Client → Reaction
quiet h = record { client = h; events = []; sent = [] }

abbrev pub raising : Client → Event → Reaction
raising h e = record { client = h; events = e ∷ []; sent = [] }

unfoldable pub build_hello_message : Crypto → Text → Identity → Text
build_hello_message c nick id =
    lit "PRIVMSG voirc :VOIRC_HELLO:"
    ++ (nick
        ++ b':' ∷ (id.pubkey_hex ++ b':' ∷ c.hex_encode (c.sign id.signing_key (as_bytes nick))))

unfoldable pub verify_hello : Crypto → Text → Text → Text → Bool
verify_hello c nick pubkey_hex sig_hex = elim (decode_array c 32 pubkey_hex) [
  | none ↦ false
  | some key ↦ elim (decode_array c 64 sig_hex) [
    | none ↦ false
    | some sig ↦ if c.is_key key then c.verify key (as_bytes nick) sig else false
  ]
]

unfoldable pub is_verified : Client → Text → Bool
is_verified h nick = is_some (pubkey_for_nick h.app nick)

-- the requirement, where the number fits a byte
abbrev pub pow_required : Client → Text → Reaction
pow_required h rest = elim (parse u8_max (trim rest)) [
  | none ↦ quiet h
  | some bits ↦ raising h (pow_requirement_changed bits)
]

abbrev pub register : Client → Text → Text → Client
register h nick pubkey = record h { app = (register_peer_pubkey h.app nick pubkey).0 }

-- the slice of the key that is logged; none where it panics
unfoldable pub key_prefix : Text → Option Text
key_prefix pubkey_hex = slice_to (if ltb (len pubkey_hex) 8 then len pubkey_hex else 8) pubkey_hex

-- The line for the log is made only where the key was registered, and a panic ends the task.
unfoldable pub take_pubkey : Client → List Text → Reaction
unfolding key_prefix
take_pubkey h (peer_nick ∷ pubkey_hex ∷ []) =
    if (register_peer_pubkey h.app peer_nick pubkey_hex).1
    then quiet (record (register h peer_nick pubkey_hex) {
      reading = if is_some (key_prefix pubkey_hex) then h.reading else false;
    })
    else quiet (register h peer_nick pubkey_hex)
take_pubkey h _ = quiet h

unfoldable pub take_hello : Crypto → Client → List Text → Reaction
take_hello c h (nick ∷ pubkey_hex ∷ sig_hex ∷ []) =
    if verify_hello c nick pubkey_hex sig_hex then quiet (register h nick pubkey_hex) else quiet h
take_hello c h _ = quiet h

-- the answer of the fragments: each payload that is whole is an event
abbrev signals : List Signal → List Event
signals [] = []
signals (s ∷ ss) = webrtc_signal s ∷ signals ss

unfoldable pub take_fragment : Context → Client → Text → Text → Reaction
take_fragment k h nick text =
    let (fragments, whole) = handle_fragment h.fragments k.clock nick text in
    record { client = record h { fragments = fragments }; events = signals whole; sent = [] }

abbrev pub take_role : Client → Text → Text → Reaction
take_role h nick role_str =
    quiet (record h { app = set_peer_role h.app nick (from_str (trim role_str)) })

unfoldable pub take_mod : Client → Text → Text → Reaction
take_mod h nick rest = elim (split_once b':' rest) [
  | none ↦ quiet h
  | some (action, target_nick) ↦ raising h (mod_action nick action target_nick)
]

unfoldable pub take_sync_request : Context → Client → Text → Text → Reaction
take_sync_request k h target rest = elim (k.sync_json.read_request rest) [
  | none ↦ quiet h
  | some req ↦
      elim (k.sync_json.write_response (record {
        channel = req.channel;
        messages = messages_since h.message_log req.channel req.since;
      })) [
        | none ↦ quiet h
        | some json ↦ record {
          client = h;
          events = [];
          sent =
              (lit "PRIVMSG " ++ (target ++ (lit " :VOIRC_SYNC_RESP:" ++ (json ++ 13 ∷ 10 ∷ []))))
              ∷ [];
        }
      ]
]

unfoldable pub take_sync_response : Context → Client → Text → Reaction
take_sync_response k h rest = elim (k.sync_json.read_response rest) [
  | none ↦ quiet h
  | some resp ↦ quiet (record h {
    message_log =
        (process_sync_response k.crypto k.json k.now k.written h.message_log resp
          (trusted_keys_snapshot h.app)).0;
  })
]

-- whether a key is known for the sender, and is not the message's
unfoldable pub mismatched : Client → Text → SignedMessage → Bool
mismatched h nick msg = elim (pubkey_for_nick h.app nick) [
  | none ↦ false
  | some known ↦ not (eqb known msg.pubkey)
]

unfoldable pub accept_signed :
    Context → Client → Text → Text → SignedMessage → VerifyResult → Reaction
accept_signed k h nick target msg result = elim result [
  | invalid_signature ↦ quiet h
  | r ↦
      raising (record h { message_log = (append k.json (k.written msg) h.message_log msg).0 })
        (chat_message target nick
          (if is_suspicious r then lit "[?] " ++ msg.content else msg.content))
]

unfoldable pub take_signed : Context → Client → Text → Text → Text → Reaction
take_signed k h nick target rest = elim (k.json.from_str rest) [
  | none ↦ quiet h
  | some msg ↦
      if mismatched h nick msg
      then quiet h
      else accept_signed k h nick target msg (verify k.crypto k.now msg none)
]
