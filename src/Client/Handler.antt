-- ===== src/Client/Handler.antt =====
-- `handle_privmsg`, `handle_notice` and `handle_message` of src/irc_client.rs.
use voirc.Base.{
  not, ◌||◌, ◌&&◌, Option, none, some, List, [], ◌∷◌, Text, text_eq, eqb, ◌==◌, if◌then◌else◌,
}
use voirc.Strings.{lit, strip_prefix, starts_with, split_whitespace, splitn, trim}
use voirc.Strings.Decimal.{parse, u8_max}
use voirc.Config.{peer}
use voirc.State.{remove_peer}
use voirc.Fragments.{expire}
use voirc.Client.{
  quiet, raising, Context, Client, Reaction, Event, user_joined, user_left, chat_message,
  pow_too_weak, pow_required, is_verified, take_pubkey, take_hello, take_fragment, take_role,
  take_mod, take_sync_request, take_sync_response, take_signed, build_hello_message,
}

-- The messages that only a peer with a known key may send.
pub data Privileged : Type 0 where
  wrtc voirc_role voirc_mod voirc_sync_req voirc_sync_resp : Privileged

abbrev pub prefix_of : Privileged → Text
prefix_of wrtc = lit "WRTC:"
prefix_of voirc_role = lit "VOIRC_ROLE:"
prefix_of voirc_mod = lit "VOIRC_MOD:"
prefix_of voirc_sync_req = lit "VOIRC_SYNC_REQ:"
prefix_of voirc_sync_resp = lit "VOIRC_SYNC_RESP:"

-- What is done with one of them once its sender is verified; `rest` follows the prefix.
unfoldable pub take_privileged :
    Context → Client → Text → Text → Text → Text → Privileged → Reaction
take_privileged k h nick target text rest wrtc = take_fragment k h nick text
take_privileged k h nick target text rest voirc_role = take_role h nick rest
take_privileged k h nick target text rest voirc_mod = take_mod h nick rest
take_privileged k h nick target text rest voirc_sync_req = take_sync_request k h target rest
take_privileged k h nick target text rest voirc_sync_resp = take_sync_response k h rest

unfoldable pub handle_other : Context → Client → Text → Text → Text → Reaction
handle_other k h nick target text = elim (strip_prefix (lit "SIGNED:") text) [
  | some rest ↦ take_signed k h nick target rest
  | none ↦ raising h (chat_message target nick text)
]

-- the chain of tests on the prefixes, in their order
unfoldable pub handle_privileged :
    Context → Client → Text → Text → Text → List Privileged → Reaction
unfolding take_privileged handle_other
handle_privileged k h nick target text [] = handle_other k h nick target text
handle_privileged k h nick target text (p ∷ ps) = elim (strip_prefix (prefix_of p) text) [
  | some rest ↦
      if not (is_verified h nick) then quiet h else take_privileged k h nick target text rest p
  | none ↦ handle_privileged k h nick target text ps
]

abbrev pub all_privileged : List Privileged
all_privileged = wrtc ∷ voirc_role ∷ voirc_mod ∷ voirc_sync_req ∷ voirc_sync_resp ∷ []

unfoldable pub handle_privmsg : Context → Client → Text → Text → Text → Reaction
unfolding handle_privileged
handle_privmsg k h nick target text = elim (strip_prefix (lit "VOIRC_PUBKEY:") text) [
  | some rest ↦ take_pubkey h (splitn 2 b':' rest)
  | none ↦ elim (strip_prefix (lit "VOIRC_POW_REQUIRED:") text) [
    | some rest ↦ pow_required h rest
    | none ↦ elim (strip_prefix (lit "VOIRC_HELLO:") text) [
      | some rest ↦ take_hello k.crypto h (splitn 3 b':' rest)
      | none ↦ handle_privileged k h nick target text all_privileged
    ]
  ]
]

-- `HELLO_FAILED` and its reason
unfoldable pub take_hello_failed : Client → Text → Reaction
take_hello_failed h reason = elim (strip_prefix (lit "pow_too_weak:") reason) [
  | none ↦ quiet h
  | some bits_str ↦ elim (parse u8_max (trim bits_str)) [
    | none ↦ quiet h
    | some required_bits ↦ raising h (pow_too_weak required_bits)
  ]
]

unfoldable pub handle_notice : Client → Text → Reaction
unfolding take_hello_failed
handle_notice h text = elim (strip_prefix (lit "VOIRC_POW_REQUIRED:") text) [
  | some rest ↦ pow_required h rest
  | none ↦
      if starts_with (lit "HELLO_OK") text
      then quiet h
      else elim (strip_prefix (lit "HELLO_FAILED ") text) [
        | some reason ↦ take_hello_failed h reason
        | none ↦ quiet h
      ]
]

-- `Prefix` of the crate `irc`, where there is one
pub data Prefix : Type 0 where
  no_prefix : Prefix
  server_name : Text → Prefix
  nickname : Text → Prefix

-- the commands of the crate that the handler tells apart
pub data Command : Type 0 where
  notice : Text → Command
  join : Command
  name_reply : Option Text → Command
  part quit : Command
  privmsg : Text → Text → Command
  other : Command

abbrev hello_again : Context → List Text
hello_again k = elim k.identity [
  | none ↦ []
  | some id ↦ build_hello_message k.crypto k.nickname id ∷ []
]

unfoldable pub take_join : Context → Client → Text → Reaction
take_join k h nick =
    if eqb nick k.nickname
    then quiet h
    else record { client = h; events = user_joined nick peer ∷ []; sent = hello_again k }

unfoldable pub clean_name : Text → Text
clean_name [] = []
clean_name (c ∷ s) = let rest = clean_name s in if c == b'@' || c == b'+' then rest else c ∷ s

joined : Text → List Text → List Event
joined ours [] = []
joined ours (name ∷ names) =
    let clean = clean_name name in
    let rest = joined ours names in
    if not (eqb clean ours) && not (eqb clean []) then user_joined clean peer ∷ rest else rest

-- the part of `handle_message` after old fragments are dropped
unfoldable pub dispatch : Context → Client → Prefix → Command → Reaction
unfolding handle_notice take_join joined
dispatch k h source (notice text) = handle_notice h text
dispatch k h (nickname nick) join = take_join k h nick
dispatch k h source (name_reply (some names)) = record {
  client = h;
  events = joined k.nickname (split_whitespace names);
  sent = [];
}
dispatch k h (nickname nick) part =
    raising (record h { app = remove_peer h.app nick }) (user_left nick)
dispatch k h (nickname nick) quit =
    raising (record h { app = remove_peer h.app nick }) (user_left nick)
dispatch k h (nickname nick) (privmsg target text) = handle_privmsg k h nick target text
dispatch k h no_prefix (privmsg target text) =
    elim (strip_prefix (lit "VOIRC_POW_REQUIRED:") text) [
      | some bits_str ↦ pow_required h bits_str
      | none ↦ quiet h
    ]
dispatch k h (server_name s) (privmsg target text) =
    elim (strip_prefix (lit "VOIRC_POW_REQUIRED:") text) [
      | some bits_str ↦ pow_required h bits_str
      | none ↦ quiet h
    ]
dispatch k h source command = quiet h

unfoldable pub handle_message : Context → Client → Prefix → Command → Reaction
unfolding dispatch
handle_message k h source command =
    dispatch k (record h { fragments = expire k.clock h.fragments }) source command
