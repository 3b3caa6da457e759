-- ===== src/Client/Steps.antt =====
-- What the handler of src/irc_client.rs may do to the client, whatever message arrives.
use voirc.Base.{
  Bool, false, if◌then◌else◌, Text, text_eq, eqb, inl, inr, Option-cases, Bool-cases, none, some,
  List, [], ◌∷◌,
}
use voirc.Dict.{is_some}
use voirc.Log.{
  SyncResponse, append, process_sync_response, SignedMessage, VerifyResult, verify,
  invalid_signature,
}
use voirc.Config.{Role, from_str}
use voirc.Fragments.{Buffers, expire}
use voirc.Strings.Decimal.{parse, u8_max}
use voirc.Strings.{lit, trim, starts_with, splitn, strip_prefix, split_once}
use voirc.Client.{
  key_prefix, register, verify_hello, is_verified, messages_since, pow_required, Reaction,
  accept_signed, mismatched, take_fragment, take_mod, Context, Client, quiet, take_pubkey,
  take_hello, take_signed, take_sync_response, take_sync_request,
}
use voirc.Client.Handler.{
  no_prefix, server_name, name_reply, join, part, quit, privmsg, nickname, prefix_of, notice,
  all_privileged, take_join, take_hello_failed, handle_notice, Privileged, wrtc, voirc_role,
  voirc_mod, voirc_sync_req, voirc_sync_resp, Prefix, Command, handle_message, dispatch,
  handle_privmsg, handle_privileged, take_privileged, handle_other,
}
use voirc.State.{register_peer_pubkey, set_peer_role, remove_peer, trusted_keys_snapshot}

-- What a handler does to the client where it does anything: the relation holds of each such step.
pub record IsClosed (k : Context) (R : Client → Client → Type 0) : Type 0 where
  pub nothing : (h : Client) → R h h
  pub registered : (h : Client) (nick pubkey : Text) → R h (register h nick pubkey)
  pub stopped :
      (h : Client) (nick pubkey : Text) (reading : Bool)
      → R h (record (register h nick pubkey) { reading = reading })
  pub gathered : (h : Client) (fragments : Buffers) → R h (record h { fragments = fragments })
  pub ranked :
      (h : Client) (nick : Text) (role : Role)
      → R h (record h { app = set_peer_role h.app nick role })
  pub removed : (h : Client) (nick : Text) → R h (record h { app = remove_peer h.app nick })
  pub appended :
      (h : Client) (msg : SignedMessage)
      → R h (record h { message_log = (append k.json (k.written msg) h.message_log msg).0 })
  pub synced :
      (h : Client) (response : SyncResponse)
      → R h (record h {
        message_log =
            (process_sync_response k.crypto k.json k.now k.written h.message_log response
              (trusted_keys_snapshot h.app)).0;
      })

module _ (k : Context) (R : Client → Client → Type 0) (closed : IsClosed k R) (h : Client) where
  abbrev After : Reaction → Type 0
  After r = R h r.client

  unmoved : After (quiet h)
  unmoved = closed.nothing h

  take_mod-After : (nick rest : Text) → After (take_mod h nick rest)
  unfolding take_mod
  take_mod-After nick rest = elim (Option-cases (split_once b':' rest)) [
    | inl e ↦ rw (e, take_mod) unmoved
    | inr (x, e) ↦ rw (e, take_mod) unmoved
  ]

  pow_required-After : (rest : Text) → After (pow_required h rest)
  pow_required-After rest = elim (Option-cases (parse u8_max (trim rest))) [
    | inl e ↦ rw (e, pow_required) unmoved
    | inr (bits, e) ↦ rw (e, pow_required) unmoved
  ]

  take_pubkey-After : (parts : List Text) → After (take_pubkey h parts)
  unfolding take_pubkey
  take_pubkey-After (a ∷ b ∷ []) = elim (Bool-cases (register_peer_pubkey h.app a b).1) [
    | inl e ↦ rw e (closed.stopped h a b (if is_some (key_prefix b) then h.reading else false))
    | inr e ↦ rw e (closed.registered h a b)
  ]
  take_pubkey-After _ = unmoved

  take_hello-After : (parts : List Text) → After (take_hello k.crypto h parts)
  unfolding take_hello
  take_hello-After (nick ∷ pubkey ∷ sig ∷ []) =
      elim (Bool-cases (verify_hello k.crypto nick pubkey sig)) [
        | inl e ↦ rw e (closed.registered h nick pubkey)
        | inr e ↦ rw e unmoved
      ]
  take_hello-After _ = unmoved

  take_hello_failed-After : (reason : Text) → After (take_hello_failed h reason)
  unfolding take_hello_failed
  take_hello_failed-After reason = elim (Option-cases (strip_prefix (lit "pow_too_weak:") reason)) [
    | inl e ↦ rw (e, take_hello_failed) unmoved
    | inr (s, e) ↦ elim (Option-cases (parse u8_max (trim s))) [
      | inl f ↦ rw (e, f, take_hello_failed) unmoved
      | inr (bits, f) ↦ rw (e, f, take_hello_failed) unmoved
    ]
  ]

  handle_notice-After : (text : Text) → After (handle_notice h text)
  unfolding handle_notice
  handle_notice-After text = elim (Option-cases (strip_prefix (lit "VOIRC_POW_REQUIRED:") text)) [
    | inr (rest, e) ↦ rw (e, handle_notice) (pow_required-After rest)
    | inl e ↦ elim (Bool-cases (starts_with (lit "HELLO_OK") text)) [
      | inl f ↦ rw (e, f, handle_notice) unmoved
      | inr f ↦ elim (Option-cases (strip_prefix (lit "HELLO_FAILED ") text)) [
        | inl g ↦ rw (e, f, g, handle_notice) unmoved
        | inr (reason, g) ↦ rw (e, f, g, handle_notice) (take_hello_failed-After reason)
      ]
    ]
  ]

  take_sync_request-After : (target rest : Text) → After (take_sync_request k h target rest)
  unfolding take_sync_request
  take_sync_request-After target rest = elim (Option-cases (k.sync_json.read_request rest)) [
    | inl e ↦ rw (e, take_sync_request) unmoved
    | inr (r, e) ↦
        elim (Option-cases (
          k.sync_json.write_response (record {
            channel = r.channel;
            messages = messages_since h.message_log r.channel r.since;
          }))) [
            | inl f ↦ rw (e, f, take_sync_request) unmoved
            | inr (json, f) ↦ rw (e, f, take_sync_request) unmoved
          ]
  ]

  take_sync_response-After : (rest : Text) → After (take_sync_response k h rest)
  unfolding take_sync_response
  take_sync_response-After rest = elim (Option-cases (k.sync_json.read_response rest)) [
    | inl e ↦ rw (e, take_sync_response) unmoved
    | inr (response, e) ↦ rw (e, take_sync_response) (closed.synced h response)
  ]

  take_join-After : (nick : Text) → After (take_join k h nick)
  unfolding take_join
  take_join-After nick = elim (Bool-cases (eqb nick k.nickname)) [
    | inl e ↦ rw e unmoved
    | inr e ↦ rw e unmoved
  ]

  accept_signed-After :
      (nick target : Text) (msg : SignedMessage) (r : VerifyResult)
      → After (accept_signed k h nick target msg r)
  unfolding accept_signed
  accept_signed-After nick target msg invalid_signature = unmoved
  accept_signed-After nick target msg _ = closed.appended h msg

  take_signed-After : (nick target rest : Text) → After (take_signed k h nick target rest)
  unfolding take_signed
  take_signed-After nick target rest = elim (Option-cases (k.json.from_str rest)) [
    | inl e ↦ rw (e, take_signed) unmoved
    | inr (msg, e) ↦ elim (Bool-cases (mismatched h nick msg)) [
      | inl f ↦ rw (e, f, take_signed) unmoved
      | inr f ↦
          rw (e, f, take_signed)
            (accept_signed-After nick target msg (verify k.crypto k.now msg none))
    ]
  ]

  take_privileged-After :
      (nick target text rest : Text) (p : Privileged)
      → After (take_privileged k h nick target text rest p)
  unfolding take_privileged take_fragment
  take_privileged-After nick target text rest wrtc = closed.gathered h _
  take_privileged-After nick target text rest voirc_role =
      closed.ranked h nick (from_str (trim rest))
  take_privileged-After nick target text rest voirc_mod = take_mod-After nick rest
  take_privileged-After nick target text rest voirc_sync_req = take_sync_request-After target rest
  take_privileged-After nick target text rest voirc_sync_resp = take_sync_response-After rest

  handle_other-After : (nick target text : Text) → After (handle_other k h nick target text)
  unfolding handle_other
  handle_other-After nick target text = elim (Option-cases (strip_prefix (lit "SIGNED:") text)) [
    | inl e ↦ rw (e, handle_other) unmoved
    | inr (rest, e) ↦ rw (e, handle_other) (take_signed-After nick target rest)
  ]

  handle_privileged-After :
      (nick target text : Text) (ps : List Privileged)
      → After (handle_privileged k h nick target text ps)
  unfolding handle_privileged
  handle_privileged-After nick target text [] = handle_other-After nick target text
  handle_privileged-After nick target text (p ∷ ps) =
      elim (Option-cases (strip_prefix (prefix_of p) text)) [
        | inl e ↦ rw (e, handle_privileged) (handle_privileged-After nick target text ps)
        | inr (rest, e) ↦ elim (Bool-cases (is_verified h nick)) [
          | inl f ↦ rw (e, f, handle_privileged) (take_privileged-After nick target text rest p)
          | inr f ↦ rw (e, f, handle_privileged) unmoved
        ]
      ]

  handle_privmsg-After : (nick target text : Text) → After (handle_privmsg k h nick target text)
  unfolding handle_privmsg
  handle_privmsg-After nick target text =
      elim (Option-cases (strip_prefix (lit "VOIRC_PUBKEY:") text)) [
        | inr (rest, e) ↦ rw (e, handle_privmsg) (take_pubkey-After (splitn 2 b':' rest))
        | inl e ↦ elim (Option-cases (strip_prefix (lit "VOIRC_POW_REQUIRED:") text)) [
          | inr (rest, f) ↦ rw (e, f, handle_privmsg) (pow_required-After rest)
          | inl f ↦ elim (Option-cases (strip_prefix (lit "VOIRC_HELLO:") text)) [
            | inr (rest, g) ↦ rw (e, f, g, handle_privmsg) (take_hello-After (splitn 3 b':' rest))
            | inl g ↦
                rw (e, f, g, handle_privmsg)
                  (handle_privileged-After nick target text all_privileged)
          ]
        ]
      ]

  announced-After :
      (text : Text)
      → After (elim (strip_prefix (lit "VOIRC_POW_REQUIRED:") text) [
        | some rest ↦ pow_required h rest
        | none ↦ quiet h
      ])
  announced-After text = elim (Option-cases (strip_prefix (lit "VOIRC_POW_REQUIRED:") text)) [
    | inl e ↦ rw e unmoved
    | inr (rest, e) ↦ rw e (pow_required-After rest)
  ]

  dispatch-After : (source : Prefix) (command : Command) → After (dispatch k h source command)
  unfolding dispatch
  dispatch-After source (notice text) = handle_notice-After text
  dispatch-After (nickname nick) join = take_join-After nick
  dispatch-After (nickname nick) (privmsg target text) = handle_privmsg-After nick target text
  dispatch-After no_prefix (privmsg target text) = announced-After text
  dispatch-After (server_name s) (privmsg target text) = announced-After text
  dispatch-After source (name_reply (some names)) = unmoved
  dispatch-After (nickname nick) part = closed.removed h nick
  dispatch-After (nickname nick) quit = closed.removed h nick
  dispatch-After _ _ = unmoved

-- From the client whose old fragments are dropped, `handle_message` leads to one that the relation
-- allows.
pub handle_message-After :
    (k : Context) (R : Client → Client → Type 0)
    → IsClosed k R
    → (h : Client) (source : Prefix) (command : Command)
    → R
        (record h { fragments = expire k.clock h.fragments })
        (handle_message k h source command).client
unfolding handle_message
handle_message-After k R closed h source command =
    dispatch-After k R closed (record h { fragments = expire k.clock h.fragments }) source command
