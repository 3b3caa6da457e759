-- ===== src/Client/Gate.antt =====
-- Who may send what to a client of src/irc_client.rs.
use voirc.Base.{
  inl, inr, Bool-cases, Option-cases, ◌∙◌, ap, ℕ, ◌≢◌, ◌≡◌, refl, true, false, [], ◌∷◌, ◌++◌, Text,
  text_eq, eqb_refl, All, arith,
}
use voirc.Dict
use voirc.Dict.{dict_laws, is_some}
use voirc.Strings.{lit, strip_prefix, splitn}
use voirc.Strings.Laws.{split_once-append}
use voirc.State.{register_peer_pubkey, pubkey_for_nick}
use voirc.Client.{key_prefix, register, Context, Client, Reaction, quiet, is_verified, take_pubkey}
use voirc.Client.Handler.{
  Privileged, wrtc, voirc_role, voirc_mod, voirc_sync_req, voirc_sync_resp, prefix_of,
  handle_privmsg, handle_privileged, take_privileged,
}

-- A fragment, a role, a moderation action, a request for messages and an answer to one have no
-- effect at all where no key is known for the nick they come from.
pub handle_privmsg-unverified :
    (k : Context) (h : Client) (nick target rest : Text) (p : Privileged)
    → is_verified h nick ≡ false
    → handle_privmsg k h nick target (prefix_of p ++ rest) ≡ quiet h
unfolding handle_privmsg strip_prefix handle_privileged
handle_privmsg-unverified k h nick target rest wrtc e = rw e refl
handle_privmsg-unverified k h nick target rest voirc_role e = rw e refl
handle_privmsg-unverified k h nick target rest voirc_mod e = rw e refl
handle_privmsg-unverified k h nick target rest voirc_sync_req e = rw e refl
handle_privmsg-unverified k h nick target rest voirc_sync_resp e = rw e refl

-- Where a key is known, the message is handled as its prefix says.
pub handle_privmsg-verified :
    (k : Context) (h : Client) (nick target rest : Text) (p : Privileged)
    → is_verified h nick ≡ true
    → handle_privmsg k h nick target (prefix_of p ++ rest)
      ≡ take_privileged k h nick target (prefix_of p ++ rest) rest p
unfolding handle_privmsg strip_prefix handle_privileged
handle_privmsg-verified k h nick target rest wrtc e = rw e refl
handle_privmsg-verified k h nick target rest voirc_role e = rw e refl
handle_privmsg-verified k h nick target rest voirc_mod e = rw e refl
handle_privmsg-verified k h nick target rest voirc_sync_req e = rw e refl
handle_privmsg-verified k h nick target rest voirc_sync_resp e = rw e refl

splitn-two : (c : ℕ) (s t : Text) → All (λ d. d ≢ c) s → splitn 2 c (s ++ c ∷ t) ≡ s ∷ t ∷ []
unfolding splitn
splitn-two c s t h = rw (split_once-append c s t h, splitn) refl

pub is_verified-register :
    (h : Client) (name pubkey : Text) → is_verified (register h name pubkey) name ≡ true
unfolding is_verified register_peer_pubkey pubkey_for_nick
is_verified-register h name pubkey = elim (Option-cases (Dict.get h.app.known_pubkeys name)) [
  | inl e ↦ ground (arith, e, Dict.get-insert h.app.known_pubkeys name pubkey name, eqb_refl name)
  | inr (known, e) ↦
      ground (arith, e, Dict.get-insert h.app.known_pubkeys name pubkey name, eqb_refl name)
]

take_pubkey-registers :
    (h : Client) (name pubkey : Text)
    → is_some (key_prefix pubkey) ≡ true
    → take_pubkey h (name ∷ pubkey ∷ []) ≡ quiet (register h name pubkey)
unfolding take_pubkey
take_pubkey-registers h name pubkey cut =
    elim (Bool-cases (register_peer_pubkey h.app name pubkey).1) [
      | inl e ↦ rw (e, cut) refl
      | inr e ↦ rw e refl
    ]

take_pubkey-verified :
    (h : Client) (name pubkey : Text)
    → is_verified (take_pubkey h (name ∷ pubkey ∷ [])).client name ≡ true
unfolding take_pubkey is_verified
take_pubkey-verified h name pubkey = elim (Bool-cases (register_peer_pubkey h.app name pubkey).1) [
  | inl e ↦ rw e (is_verified-register h name pubkey)
  | inr e ↦ rw e (is_verified-register h name pubkey)
]

-- A line that names a key is taken as its two parts, whoever sends it.
pub handle_privmsg-parts :
    (k : Context) (h : Client) (nick target name pubkey : Text)
    → All (λ c. c ≢ b':') name
    → handle_privmsg k h nick target (lit "VOIRC_PUBKEY:" ++ (name ++ b':' ∷ pubkey))
      ≡ take_pubkey h (name ∷ pubkey ∷ [])
unfolding handle_privmsg strip_prefix
handle_privmsg-parts k h nick target name pubkey no_colon =
    ap (λ l. take_pubkey h l) (splitn-two b':' name pubkey no_colon)

-- It registers the key, which the log can show.
pub handle_privmsg-pubkey :
    (k : Context) (h : Client) (nick target name pubkey : Text)
    → All (λ c. c ≢ b':') name
    → is_some (key_prefix pubkey) ≡ true
    → handle_privmsg k h nick target (lit "VOIRC_PUBKEY:" ++ (name ++ b':' ∷ pubkey))
      ≡ quiet (register h name pubkey)
handle_privmsg-pubkey k h nick target name pubkey no_colon cut =
    handle_privmsg-parts k h nick target name pubkey no_colon
    ∙ take_pubkey-registers h name pubkey cut

-- A line `VOIRC_PUBKEY:<name>:<key>` from any peer at all makes that name verified: no signature is
-- asked for. The name holds no colon.
pub is_verified-pubkey_from_anyone :
    (k : Context) (h : Client) (nick target name pubkey : Text)
    → All (λ c. c ≢ b':') name
    → is_verified
        (handle_privmsg k h nick target (lit "VOIRC_PUBKEY:" ++ (name ++ b':' ∷ pubkey))).client
        name
      ≡ true
is_verified-pubkey_from_anyone k h nick target name pubkey no_colon =
    ap (λ (r : Reaction). is_verified r.client name)
      (handle_privmsg-parts k h nick target name pubkey no_colon)
    ∙ take_pubkey-verified h name pubkey
