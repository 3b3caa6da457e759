-- ===== src/Online/Chat.antt =====
-- A chat message from the server of src/irc_server.rs to the window of another client.
use voirc.Base.{
  ◌≡◌, ◌≢◌, refl, ap, ◌∙◌, true, false, Option, none, some, List, [], ◌∷◌, ◌++◌, Text, text_eq, eqb,
  All, All-append, contains, arith,
}
use voirc.Dict
use voirc.Dict.{is_some, or_else}
use voirc.Strings.{lit, strip_prefix, trim}
use voirc.State
use voirc.Server.{Addr, addr_eq, ServerState, nick_of, send_to, send_all, others, full_mask, crlf}
use voirc.Server.Commands.{relay_privmsg, deliver, is_impostor}
use voirc.Server.Delivery.{targets, contains-relay_privmsg}
use voirc.Client.{Context, Client, raising, chat_message}
use voirc.Client.Handler.{
  wrtc, voirc_role, voirc_mod, voirc_sync_req, voirc_sync_resp, prefix_of, handle_privmsg,
  handle_privileged, handle_other,
}
use voirc.Client.Reader.{Parsed}
use voirc.Session.{World, say}
use voirc.Session.Commands.{chat_line}
use voirc.Session.Loop.{step}
use voirc.Session.Events.{on_event}
use voirc.App.Display.{show_line, said, show_line-chat_line}
use voirc.Online.{Online, line_read, event_taken, react, client_of, run}
use voirc.Online.Ranks.{Says, expired, happen-Says, happen-taken}

-- What the server sends on for a client of a nick.
abbrev pub relayed : Text → Text → Text → Text
relayed nick target text =
    lit ":" ++ full_mask nick ++ lit " PRIVMSG " ++ target ++ lit " :" ++ text ++ crlf

send_to-msg : (s : ServerState) (a : Addr) (msg : Text) → All (λ x. x.msg ≡ msg) (send_to s a msg)
unfolding send_to
send_to-msg s a msg = ground arith

send_all-msg :
    (s : ServerState) (members : List Addr) (msg : Text)
    → All (λ x. x.msg ≡ msg) (send_all s members msg)
unfolding send_all
send_all-msg s [] msg = tt
send_all-msg s (a ∷ members) msg =
    All-append (λ x. x.msg ≡ msg) (send_to s a msg) (send_all s members msg) (send_to-msg s a msg)
      (send_all-msg s members msg)

-- A text that none of the prefixes begins.
pub record IsPlain (text : Text) : Type 0 where
  pub pubkey : strip_prefix (lit "VOIRC_PUBKEY:") text ≡ none
  pub pow : strip_prefix (lit "VOIRC_POW_REQUIRED:") text ≡ none
  pub hello : strip_prefix (lit "VOIRC_HELLO:") text ≡ none
  pub signal : strip_prefix (prefix_of wrtc) text ≡ none
  pub role : strip_prefix (prefix_of voirc_role) text ≡ none
  pub action : strip_prefix (prefix_of voirc_mod) text ≡ none
  pub request : strip_prefix (prefix_of voirc_sync_req) text ≡ none
  pub response : strip_prefix (prefix_of voirc_sync_resp) text ≡ none
  pub signed : strip_prefix (lit "SIGNED:") text ≡ none

handle_privmsg-plain :
    (k : Context) (h : Client) (nick target text : Text)
    → IsPlain text
    → handle_privmsg k h nick target text ≡ raising h (chat_message target nick text)
unfolding handle_privmsg handle_privileged handle_other strip_prefix
handle_privmsg-plain k h nick target text p =
    rw
      (
        p.pubkey, p.pow, p.hello, p.signal, p.role, p.action, p.request, p.response, p.signed,
        handle_privmsg, handle_privileged, handle_other,
      )
      refl

relay-msg :
    (s : ServerState) (a : Addr) (nick channel text : Text) (members : List Addr)
    → nick_of s a ≡ some nick
    → is_impostor s a ≡ false
    → Dict.get s.channels channel ≡ some members
    → All (λ x. x.msg ≡ relayed nick channel text) (relay_privmsg s a channel text).1
unfolding relay_privmsg deliver
relay-msg s a nick channel text members named honest there =
    rw (honest, there, named, deliver)
      (send_all-msg s (others a members) (relayed nick channel text))

-- Once the reader and then the loop have run, the line is in the channel.
said_lem :
    (from_str : Text → Parsed) (debug : Option Text → Text) (o : Online) (k : Context) (w : World)
    → (nick channel text line : Text) → Says from_str line nick channel text
    → IsPlain text
    → o.reading ≡ true
    → o.session.running ≡ true
    → o.queue ≡ []
    → (run from_str debug o (line_read k line ∷ event_taken w ∷ [])).session.app
      ≡ State.add_message o.session.app channel (chat_line nick text)
unfolding run step on_event say
said_lem from_str debug o k w nick channel text line says plain reads running empty =
    let h = expired k (client_of o) in
    let told = react o (raising h (chat_message channel nick text)) in
    ap (λ (v : Online). (run from_str debug v (event_taken w ∷ [])).session.app)
      (happen-Says from_str debug o k line nick channel text reads says
        ∙ ap (react o) (handle_privmsg-plain k h nick channel text plain))
    ∙ ap (λ (v : Online). v.session.app)
        (happen-taken from_str debug told w (chat_message channel nick text) running
          (rw empty refl))

-- A plain message of a client to a channel, under a nick that it may use and that holds no `>`, goes to
-- each other connected member as one and the same line. A client whose reader and loop run, with no
-- event waiting, and for which the crate `irc` reads that line as a message of the nick to the channel,
-- then has the message in that channel, where it is shown as the sender's with the text that was sent,
-- but for white space around it.
pub chat_delivered :
    (from_str : Text → Parsed) (debug : Option Text → Text) (s : ServerState) (a b : Addr)
    (members : List Addr)
    → (o : Online) (k : Context) (w : World) (nick channel text : Text) → nick_of s a ≡ some nick
    → is_impostor s a ≡ false
    → Dict.get s.channels channel ≡ some members
    → contains members b ≡ true
    → eqb b a ≡ false
    → is_some (Dict.get s.clients b) ≡ true
    → Says from_str (relayed nick channel text) nick channel text
    → IsPlain text
    → All (λ c. c ≢ b'>') nick
    → o.reading ≡ true
    → o.session.running ≡ true
    → o.queue ≡ []
    → (contains (targets (relay_privmsg s a channel text).1) b ≡ true)
      × All (λ x. x.msg ≡ relayed nick channel text) (relay_privmsg s a channel text).1
      × ((run from_str debug o
            (line_read k (relayed nick channel text) ∷ event_taken w ∷ [])).session.app
          ≡ State.add_message o.session.app channel (chat_line nick text))
      × (show_line (chat_line nick text) ≡ said nick (trim text))
chat_delivered from_str debug s a b members o k w nick channel text named honest there member other
      connected says plain no_bracket reads running empty =
    (
      (contains-relay_privmsg s a channel text members b there).0
          ∙ rw (honest, member, other, connected) refl,
      relay-msg s a nick channel text members named honest there,
      said_lem from_str debug o k w nick channel text (relayed nick channel text) says plain reads
          running empty,
      show_line-chat_line nick text no_bracket,
    )
