-- ===== src/Examples/Online.antt =====
-- The client of src/irc_client.rs and the event loop of src/gui.rs together.
use voirc.Base.{
  All, none, some, ◌≡◌, refl, true, Option, List, [], ◌∷◌, ◌++◌, Text, text_eq, text_beq, contains,
  arith,
}
use voirc.Strings.{lit, len, strip_prefix, starts_with, trim, is_whitespace}
use voirc.Config.{peer, is_superpeer}
use voirc.State.{new, register_peer_pubkey, all_superpeers, get_peer_role}
use voirc.State.Messages.{IsBounded}
use voirc.Log.{empty_log}
use voirc.Log.Order.{IsOrdered}
use voirc.Client.Handler.{nickname, privmsg}
use voirc.Client.Reader.{Parsed, unreadable, message}
use voirc.Session.{Session}
use voirc.Session.Start.{Connection, new_session, prepare}
use voirc.Strings.Slices.{slice_to}
use voirc.WebrtcPeer.{connected}
use voirc.Client.{key_prefix}
use voirc.Online.Silence.{without_lines, one_line_deafens}
use voirc.Online.{
  Happening, line_read, event_taken, heard, peer_changed, irc_failed, search_ended, run, begun,
}
use voirc.Online.Follows.{online_sound}
use voirc.Online.Ranks.{anyone_demotes}
use voirc.Online.Chat.{IsPlain, relayed, chat_delivered}
use voirc.Dict
use voirc.State
use voirc.Server.{addr_eq, addr_beq}
use voirc.Server.Commands.{relay_privmsg, is_impostor}
use voirc.Server.Delivery.{targets}
use voirc.Session.Commands.{chat_line}
use voirc.App.Display.{show_line, said}
use voirc.Examples.Server.{a1, a2, known}
use voirc.Examples.{alice, key}
use voirc.Examples.Client.{context}
use voirc.Examples.Session.{world, session}

-- A parser for which each line is a message of alice.
abbrev from_str : Text → Parsed
from_str text = message (nickname alice) (privmsg (lit "#general") text)

abbrev debug : Option Text → Text
debug o = lit "None"

abbrev connection : Connection
connection = record {
  default_channel = lit "#general";
  channels = lit "#general" ∷ [];
  is_host = true;
  use_tls = true;
  has_mic = true;
}

abbrev happenings : List Happening
happenings =
    line_read context (lit "hi")
    ∷ heard alice 3
    ∷ peer_changed alice connected
    ∷ event_taken world
    ∷ irc_failed (lit "gone")
    ∷ search_ended (lit "#general") none
    ∷ []

abbrev after : Session
after =
    (run from_str debug (begun (prepare world connection (new_session connection new empty_log)))
      happenings).session

online_sound_example :
    IsBounded after.app
    × IsOrdered after.message_log
    × ((n : Text)
        → contains (all_superpeers after.app) n ≡ is_superpeer (get_peer_role after.app n))
online_sound_example = online_sound from_str debug world connection empty_log happenings tt

abbrev attack : List Happening
attack =
    line_read context (lit "VOIRC_PUBKEY:alice:" ++ key)
    ∷ line_read context (lit "VOIRC_ROLE:host")
    ∷ line_read context (lit "VOIRC_MOD:demote:zoe")
    ∷ event_taken world
    ∷ []

anyone_demotes_example : (run from_str debug (begun session) attack).session.app.our_role ≡ peer
unfolding trim is_whitespace text_beq key_prefix slice_to len
anyone_demotes_example =
    anyone_demotes (begun session) world context context context alice key from_str debug
      (lit "VOIRC_PUBKEY:alice:" ++ key) (lit "VOIRC_ROLE:host") (lit "VOIRC_MOD:demote:zoe")
      (lit "#general") (omega arith) refl refl (refl, refl) (refl, refl) (refl, refl) refl refl

-- A key of which byte 8 is inside a character.
abbrev cut_key : Text
cut_key = lit "1234567é"

abbrev afterwards : List Happening
afterwards = line_read context (lit "hi") ∷ heard alice 3 ∷ event_taken world ∷ []

one_line_deafens_example :
    run from_str debug
      (begun session)
      (line_read context (lit "VOIRC_PUBKEY:zed:1234567é") ∷ afterwards)
    ≡ run from_str debug
        (begun session)
        (line_read context (lit "VOIRC_PUBKEY:zed:1234567é") ∷ without_lines afterwards)
unfolding trim is_whitespace text_beq register_peer_pubkey Dict.get State.set_peer_role
one_line_deafens_example =
    one_line_deafens from_str debug (begun session) context (lit "VOIRC_PUBKEY:zed:1234567é") alice
      (lit "#general") (lit "zed") cut_key afterwards refl (omega arith) refl
      (unfold key_prefix slice_to len in refl) (refl, refl)

-- A parser of the messages of alice to a channel.
abbrev read_alice : Text → Parsed
read_alice text = elim (strip_prefix (lit ":alice!voirc@127.0.0.1 PRIVMSG #general :") text) [
  | none ↦ unreadable
  | some rest ↦ message (nickname alice) (privmsg (lit "#general") rest)
]

hi-IsPlain : IsPlain (lit "hi")
unfolding strip_prefix starts_with
hi-IsPlain = record {
  pubkey = refl;
  pow = refl;
  hello = refl;
  signal = refl;
  role = refl;
  action = refl;
  request = refl;
  response = refl;
  signed = refl;
}

chat_delivered_example :
    (contains (targets (relay_privmsg known a1 (lit "#general") (lit "hi")).1) a2 ≡ true)
    × All
        (λ x. x.msg ≡ relayed alice (lit "#general") (lit "hi"))
        (relay_privmsg known a1 (lit "#general") (lit "hi")).1
    × ((run read_alice debug (begun session) (
          line_read context (relayed alice (lit "#general") (lit "hi"))
          ∷ event_taken world
          ∷ [])).session.app
        ≡ State.add_message session.app (lit "#general") (chat_line alice (lit "hi")))
    × (show_line (chat_line alice (lit "hi")) ≡ said alice (trim (lit "hi")))
unfolding trim is_whitespace text_beq addr_beq Dict.get contains strip_prefix starts_with
    is_impostor
chat_delivered_example =
    chat_delivered read_alice debug known a1 a2 (a1 ∷ a2 ∷ []) (begun session) context world alice
      (lit "#general") (lit "hi") refl refl refl refl refl refl (refl, refl) hi-IsPlain
      (omega arith) refl refl refl
