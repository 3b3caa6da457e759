-- ===== src/Examples/Client.antt =====
-- Runs of the client of src/irc_client.rs, of src/relay.rs and of src/magic_link.rs.
use voirc.Base.{
  nat_eq, ◌≤◌, Text, contains, ℕ, ◌+◌, ◌-◌, ◌≡◌, refl, true, false, none, some, List, [], ◌∷◌, ◌++◌,
  text_eq, arith, All, map,
}
use voirc.Dict
use voirc.Dict.{Every}
use voirc.Int.{pos}
use voirc.Strings.{lit, is_whitespace}
use voirc.State.{new, pubkey_for_nick}
use voirc.Log.{empty_log}
use voirc.Fragments.Assembly.{receive_parts, whole, receive_parts-all}
use voirc.Fragments.Wire.{IsId}
use voirc.Client.{Context, Client, quiet, is_verified}
use voirc.Client.Handler.{voirc_role, prefix_of, handle_privmsg}
use voirc.Client.Gate.{handle_privmsg-unverified}
use voirc.Relay.{send_handshake, send_audio, relay_frame, serve, receive, concat}
use voirc.Relay.Framing.{IsPayload, IsRelayNick, serve-client, receive-frames}
use voirc.MagicLink
use voirc.MagicLink.{
  ConnectionInfo, Codec, wire_of, with_default, to_magic_link, from_magic_link, IsSound,
  from_magic_link-to_magic_link,
}
use voirc.MagicLink.Wire.{IsTyped, serialize}
use voirc.Examples.{toy, key, alice}
use voirc.Examples.Log.{json}

abbrev pub context : Context
context = record {
  crypto = toy;
  json = json;
  sync_json = record {
    read_request = λ _. none;
    read_response = λ _. none;
    write_response = λ _. none;
  };
  nickname = lit "bob";
  identity = none;
  now = pos 9;
  clock = 0;
  written = λ _. true;
}

abbrev client : Client
client = record { app = new; message_log = empty_log; fragments = []; reading = true }

abbrev informed : Client
informed = record client { app = record new { known_pubkeys = (alice, key) ∷ [] } }

handle_privmsg-unverified_example :
    handle_privmsg context client alice (lit "bob") (prefix_of voirc_role ++ lit "host")
    ≡ quiet client
unfolding is_verified pubkey_for_nick Dict.get
handle_privmsg-unverified_example =
    handle_privmsg-unverified context client alice (lit "bob") (lit "host") voirc_role refl

ab-IsId : IsId (lit "ab")
ab-IsId = record { no_bracket = omega arith; no_bar = omega arith }

abbrev audio : List (List ℕ)
audio = (1 ∷ 2 ∷ []) ∷ (3 ∷ []) ∷ []

alice-IsRelayNick : IsRelayNick alice
alice-IsRelayNick = record { ascii = omega arith; nonempty = omega arith; bounded = omega arith }

audio-IsPayload : All IsPayload audio
audio-IsPayload = (
  record { nonempty = omega arith; bounded = omega arith },
  (record { nonempty = omega arith; bounded = omega arith }, tt),
)

serve-client_example :
    serve (send_handshake alice ++ concat (map send_audio audio))
    ≡ some (alice, map (relay_frame alice) audio)
serve-client_example = serve-client alice audio alice-IsRelayNick audio-IsPayload

receive-frames_example :
    receive (concat (map (relay_frame alice) audio)) ≡ (alice, 1 ∷ 2 ∷ []) ∷ (alice, 3 ∷ []) ∷ []
receive-frames_example = receive-frames alice audio alice-IsRelayNick audio-IsPayload

abbrev pub home : ConnectionInfo
home = MagicLink.with_pow (MagicLink.new (lit "h") 6667 []) 16

pub home-IsTyped : IsTyped (wire_of home)
home-IsTyped = record { port_fits = omega arith; relay_fits = tt; bits_fit = omega arith }

-- An encoding in which each byte is a character of its own, past all white space.
abbrev pub codec : Codec
codec = record {
  to_string = λ _. lit "{}";
  from_str = λ _. some (serialize (wire_of home));
  encode = map (λ b. b + 0x4000);
  decode = λ s. some (map (λ c. c - 0x4000) s);
}

pub decode-encode : (bytes : List ℕ) → codec.decode (codec.encode bytes) ≡ some bytes
decode-encode [] = refl
decode-encode (b ∷ bytes) = ground (arith, decode-encode bytes)

pub encode-no_space : (bytes : List ℕ) → All (λ c. is_whitespace c ≡ false) (codec.encode bytes)
unfolding is_whitespace
encode-no_space [] = tt
encode-no_space (b ∷ bytes) = (ground arith, encode-no_space bytes)

from_magic_link-to_magic_link_example :
    from_magic_link codec (to_magic_link codec home) ≡ some (with_default home)
from_magic_link-to_magic_link_example =
    from_magic_link-to_magic_link codec home
      (record { decode-encode = decode-encode; no_space = encode-no_space }) home-IsTyped refl
      (omega arith)

abbrev chunk_of : ℕ → Text
chunk_of i = (b'a' + i) ∷ []

abbrev arrivals : List (ℕ × ℕ)
arrivals = (100, 2) ∷ (159, 1) ∷ []

two_one-all : (j : ℕ) → 1 ≤ j → j ≤ 2 → contains (2 ∷ 1 ∷ []) j ≡ true
unfolding contains
two_one-all j a b = ground arith

receive_parts-all_example :
    ((receive_parts [] alice (lit "ab") 2 chunk_of arrivals).1
      ≡ record { sender = alice; payload = whole chunk_of 2 1 } ∷ [])
    × (Dict.get (receive_parts [] alice (lit "ab") 2 chunk_of arrivals).0 (alice ++ b':' ∷ lit "ab")
        ≡ none)
unfolding Dict.get contains
receive_parts-all_example =
    receive_parts-all alice (lit "ab") 2 chunk_of [] arrivals refl (omega arith) refl
      (refl, (refl, tt)) two_one-all (omega arith, tt)
