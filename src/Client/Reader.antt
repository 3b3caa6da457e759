-- ===== src/Client/Reader.antt =====
-- `connect` of src/irc_client.rs: where it connects, what it says first, and the task that reads lines.
use voirc.Base.{ℕ, Option, none, some, List, [], ◌∷◌, ◌++◌, Text, text_eq, eqb, if◌then◌else◌}
use voirc.Dict.{or_else}
use voirc.Strings.{lit, split_once, trim}
use voirc.Strings.Decimal.{parse, u16_max}
use voirc.Log.{Identity}
use voirc.Crypto.{Crypto}
use voirc.Client.{Context, Client, Reaction, quiet, build_hello_message}
use voirc.Client.Handler.{Prefix, Command, handle_message}

-- The host and the port of a connection string.
unfoldable pub target : Text → Text × ℕ
target connection_string = elim (split_once b':' connection_string) [
  | some (h, p) ↦ (h, or_else (parse u16_max p) 6667)
  | none ↦ (connection_string, 6667)
]

-- What `connect` queues before it returns, then after 200 and after 500 milliseconds.
unfoldable pub first_lines : Text → List Text
first_lines nickname =
    (lit "NICK " ++ nickname) ∷ (lit "USER " ++ (nickname ++ lit " 0 * :Voirc User")) ∷ []

unfoldable pub hello_lines : Crypto → Text → Option Identity → List Text
hello_lines c nickname none = []
hello_lines c nickname (some id) = build_hello_message c nickname id ∷ []

unfoldable pub join_lines : Text → List Text
join_lines channel = (lit "JOIN " ++ channel) ∷ []

-- What `Message::from_str` of the crate `irc` makes of a line.
pub data Parsed : Type 0 where
  unreadable : Parsed
  ping : Text → Option Text → Parsed
  message : Prefix → Command → Parsed

-- What is done with it. `debug` is the `Debug` of an `Option<String>`.
unfoldable pub take_parsed : (Option Text → Text) → Context → Client → Parsed → Reaction
take_parsed debug k h unreadable = quiet h
take_parsed debug k h (ping s1 s2) = record {
  client = h;
  events = [];
  sent = (lit "PONG " ++ (s1 ++ b' ' ∷ debug s2)) ∷ [];
}
take_parsed debug k h (message source command) = handle_message k h source command

-- One line that the task has read.
unfoldable pub read_line :
    (Text → Parsed) → (Option Text → Text) → Context → Client → Text → Reaction
unfolding take_parsed
read_line from_str debug k h line =
    let trimmed = trim line in
    if eqb trimmed [] then quiet h else take_parsed debug k h (from_str trimmed)
