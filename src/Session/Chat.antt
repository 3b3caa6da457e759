-- ===== src/Session/Chat.antt =====
-- What the user asks for: `CallCommand` and its arms in `event_loop` of src/gui.rs, and the files that
-- arrive.
use voirc.Base.{
  ℕ, suc, ◌/◌, Bool, false, Option, none, some, List, [], ◌∷◌, ◌++◌, Text, text_eq, if◌then◌else◌,
  ◌==◌, length, contains,
}
use voirc.Dict.{Dict}
use voirc.Strings.{lit}
use voirc.Strings.Decimal.{to_dec}
use voirc.State
use voirc.State.{AppState, PeerState}
use voirc.Log.{SignedMessage, Identity, create, append, recent_timestamps}
use voirc.Moderation.{Command, CommandContext, parse_command}
use voirc.Session.{
  World, Session, Peer, say, emit, closed, file_sent, file_written, send_message, announce_role,
  join_channel, part_channel,
}
use voirc.Session.Commands.{run_command, chat_line}

pub data CallCommand : Type 0 where
  send_text switch_channel create_channel : Text → CallCommand
  send_file : Text → List ℕ → CallCommand
  shutdown : CallCommand

-- `ReceivedFile` of src/webrtc_peer.rs
pub record ReceivedFile : Type 0 where
  pub sender : Text
  pub name : Text
  pub bytes : List ℕ

-- the nicks of the connected peers
unfoldable pub connected_nicks : Dict Text PeerState → List Text
connected_nicks [] = []
connected_nicks ((k, ps) ∷ m) =
    let rest = connected_nicks m in if ps.connected then ps.nickname ∷ rest else rest

unfoldable pub context : World → Session → Text → CommandContext
unfolding connected_nicks
context w s ch = record {
  nick = w.nickname;
  channel = ch;
  role = w.our_role;
  peers = connected_nicks s.app.peer_states;
}

unfoldable pub signed : World → Session → Text → Text → Identity → SignedMessage
signed w s ch text id =
    create w.crypto id w.fresh_id w.time w.nickname ch text (recent_timestamps s.message_log ch)

-- the message that goes out, and a signed one into the log first
unfoldable pub post : World → Session → Text → Text → Option Identity → Session
unfolding signed
post w s ch text none = send_message w s ch text
post w s ch text (some id) =
    let msg = signed w s ch text id in
    send_message w (record s { message_log = (append w.json w.written s.message_log msg).0 }) ch
      (lit "SIGNED:" ++ w.json.to_string msg)

unfoldable pub send_plain : World → Session → Text → Text → Session
unfolding post
send_plain w s ch text =
    let posted = post w s ch text w.identity in
    if w.alive then say posted ch (chat_line w.nickname text) else posted

unfoldable pub run_text : World → Session → Text → Text → Option Command → Session
unfolding send_plain
run_text w s ch text (some command) = run_command w s ch command
run_text w s ch text none = send_plain w s ch text

unfoldable pub close_all : Session → Dict Text Peer → Session
close_all s [] = s
close_all s ((nick, p) ∷ m) = close_all (emit s (closed nick)) m

-- `peers.drain()`, each closed, and `clear_peers`
unfoldable pub drop_peers : Session → Session
unfolding close_all
drop_peers s =
    let s1 = close_all s s.peers in record s1 { peers = []; app = State.clear_peers s1.app }

unfoldable pub move_to : World → Session → Text → Session
move_to w s new_ch = record (join_channel w (part_channel w s s.current_channel) new_ch) {
  current_channel = new_ch;
}

unfoldable pub on_switch : World → Session → Text → Session
unfolding drop_peers move_to
on_switch w s new_ch =
    let s1 = move_to w (drop_peers s) new_ch in
    let s2 = record s1 { app = State.load_history s1.app new_ch 100 (w.history new_ch) } in
    say (announce_role w s2 new_ch w.our_role) new_ch (lit "Joined " ++ new_ch)

unfoldable pub on_create : World → Session → Text → Session
unfolding drop_peers move_to
on_create w s new_ch =
    if contains s.channels new_ch
    then s
    else say
        (announce_role w
          (move_to w (drop_peers (record s { channels = s.channels ++ new_ch ∷ [] })) new_ch) new_ch
          w.our_role)
        new_ch (lit "Created and joined " ++ new_ch)

-- the peers that took the file, and what was sent to each of them
unfoldable pub count_taken : (Text → Bool) → Dict Text Peer → ℕ
count_taken taken [] = 0
count_taken taken ((nick, p) ∷ m) =
    let rest = count_taken taken m in if taken nick then suc rest else rest

unfoldable pub send_all_files : Session → Dict Text Peer → Text → List ℕ → Session
send_all_files s [] name bytes = s
send_all_files s ((nick, p) ∷ m) name bytes =
    send_all_files (emit s (file_sent nick name bytes)) m name bytes

abbrev kilobytes : List ℕ → Text
kilobytes bytes = lit " (" ++ (to_dec (length bytes / 1024) ++ lit " KB)")

unfoldable pub on_send_file : World → Session → Text → List ℕ → Session
unfolding send_all_files count_taken
on_send_file w s name bytes = say (send_all_files s s.peers name bytes) s.current_channel (
    lit "You shared "
    ++ (name
        ++ (kilobytes bytes
            ++ (lit " -> " ++ (to_dec (count_taken w.file_taken s.peers) ++ lit " peers")))))

unfoldable pub on_command : World → Session → CallCommand → Session
unfolding run_text context on_switch on_create on_send_file
on_command w s (send_text text) =
    run_text w s s.current_channel text
      (parse_command w.to_lowercase s.custom_commands (context w s s.current_channel) text)
on_command w s (switch_channel new_ch) = on_switch w s new_ch
on_command w s (create_channel new_ch) = on_create w s new_ch
on_command w s (send_file name bytes) = on_send_file w s name bytes
on_command w s shutdown = record s { running = false }

abbrev pub ends_with_slash : Text → Bool
ends_with_slash [] = false
ends_with_slash (c ∷ []) = c == b'/'
ends_with_slash (c ∷ d ∷ s) = ends_with_slash (d ∷ s)

-- `Path::join`: an absolute path takes the place of the directory.
unfoldable pub join_path : Text → Text → Text
join_path dir [] = if ends_with_slash dir then dir else dir ++ b'/' ∷ []
join_path dir (c ∷ name) =
    if c == b'/'
    then c ∷ name
    else if ends_with_slash dir
    then dir ++ c ∷ name
    else dir ++ b'/' ∷ c ∷ name

unfoldable pub store : Session → ReceivedFile → Text → Option Text → Session
store s file path none =
    let s1 = emit s (file_written path file.bytes) in
    say
      (record s1 {
        app = State.add_received_file s1.app file.sender file.name (length file.bytes) path;
      })
      s.current_channel (file.sender ++ (lit " shared " ++ (file.name ++ kilobytes file.bytes)))
store s file path (some error) = say s s.current_channel (
    file.sender
    ++ (lit " shared "
        ++ (file.name ++ (kilobytes file.bytes ++ (lit " - save failed: " ++ error)))))

unfoldable pub on_file : World → Session → ReceivedFile → Session
unfolding store join_path
on_file w s file = store s file (join_path w.save_dir file.name) w.save_error
