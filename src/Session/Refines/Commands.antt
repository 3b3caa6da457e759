-- ===== src/Session/Refines/Commands.antt =====
-- The commands of the event loop of src/gui.rs.
use voirc.Base.{
  length, refl, Bool, true, false, not, Option, none, some, List, [], ◌∷◌, ◌++◌, Text, text_eq, eqb,
  contains, arith, ℕ,
}
use voirc.Dict.{Dict, or_else, mapped}
use voirc.Config.{Role, can_moderate}
use voirc.State
use voirc.State.{AppState, new}
use voirc.State.Run.{run, load_history, clear_peers, set_peer_role, add_received_file}
use voirc.Log.{Identity}
use voirc.Log.Order.{append-IsOrdered}
use voirc.Moderation.{
  ModAction, kick, ban, unban, promote, demote, Command, mod_command, help, list_banned, show_role,
  list_peers, edit_commands, invite, reload, diag, set_pow, mine_nick, custom, unknown,
}
use voirc.Pow.{MinedNick, check_difficulty}
use voirc.Session.{
  World, Session, file_written, Peer, say, emit, send_pow_set, send_mod_action, announce_role,
  join_channel, part_channel,
}
use voirc.Session.Commands.{
  say_all, show_help, show_peers, show_banned, show_diag, show_editor, show_invite, apply_mod,
  moderate, run_custom, start_mining, mine, tell_mined, run_command,
}
use voirc.Session.Chat.{
  CallCommand, send_text, switch_channel, create_channel, send_file, shutdown, ReceivedFile, post,
  send_plain, run_text, close_all, drop_peers, move_to, on_switch, on_create, send_all_files,
  on_send_file, on_command, store,
}
use voirc.Session.Refines.{
  Follows, unchanged, called, ◌▸◌, Follows-if, same, say-Follows, emit-Follows, send_raw-Follows,
  send_message-Follows,
}

say_all-Follows : (s : Session) (ch : Text) (lines : List Text) → Follows s (say_all s ch lines)
unfolding say_all
say_all-Follows s ch [] = same s
say_all-Follows s ch (l ∷ lines) = say-Follows s ch l ▸ say_all-Follows (say s ch l) ch lines

pub called_role :
    (s : Session) (n : Text) (r : Role)
    → Follows s (record s { app = State.set_peer_role s.app n r })
unfolding run
called_role s n r = called (set_peer_role n r) tt refl refl

module _ (w : World) (s : Session) (ch : Text) where
  send_mod_action-Follows :
      (action target : Text) → Follows s (send_mod_action w s ch action target)
  unfolding send_mod_action
  send_mod_action-Follows action target = send_raw-Follows w s _

  moderate-Follows :
      (action : ModAction) (refusal : Option Text) → Follows s (moderate w s ch action refusal)
  unfolding moderate apply_mod
  moderate-Follows action (some msg) = say-Follows s ch _
  moderate-Follows (kick t) none = send_mod_action-Follows _ t ▸ say-Follows _ ch _
  moderate-Follows (ban t) none = send_mod_action-Follows _ t ▸ say-Follows _ ch _
  moderate-Follows (unban t) none = say-Follows s ch _
  moderate-Follows (promote t) none =
      send_mod_action-Follows _ t ▸ called_role _ t _ ▸ say-Follows _ ch _
  moderate-Follows (demote t) none =
      send_mod_action-Follows _ t ▸ called_role _ t _ ▸ say-Follows _ ch _

  show_help-Follows : (lines : Option (List Text)) → Follows s (show_help s ch lines)
  unfolding show_help
  show_help-Follows none = unchanged refl refl
  show_help-Follows (some lines) = say_all-Follows s ch lines

  run_custom-Follows : (response : Text) (b : Bool) → Follows s (run_custom w s ch response b)
  unfolding run_custom
  run_custom-Follows response false = say-Follows s ch response
  run_custom-Follows response true =
      Follows-if w.alive (send_message-Follows w s ch response ▸ say-Follows _ ch _) (same s)

  show_peers-Follows : (m : Dict Text State.PeerState) → Follows s (show_peers s ch m)
  unfolding show_peers
  show_peers-Follows [] = say-Follows s ch _
  show_peers-Follows (entry ∷ m) = say-Follows s ch _ ▸ say_all-Follows _ ch _

  show_banned-Follows : (nicks : List Text) → Follows s (show_banned s ch nicks)
  unfolding show_banned
  show_banned-Follows [] = say-Follows s ch _
  show_banned-Follows (n ∷ nicks) = say-Follows s ch _ ▸ say_all-Follows _ ch _

  show_invite-Follows : (link : Option Text) → Follows s (show_invite s ch link)
  unfolding show_invite
  show_invite-Follows none = say-Follows s ch _
  show_invite-Follows (some l) = say-Follows s ch _

  start_mining-Follows : (pubkey : Text) (bits : ℕ) → Follows s (start_mining w s ch pubkey bits)
  unfolding start_mining
  start_mining-Follows pubkey bits =
      Follows-if (check_difficulty w.crypto.sha256 w.nickname pubkey bits) (say-Follows s ch _)
        (say-Follows s ch _ ▸ emit-Follows _ _)

  mine-Follows : (bits : ℕ) → Follows s (mine w s ch bits)
  unfolding mine
  mine-Follows bits =
      Follows-if (eqb (or_else (mapped (λ id. id.pubkey_hex) w.identity) []) [])
        (say-Follows s ch _) (start_mining-Follows _ bits)

  run_command-Follows : (c : Command) → Follows s (run_command w s ch c)
  unfolding run_command show_diag show_editor send_pow_set
  run_command-Follows help = show_help-Follows _
  run_command-Follows show_role = say-Follows s ch _
  run_command-Follows list_peers = show_peers-Follows _
  run_command-Follows list_banned =
      Follows-if (not (can_moderate w.our_role)) (say-Follows s ch _) (show_banned-Follows _)
  run_command-Follows diag = say_all-Follows s ch _
  run_command-Follows edit_commands = say-Follows s ch _ ▸ say-Follows _ ch _
  run_command-Follows invite = show_invite-Follows _
  run_command-Follows reload =
      ◌▸◌ {t = record s { custom_commands = w.loaded_commands }} (unchanged refl refl)
        (say-Follows _ ch _)
  run_command-Follows (mod_command action) = moderate-Follows action _
  run_command-Follows (custom response b) = run_custom-Follows response b
  run_command-Follows (unknown cmd) = say-Follows s ch _
  run_command-Follows (set_pow bits) =
      Follows-if (not (can_moderate w.our_role)) (say-Follows s ch _) (send_raw-Follows w s _)
  run_command-Follows (mine_nick bits) = mine-Follows bits

  pub tell_mined-Follows : (m : Option MinedNick) → Follows s (tell_mined s ch m)
  unfolding tell_mined
  tell_mined-Follows none = say-Follows s ch _
  tell_mined-Follows (some m) = say-Follows s ch _

post-Follows :
    (w : World) (s : Session) (ch text : Text) (id : Option Identity)
    → Follows s (post w s ch text id)
unfolding post
post-Follows w s ch text none = send_message-Follows w s ch text
post-Follows w s ch text (some id) =
    ◌▸◌ {t = record s { message_log = _ }}
      (record {
        calls = [];
        modest = tt;
        app_eq = unfold run in refl;
        log_ordered = append-IsOrdered w.json w.written s.message_log _;
      })
      (send_message-Follows w _ ch _)

send_plain-Follows : (w : World) (s : Session) (ch text : Text) → Follows s (send_plain w s ch text)
unfolding send_plain
send_plain-Follows w s ch text =
    Follows-if w.alive (post-Follows w s ch text w.identity ▸ say-Follows _ ch _)
      (post-Follows w s ch text w.identity)

run_text-Follows :
    (w : World) (s : Session) (ch text : Text) (c : Option Command)
    → Follows s (run_text w s ch text c)
unfolding run_text
run_text-Follows w s ch text (some c) = run_command-Follows w s ch c
run_text-Follows w s ch text none = send_plain-Follows w s ch text

close_all-Follows : (m : Dict Text Peer) (s : Session) → Follows s (close_all s m)
unfolding close_all
close_all-Follows [] s = same s
close_all-Follows ((n, p) ∷ m) s = emit-Follows s _ ▸ close_all-Follows m _

drop_peers-Follows : (s : Session) → Follows s (drop_peers s)
unfolding drop_peers run
drop_peers-Follows s = close_all-Follows s.peers s ▸ called clear_peers tt refl refl

move_to-Follows : (w : World) (s : Session) (ch : Text) → Follows s (move_to w s ch)
unfolding move_to part_channel join_channel
move_to-Follows w s ch = send_raw-Follows w s _ ▸ send_raw-Follows w _ _ ▸ unchanged refl refl

announce_role-Follows :
    (w : World) (s : Session) (ch : Text) (r : Role) → Follows s (announce_role w s ch r)
unfolding announce_role
announce_role-Follows w s ch r = send_raw-Follows w s _

on_switch-Follows : (w : World) (s : Session) (ch : Text) → Follows s (on_switch w s ch)
unfolding on_switch run
on_switch-Follows w s ch =
    drop_peers-Follows s
    ▸ move_to-Follows w _ ch
    ▸ ◌▸◌
        {t = record (move_to w (drop_peers s) ch) {
          app = State.load_history (move_to w (drop_peers s) ch).app ch 100 (w.history ch);
        }}
        (called (load_history ch 100 (w.history ch)) (omega arith) refl refl)
        (announce_role-Follows w _ ch w.our_role ▸ say-Follows _ ch _)

on_create-Follows : (w : World) (s : Session) (ch : Text) → Follows s (on_create w s ch)
unfolding on_create
on_create-Follows w s ch = Follows-if (contains s.channels ch) (same s) (
    ◌▸◌ {t = record s { channels = s.channels ++ ch ∷ [] }} (unchanged refl refl) (
      drop_peers-Follows _
      ▸ move_to-Follows w _ ch
      ▸ announce_role-Follows w _ ch w.our_role
      ▸ say-Follows _ ch _))

send_all_files-Follows :
    (m : Dict Text Peer) (s : Session) (name : Text) (bytes : List ℕ)
    → Follows s (send_all_files s m name bytes)
unfolding send_all_files
send_all_files-Follows [] s name bytes = same s
send_all_files-Follows ((n, p) ∷ m) s name bytes =
    emit-Follows s _ ▸ send_all_files-Follows m _ name bytes

pub on_command-Follows : (w : World) (s : Session) (c : CallCommand) → Follows s (on_command w s c)
unfolding on_command on_send_file
on_command-Follows w s (send_text text) = run_text-Follows w s _ text _
on_command-Follows w s (switch_channel ch) = on_switch-Follows w s ch
on_command-Follows w s (create_channel ch) = on_create-Follows w s ch
on_command-Follows w s (send_file name bytes) =
    send_all_files-Follows s.peers s name bytes ▸ say-Follows _ _ _
on_command-Follows w s shutdown = unchanged refl refl

pub store-Follows :
    (s : Session) (f : ReceivedFile) (path : Text) (e : Option Text) → Follows s (store s f path e)
unfolding store run
store-Follows s f path (some error) = say-Follows s _ _
store-Follows s f path none =
    emit-Follows s _
    ▸ ◌▸◌
        {t = record (emit s (file_written path f.bytes)) {
          app =
              State.add_received_file (emit s (file_written path f.bytes)).app f.sender f.name
                (length f.bytes) path;
        }}
        (called (add_received_file f.sender f.name (length f.bytes) path) tt refl refl)
        (say-Follows _ _ _)
