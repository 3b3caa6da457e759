-- ===== src/Session/Commands.antt =====
-- The slash commands of a call: the arms of `match command` in `event_loop` of src/gui.rs.
use voirc.Base.{
  ℕ, Bool, true, false, not, Option, none, some, List, [], ◌∷◌, ◌++◌, Text, text_eq, eqb,
  if◌then◌else◌,
}
use voirc.Dict.{Dict, or_else, mapped}
use voirc.Strings.{lit}
use voirc.Strings.Decimal.{to_dec}
use voirc.Config.{moderator, peer, can_moderate, as_str, display}
use voirc.State
use voirc.State.{PeerState}
use voirc.Moderation.{
  ModAction, kick, ban, unban, promote, demote, Command, mod_command, help, list_banned, show_role,
  list_peers, edit_commands, invite, reload, diag, set_pow, mine_nick, custom, unknown,
  check_permission,
}
use voirc.Moderation.Help.{help_text}
use voirc.Pow.{base_name, check_difficulty, leading_zero_bits, nick_hash, time_estimate, MinedNick}
use voirc.Session.{World, Session, say, emit, mining, send_message, send_mod_action, send_pow_set}

-- one message for each line
unfoldable pub say_all : Session → Text → List Text → Session
say_all s ch [] = s
say_all s ch (line ∷ lines) = say_all (say s ch line) ch lines

-- The help text may panic, which ends the loop.
unfoldable pub show_help : Session → Text → Option (List Text) → Session
show_help s ch none = record s { running = false }
show_help s ch (some lines) = say_all s ch lines

peer_line : PeerState → Text
peer_line ps =
    lit "  "
    ++ (ps.nickname
        ++ (lit " [" ++ (as_str ps.role ++ (lit "] (" ++ (display ps.conn_state ++ lit ")")))))

unfoldable pub lines_of : (PeerState → Text) → Dict Text PeerState → List Text
lines_of f [] = []
lines_of f ((k, ps) ∷ m) = f ps ∷ lines_of f m

unfoldable pub show_peers : Session → Text → Dict Text PeerState → Session
unfolding peer_line
show_peers s ch [] = say s ch (lit "No peers connected")
show_peers s ch (entry ∷ m) =
    say_all (say s ch (lit "-- Connected Peers --")) ch (lines_of peer_line (entry ∷ m))

indented : List Text → List Text
indented [] = []
indented (nick ∷ nicks) = (lit "  " ++ nick) ∷ indented nicks

unfoldable pub show_banned : Session → Text → List Text → Session
unfolding indented
show_banned s ch [] = say s ch (lit "No banned users")
show_banned s ch (nick ∷ nicks) =
    say_all (say s ch (lit "-- Banned Users --")) ch (indented (nick ∷ nicks))

abbrev port_text : Option Bool → Text
port_text (some true) = lit "yes"
port_text (some false) = lit "no"
port_text none = lit "unknown"

abbrev relay_line : Option ℕ → List Text
relay_line none = []
relay_line (some port) = (lit "  Relay port: " ++ to_dec port) ∷ []

peer_state_line : PeerState → Text
peer_state_line ps = lit "    " ++ (ps.nickname ++ (lit " - " ++ display ps.conn_state))

connection_lines : Dict Text PeerState → List Text
unfolding peer_state_line
connection_lines [] = []
connection_lines (entry ∷ m) = lit "  Peer connections:" ∷ lines_of peer_state_line (entry ∷ m)

unfoldable pub show_diag : World → Session → Text → Session
unfolding connection_lines
show_diag w s ch = say_all s ch (
    lit "-- Connection Diagnostics --"
    ∷ (lit "  Local IP: " ++ or_else w.diagnostics.local_ip (lit "unknown"))
    ∷ (lit "  External IP: " ++ or_else w.diagnostics.external_ip (lit "unknown"))
    ∷ (lit "  UPnP: " ++ or_else w.diagnostics.upnp_status (lit "not checked"))
    ∷ (lit "  TURN servers: " ++ to_dec w.diagnostics.turn_configured)
    ∷ (lit "  Relay: " ++ (if w.diagnostics.relay_enabled then lit "enabled" else lit "disabled"))
    ∷ (relay_line w.diagnostics.relay_port
        ++ (lit "  Port open: " ++ port_text w.diagnostics.port_open)
          ∷ connection_lines s.app.peer_states))

unfoldable pub show_editor : World → Session → Text → Session
show_editor w s ch = say (say s ch (lit "Commands file: " ++ w.commands_path)) ch (
    if w.editor_opened
    then lit "Opened in editor. Use /reload when done."
    else lit "Could not open editor - edit the file manually, then /reload")

unfoldable pub show_invite : Session → Text → Option Text → Session
show_invite s ch (some link) = say s ch (lit "Invite link: " ++ link)
show_invite s ch none = say s ch (lit "No invite link available yet (external IP still resolving)")

-- an action that is permitted
unfoldable pub apply_mod : World → Session → Text → ModAction → Session
apply_mod w s ch (kick target) =
    say (send_mod_action w s ch (lit "kick") target) ch (lit "Kicked " ++ target)
apply_mod w s ch (ban target) =
    say (send_mod_action w s ch (lit "ban") target) ch (lit "Banned " ++ target)
apply_mod w s ch (unban target) = say s ch (lit "Unbanned " ++ target)
apply_mod w s ch (promote target) =
    let s1 = send_mod_action w s ch (lit "promote") target in
    let s2 = record s1 { app = State.set_peer_role s1.app target moderator } in
    say s2 ch (target ++ lit " is now a mod (superpeer relay)")
apply_mod w s ch (demote target) =
    let s1 = send_mod_action w s ch (lit "demote") target in
    let s2 = record s1 { app = State.set_peer_role s1.app target peer } in
    say s2 ch (target ++ lit " is no longer a mod")

unfoldable pub moderate : World → Session → Text → ModAction → Option Text → Session
unfolding apply_mod
moderate w s ch action none = apply_mod w s ch action
moderate w s ch action (some msg) = say s ch (lit "Permission denied: " ++ msg)

abbrev pub chat_line : Text → Text → Text
chat_line nick text = b'<' ∷ (nick ++ (lit "> " ++ text))

unfoldable pub run_custom : World → Session → Text → Text → Bool → Session
run_custom w s ch response false = say s ch response
run_custom w s ch response true =
    if w.alive then say (send_message w s ch response) ch (chat_line w.nickname response) else s

-- `/mine`, for a user who has a key; the search itself runs elsewhere
unfoldable pub start_mining : World → Session → Text → Text → ℕ → Session
start_mining w s ch pubkey bits =
    if check_difficulty w.crypto.sha256 w.nickname pubkey bits
    then say s ch (
        lit "Your current nick '"
        ++ (w.nickname
            ++ (lit "' already has "
                ++ (to_dec (leading_zero_bits (nick_hash w.crypto.sha256 w.nickname pubkey))
                    ++ (lit " bits — no need to re-mine for " ++ (to_dec bits ++ lit " bits."))))))
    else emit
        (say s ch (
          lit "Mining '"
          ++ (base_name w.nickname
              ++ (lit "' at "
                  ++ (to_dec bits ++ (lit " bits (~" ++ (time_estimate bits ++ lit ")…")))))))
        (mining (base_name w.nickname) pubkey bits)

unfoldable pub mine : World → Session → Text → ℕ → Session
unfolding start_mining
mine w s ch bits =
    let pubkey = or_else (mapped (λ id. id.pubkey_hex) w.identity) [] in
    if eqb pubkey []
    then say s ch (lit "No identity key found.")
    else start_mining w s ch pubkey bits

-- what the search tells when it has ended
unfoldable pub tell_mined : Session → Text → Option MinedNick → Session
tell_mined s ch (some m) = say s ch (
    lit "✓ New nick ready: '"
    ++ (m.nick
        ++ (lit "' ("
            ++ (to_dec m.bits
                ++ (lit " bits, "
                    ++ (to_dec m.attempts
                        ++ lit
                            " attempts). Go to Settings → Display Name, paste it, then reconnect."))))))
tell_mined s ch none = say s ch (lit "Mining failed (limit reached). Try a lower difficulty.")

unfoldable pub run_command : World → Session → Text → Command → Session
unfolding show_help show_peers show_banned show_diag show_editor show_invite moderate run_custom
    mine
run_command w s ch help = show_help s ch (help_text w.our_role s.custom_commands)
run_command w s ch show_role = say s ch (lit "Your role: " ++ as_str w.our_role)
run_command w s ch list_peers = show_peers s ch s.app.peer_states
run_command w s ch list_banned =
    if not (can_moderate w.our_role)
    then say s ch (lit "Only host and mods can view ban list")
    else show_banned s ch w.banned_users
run_command w s ch diag = show_diag w s ch
run_command w s ch edit_commands = show_editor w s ch
run_command w s ch invite = show_invite s ch w.invite_link
run_command w s ch reload =
    say (record s { custom_commands = w.loaded_commands }) ch (lit "Custom commands reloaded")
run_command w s ch (mod_command action) =
    moderate w s ch action (check_permission w.our_role action)
run_command w s ch (custom response broadcast) = run_custom w s ch response broadcast
run_command w s ch (unknown cmd) =
    say s ch (lit "Unknown command: " ++ (cmd ++ lit ". Type /help for commands."))
run_command w s ch (set_pow bits) =
    if not (can_moderate w.our_role)
    then say s ch (lit "Only host/mod can change PoW difficulty.")
    else send_pow_set w s bits
run_command w s ch (mine_nick bits) = mine w s ch bits
