-- ===== src/Moderation.antt =====
-- src/moderation.rs: the commands that a user types, who may use them, and the custom ones.
-- `to_lowercase` is an argument, as its table is Unicode's. The file that the custom commands are
-- read from, and its TOML, are not modelled; `HashMap` iterates in an order of its own, which is
-- that of the list here. `help_text` returns none where the source panics, at a slice that ends
-- within a character.
pub mod Commands
pub mod Help
use voirc.Base.{
  ℕ, zero, suc, ◌+◌, ◌-◌, Bool, true, false, not, Option, none, some, List, [], ◌∷◌, ◌++◌, Text,
  text_eq, eqb, ◌==◌, ltb, length, take, drop, if◌then◌else◌, map,
}
use voirc.Dict
use voirc.Dict.{Dict, or_else, mapped, and_then}
use voirc.Strings.{lit, trim, splitn, starts_with, strip_prefix, len, join, utf8_char}
use voirc.Strings.Decimal.{parse, u8_max}
use voirc.Config.{Role, can_moderate, can_promote, as_str}
use voirc.Pow.{time_estimate}

pub data ModAction : Type 0 where
  kick ban unban promote demote : Text → ModAction

pub data Command : Type 0 where
  mod_command : ModAction → Command
  help list_banned show_role list_peers edit_commands invite reload diag : Command
  set_pow : ℕ → Command
  mine_nick : ℕ → Command
  custom : Text → Bool → Command
  unknown : Text → Command

pub record CommandEntry : Type 0 where
  pub response : Text
  pub description : Option Text
  pub broadcast : Bool

pub data CommandEntryOrString : Type 0 where
  full : CommandEntry → CommandEntryOrString
  simple : Text → CommandEntryOrString

unfoldable pub to_entry : CommandEntryOrString → CommandEntry
to_entry (full e) = e
to_entry (simple s) = record { response = s; description = none; broadcast = false }

abbrev pub CustomCommands : Type 0
CustomCommands = Dict Text CommandEntry

-- the commands of a file that was read and parsed; a file that was not gives none
unfoldable pub load : Option (List (Text × CommandEntryOrString)) → CustomCommands
unfolding to_entry
load none = []
load (some file) = map (λ (k, v). (k, to_entry v)) file

unfoldable pub get : CustomCommands → Text → Option Text
get commands name = mapped (λ (e : CommandEntry). e.response) (Dict.get commands name)

unfoldable pub is_broadcast : CustomCommands → Text → Bool
is_broadcast commands name =
    or_else (mapped (λ (e : CommandEntry). e.broadcast) (Dict.get commands name)) false

pub record CommandContext : Type 0 where
  pub nick : Text
  pub channel : Text
  pub role : Role
  pub peers : List Text

-- `str::replace` of a pattern that is not empty: from the left, without overlaps. Each turn takes a
-- character at least.
replace_from : ℕ → Text → Text → Text → Text
replace_from zero pattern to s = []
replace_from (suc fuel) pattern to [] = []
replace_from (suc fuel) pattern to (c ∷ s) = elim (strip_prefix pattern (c ∷ s)) [
  | some rest ↦ to ++ replace_from fuel pattern to rest
  | none ↦ c ∷ replace_from fuel pattern to s
]

unfoldable pub replace : Text → Text → Text → Text
unfolding replace_from
replace pattern to s = replace_from (length s) pattern to s

unfoldable pub expand_template : Text → CommandContext → Text
unfolding replace
expand_template template ctx =
    let a = replace (lit "{nick}") ctx.nick template in
    let b = replace (lit "{channel}") ctx.channel a in
    let c = replace (lit "{role}") (as_str ctx.role) b in
    replace (lit "{peers}") (join (lit ", ") ctx.peers) c

-- the arms of the `match` of `parse_command`
pub data Arm : Type 0 where
  help_arm list_banned_arm show_role_arm list_peers_arm edit_commands_arm invite_arm reload_arm
        diag_arm :
      Arm
  kick_arm ban_arm unban_arm promote_arm demote_arm pow_set_arm mine_arm : Arm

-- and the words that they match
abbrev pub arms : Dict Text Arm
arms =
    (lit "/?", help_arm)
    ∷ (lit "/help", help_arm)
    ∷ (lit "/kick", kick_arm)
    ∷ (lit "/ban", ban_arm)
    ∷ (lit "/unban", unban_arm)
    ∷ (lit "/listbanned", list_banned_arm)
    ∷ (lit "/bans", list_banned_arm)
    ∷ (lit "/mod", promote_arm)
    ∷ (lit "/unmod", demote_arm)
    ∷ (lit "/role", show_role_arm)
    ∷ (lit "/peers", list_peers_arm)
    ∷ (lit "/who", list_peers_arm)
    ∷ (lit "/powset", pow_set_arm)
    ∷ (lit "/mine", mine_arm)
    ∷ (lit "/editcommands", edit_commands_arm)
    ∷ (lit "/commands", edit_commands_arm)
    ∷ (lit "/invite", invite_arm)
    ∷ (lit "/link", invite_arm)
    ∷ (lit "/reload", reload_arm)
    ∷ (lit "/diag", diag_arm)
    ∷ (lit "/diagnostics", diag_arm)
    ∷ []

abbrev number : Option Text → Option ℕ
number arg = and_then arg (parse u8_max)

unfoldable pub run_arm : Arm → Option Text → Option Command
run_arm help_arm arg = some help
run_arm kick_arm arg = mapped (λ a. mod_command (kick a)) arg
run_arm ban_arm arg = mapped (λ a. mod_command (ban a)) arg
run_arm unban_arm arg = mapped (λ a. mod_command (unban a)) arg
run_arm list_banned_arm arg = some list_banned
run_arm promote_arm arg = mapped (λ a. mod_command (promote a)) arg
run_arm demote_arm arg = mapped (λ a. mod_command (demote a)) arg
run_arm show_role_arm arg = some show_role
run_arm list_peers_arm arg = some list_peers
run_arm pow_set_arm arg =
    some (or_else (mapped set_pow (number arg)) (unknown (lit "/powset <bits>")))
run_arm mine_arm arg = some (mine_nick (or_else (number arg) 16))
run_arm edit_commands_arm arg = some edit_commands
run_arm invite_arm arg = some invite
run_arm reload_arm arg = some reload
run_arm diag_arm arg = some diag

-- the last arm
unfoldable pub run_custom : CustomCommands → CommandContext → Text → Command
run_custom commands ctx cmd = elim (get commands (drop 1 cmd)) [
  | some template ↦ custom (expand_template template ctx) (is_broadcast commands (drop 1 cmd))
  | none ↦ unknown cmd
]

unfoldable pub run_word : CustomCommands → CommandContext → Text → Option Text → Option Command
unfolding run_arm run_custom
run_word commands ctx cmd arg = elim (Dict.get arms cmd) [
  | some arm ↦ run_arm arm arg
  | none ↦ some (run_custom commands ctx cmd)
]

unfoldable pub run_parts :
    (Text → Text) → CustomCommands → CommandContext → List Text → Option Command
run_parts to_lowercase commands ctx [] = none
run_parts to_lowercase commands ctx (w ∷ []) = run_word commands ctx (to_lowercase w) none
run_parts to_lowercase commands ctx (w ∷ a ∷ _) =
    run_word commands ctx (to_lowercase w) (some (trim a))

unfoldable pub parse_command :
    (Text → Text) → CustomCommands → CommandContext → Text → Option Command
parse_command to_lowercase commands ctx text =
    let trimmed = trim text in
    if not (starts_with (lit "/") trimmed)
    then none
    else run_parts to_lowercase commands ctx (splitn 2 b' ' trimmed)

-- the refusal, where there is one
unfoldable pub check_permission : Role → ModAction → Option Text
check_permission our_role (kick _) =
    if can_moderate our_role then none else some (lit "Only host and mods can kick/ban")
check_permission our_role (ban _) =
    if can_moderate our_role then none else some (lit "Only host and mods can kick/ban")
check_permission our_role (unban _) =
    if can_moderate our_role then none else some (lit "Only host and mods can kick/ban")
check_permission our_role (promote _) =
    if can_promote our_role then none else some (lit "Only the host can promote/demote mods")
check_permission our_role (demote _) =
    if can_promote our_role then none else some (lit "Only the host can promote/demote mods")
