-- ===== src/Moderation/Help.antt =====
-- `help_text` of src/moderation.rs.
use voirc.Base.{Option, none, some, List, [], ◌∷◌, ◌++◌, Text, text_eq, ltb, if◌then◌else◌}
use voirc.Dict.{or_else, mapped}
use voirc.Strings.{lit, len}
use voirc.Strings.Slices.{slice_to}
use voirc.Config.{Role, can_moderate, can_promote}
use voirc.Pow.{time_estimate}
use voirc.Moderation.{CustomCommands}

unfoldable pub truncated : Text → Option Text
unfolding slice_to
truncated desc =
    if ltb 40 (len desc) then mapped (λ t. t ++ lit "...") (slice_to 37 desc) else some desc

abbrev onto : Option Text → Option (List Text) → Option (List Text)
onto (some line) (some lines) = some (line ∷ lines)
onto _ _ = none

custom_lines : CustomCommands → Option (List Text)
unfolding truncated
custom_lines [] = some []
custom_lines ((name, entry) ∷ commands) =
    onto
      (mapped (λ t. b'/' ∷ (name ++ (lit "  " ++ t)))
        (truncated (or_else entry.description entry.response)))
      (custom_lines commands)

unfoldable pub custom_help : CustomCommands → Option (List Text)
unfolding custom_lines
custom_help [] = some []
custom_help (entry ∷ commands) = onto (some (lit "── Custom ──")) (custom_lines (entry ∷ commands))

abbrev pub general_lines : List Text
general_lines =
    lit "── Commands ──"
    ∷ lit "/help, /?       Show this help"
    ∷ lit "/role           Show your current role"
    ∷ lit "/peers, /who    List connected peers"
    ∷ lit "/invite, /link  Copy invite link to clipboard"
    ∷ lit "/diag           Show connection diagnostics"
    ∷ lit "/editcommands   Open commands.toml for custom commands"
    ∷ lit "/reload         Reload custom commands from disk"
    ∷ (lit "/mine [bits]    Mine a new nick at N bits (default 16, ~"
        ++ (time_estimate 16 ++ lit ")"))
    ∷ []

abbrev pub moderation_lines : List Text
moderation_lines =
    lit "/kick <nick>    Disconnect a user"
    ∷ lit "/ban <nick>     Ban a user"
    ∷ lit "/unban <nick>   Unban a user"
    ∷ lit "/listbanned     Show ban list"
    ∷ lit "/powset <bits>  Change server PoW requirement (0=off)"
    ∷ []

abbrev pub promotion_lines : List Text
promotion_lines =
    lit "/mod <nick>     Promote to mod (superpeer)" ∷ lit "/unmod <nick>   Demote from mod" ∷ []

unfoldable pub help_text : Role → CustomCommands → Option (List Text)
unfolding custom_help
help_text our_role commands =
    mapped
      (λ lines.
        general_lines
        ++ ((if can_moderate our_role then moderation_lines else [])
            ++ ((if can_promote our_role then promotion_lines else []) ++ lines)))
      (custom_help commands)
