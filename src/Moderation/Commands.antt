-- ===== src/Moderation/Commands.antt =====
-- What the commands of src/moderation.rs promise.
use voirc.Base.{
  sym, ◌≡◌, ◌≢◌, refl, ◌∙◌, Bool, true, false, Option, none, some, List, [], ◌∷◌, Text, text_eq,
  arith, drop, Option-cases, Bool-cases, inl, inr, ◌↔◌,
}
use voirc.Dict
use voirc.Strings.{lit, trim, splitn, starts_with}
use voirc.Config.{Role, host, moderator, peer, can_moderate, can_promote, is_superpeer}
use voirc.Moderation.{
  kick, ban, unban, promote, demote, custom, CustomCommands, CommandContext, Arm, arms, run_arm,
  run_custom, kick_arm, ban_arm, unban_arm, promote_arm, demote_arm, pow_set_arm, number, unknown,
  is_broadcast, run_word, run_parts, parse_command, check_permission, expand_template, get,
}

run_arm-ne_custom :
    (arm : Arm) (arg : Option Text) (response : Text) (b : Bool)
    → run_arm arm arg ≢ some (custom response b)
unfolding run_arm
run_arm-ne_custom kick_arm arg response b = elim (Option-cases arg) [
  | inl e ↦ ground (arith, e)
  | inr (a, e) ↦ ground (arith, e)
]
run_arm-ne_custom ban_arm arg response b = elim (Option-cases arg) [
  | inl e ↦ ground (arith, e)
  | inr (a, e) ↦ ground (arith, e)
]
run_arm-ne_custom unban_arm arg response b = elim (Option-cases arg) [
  | inl e ↦ ground (arith, e)
  | inr (a, e) ↦ ground (arith, e)
]
run_arm-ne_custom promote_arm arg response b = elim (Option-cases arg) [
  | inl e ↦ ground (arith, e)
  | inr (a, e) ↦ ground (arith, e)
]
run_arm-ne_custom demote_arm arg response b = elim (Option-cases arg) [
  | inl e ↦ ground (arith, e)
  | inr (a, e) ↦ ground (arith, e)
]
run_arm-ne_custom pow_set_arm arg response b = elim (Option-cases (number arg)) [
  | inl e ↦ ground (arith, e)
  | inr (n, e) ↦ ground (arith, e)
]
run_arm-ne_custom _ arg response b = ground arith

-- What stands behind a custom answer: no built-in word, and a template under the word's name.
abbrev pub IsCustom : CustomCommands → CommandContext → Text → Text → Type 0
IsCustom commands ctx cmd response =
    (Dict.get arms cmd ≡ none)
    × ((template : Text) × (get commands (drop 1 cmd) ≡ some template)
        × (response ≡ expand_template template ctx))

module _ (commands : CustomCommands) (ctx : CommandContext) (cmd : Text) where
  run_word-arm :
      (arg : Option Text) (arm : Arm)
      → Dict.get arms cmd ≡ some arm
      → run_word commands ctx cmd arg ≡ run_arm arm arg
  unfolding run_word
  run_word-arm arg arm e = rw (e, run_word) refl

  run_word-no_arm :
      (arg : Option Text)
      → Dict.get arms cmd ≡ none
      → run_word commands ctx cmd arg ≡ some (run_custom commands ctx cmd)
  unfolding run_word
  run_word-no_arm arg e = rw (e, run_word) refl

  run_custom-none : get commands (drop 1 cmd) ≡ none → run_custom commands ctx cmd ≡ unknown cmd
  unfolding run_custom
  run_custom-none e = rw (e, run_custom) refl

  run_custom-some :
      (template : Text)
      → get commands (drop 1 cmd) ≡ some template
      → run_custom commands ctx cmd
        ≡ custom (expand_template template ctx) (is_broadcast commands (drop 1 cmd))
  unfolding run_custom
  run_custom-some template e = rw (e, run_custom) refl

  run_word-Custom :
      (arg : Option Text) (response : Text) (b : Bool)
      → run_word commands ctx cmd arg ≡ some (custom response b)
      → IsCustom commands ctx cmd response
  run_word-Custom arg response b h = elim (Option-cases (Dict.get arms cmd)) [
    | inr (arm, e) ↦
        elim (run_arm-ne_custom arm arg response b (sym (run_word-arm arg arm e) ∙ h)) [ ]
    | inl e ↦ elim (Option-cases (get commands (drop 1 cmd))) [
      | inl f ↦ cc (run_word-no_arm arg e, run_custom-none f, h)
      | inr (t, f) ↦ (e, (t, f, cc (run_word-no_arm arg e, run_custom-some t f, h)))
    ]
  ]

run_parts-Custom :
    (lower : Text → Text) (commands : CustomCommands) (ctx : CommandContext) (parts : List Text)
    (response : Text) (b : Bool)
    → run_parts lower commands ctx parts ≡ some (custom response b)
    → (word : Text) × (rest : List Text) × (parts ≡ word ∷ rest)
      × IsCustom commands ctx (lower word) response
unfolding run_parts
run_parts-Custom lower commands ctx [] response b h = cc h
run_parts-Custom lower commands ctx (w ∷ []) response b h =
    (w, [], refl, run_word-Custom commands ctx (lower w) none response b h)
run_parts-Custom lower commands ctx (w ∷ a ∷ rest) response b h =
    (w, a ∷ rest, refl, run_word-Custom commands ctx (lower w) (some (trim a)) response b h)

parse_command-slash :
    (lower : Text → Text) (commands : CustomCommands) (ctx : CommandContext) (text : Text)
    → starts_with (lit "/") (trim text) ≡ true
    → parse_command lower commands ctx text
      ≡ run_parts lower commands ctx (splitn 2 b' ' (trim text))
unfolding parse_command
parse_command-slash lower commands ctx text e = rw (e, parse_command) refl

parse_command-no_slash :
    (lower : Text → Text) (commands : CustomCommands) (ctx : CommandContext) (text : Text)
    → starts_with (lit "/") (trim text) ≡ false
    → parse_command lower commands ctx text ≡ none
unfolding parse_command
parse_command-no_slash lower commands ctx text e = rw (e, parse_command) refl

-- A custom answer is given only to a text that starts with a slash, whose first word in lower case is
-- no built-in command and is known as a custom one; the answer is that one's template, filled in.
pub parse_command-Custom :
    (lower : Text → Text) (commands : CustomCommands) (ctx : CommandContext) (text response : Text)
    (b : Bool)
    → parse_command lower commands ctx text ≡ some (custom response b)
    → (starts_with (lit "/") (trim text) ≡ true)
      × ((word : Text) × (rest : List Text) × (splitn 2 b' ' (trim text) ≡ word ∷ rest)
          × IsCustom commands ctx (lower word) response)
parse_command-Custom lower commands ctx text response b h =
    elim (Bool-cases (starts_with (lit "/") (trim text))) [
      | inl e ↦ (
        e,
        run_parts-Custom lower commands ctx (splitn 2 b' ' (trim text)) response b
            (sym (parse_command-slash lower commands ctx text e) ∙ h),
      )
      | inr e ↦ cc (parse_command-no_slash lower commands ctx text e, h)
    ]

-- Exactly the superpeers may kick, ban and unban, and exactly the host may promote and demote.
pub check_permission_lem :
    (role : Role) (nick : Text)
    → ((check_permission role (kick nick) ≡ none) ↔ (is_superpeer role ≡ true))
      × ((check_permission role (ban nick) ≡ none) ↔ (is_superpeer role ≡ true))
      × ((check_permission role (unban nick) ≡ none) ↔ (is_superpeer role ≡ true))
      × ((check_permission role (promote nick) ≡ none) ↔ (role ≡ host))
      × ((check_permission role (demote nick) ≡ none) ↔ (role ≡ host))
unfolding check_permission can_moderate can_promote is_superpeer
check_permission_lem host nick = ground arith
check_permission_lem moderator nick = ground arith
check_permission_lem peer nick = ground arith
