-- ===== src/App/Display.antt =====
-- How the chat of src/gui.rs shows a line.
use voirc.Base.{
  ◌≡◌, ◌≢◌, refl, ap, ◌∙◌, Bool, true, false, Option, none, some, List, [], ◌∷◌, ◌++◌, Text,
  text_eq, eqb, All, arith, append_assoc,
}
use voirc.Strings.{lit, strip_prefix, split_once, trim}
use voirc.Strings.Laws.{split_once-append}
use voirc.Config.{can_moderate}
use voirc.State.{get_peer_role}
use voirc.Session.{World, Session, say}
use voirc.Session.Commands.{chat_line}
use voirc.Session.Events.{on_mod_action, take_action, tell}

-- A line as it is drawn: what somebody said, a line that only looks like it, or one of the program.
pub data Shown : Type 0 where
  said : Text → Text → Shown
  plain notice : Text → Shown

unfoldable pub show_said : Text → Option (Text × Text) → Shown
show_said msg none = plain msg
show_said msg (some (nick, text)) = said nick (trim text)

unfoldable pub show_line : Text → Shown
unfolding show_said
show_line msg = elim (strip_prefix (lit "<") msg) [
  | none ↦ notice msg
  | some rest ↦ show_said msg (split_once b'>' rest)
]

-- A chat message is shown as its sender's, with the text that was sent but for white space around it.
pub show_line-chat_line :
    (nick text : Text)
    → All (λ c. c ≢ b'>') nick
    → show_line (chat_line nick text) ≡ said nick (trim text)
unfolding show_line strip_prefix show_said trim
show_line-chat_line nick text no_bracket =
    ap (show_said (chat_line nick text)) (split_once-append b'>' nick (b' ' ∷ text) no_bracket)

-- A peer that may moderate can put words into the mouth of anyone else: a kick whose target begins like a
-- chat message adds a line that is shown as said by the one it names.
pub forged_message :
    (w : World) (s : Session) (sender victim text : Text)
    → All (λ c. c ≢ b'>') victim
    → can_moderate (get_peer_role s.app sender) ≡ true
    → eqb (chat_line victim text) w.nickname ≡ false
    → (line : Text) × (on_mod_action w s sender (lit "kick") (chat_line victim text)
        ≡ say s s.current_channel line)
      × (show_line line ≡ said victim (trim (text ++ (lit " was kicked by " ++ sender))))
unfolding on_mod_action take_action tell voirc.Base.text_beq
forged_message w s sender victim text no_bracket allowed other =
    let by = lit " was kicked by " ++ sender in
    (
      chat_line victim text ++ by,
      rw (allowed, other) refl,
      ap show_line (ap (λ l. b'<' ∷ l) (append_assoc victim (lit "> " ++ text) by))
          ∙ show_line-chat_line victim (text ++ by) no_bracket,
    )
