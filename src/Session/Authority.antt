-- ===== src/Session/Authority.antt =====
-- Who may change a rank: `mod_action` events and `/promote` and `/demote` in src/gui.rs.
use voirc.Base.{
  Option-cases, ap, ◌≢◌, ◌⊎◌, ◌∙◌, eqb_iff, ◌≡◌, refl, Bool, true, false, not, ◌&&◌, Bool-cases,
  Option, none, some, Text, text_eq, eqb, if◌then◌else◌, inl, inr, arith,
}
use voirc.Dict
use voirc.Strings.{lit}
use voirc.Config.{Role, host, moderator, peer, can_moderate, can_promote}
use voirc.State
use voirc.State.{AppState, get_peer_role}
use voirc.Moderation.{ModAction, kick, ban, unban, promote, demote, mod_command, check_permission}
use voirc.Session.{emit, send_raw, World, Session, say, send_mod_action}
use voirc.Session.Commands.{apply_mod, moderate, run_command}
use voirc.Session.Events.{tell, change_rank, take_action, on_mod_action}

-- The rank that an action gives its target, who had another.
abbrev pub rank_after : Text → Role → Role
rank_after action old =
    if eqb action (lit "promote")
    then moderator
    else if eqb action (lit "demote")
    then peer
    else old

pub get_peer_role-set_peer_role :
    (s : AppState) (m : Text) (r : Role) (n : Text)
    → get_peer_role (State.set_peer_role s m r) n ≡ (if eqb m n then r else get_peer_role s n)
unfolding get_peer_role State.set_peer_role
get_peer_role-set_peer_role s m r n = ground (
  arith,
  Dict.get-insert s.peer_states m
      (record (Dict.or_else (Dict.get s.peer_states m) (State.fresh_peer m)) { role = r }) n,
)

if_same : (b : Bool) (r : Role) → r ≡ (if b then r else r)
if_same true r = refl
if_same false r = refl

module _ (w : World) (s : Session) (target : Text) where
  tell-app :
      (f : AppState → Role)
      → ((ch text : Text) → f (State.add_message s.app ch text) ≡ f s.app)
      → (to_us to_others : Text) → f (tell w s target to_us to_others).app ≡ f s.app
  unfolding tell say
  tell-app f e to_us to_others = elim (Bool-cases (eqb target w.nickname)) [
    | inl h ↦ rw h (e _ _)
    | inr h ↦ rw h (e _ _)
  ]

  tell-get_peer_role :
      (to_us to_others n : Text)
      → get_peer_role (tell w s target to_us to_others).app n ≡ get_peer_role s.app n
  unfolding get_peer_role State.add_message
  tell-get_peer_role to_us to_others n =
      tell-app (λ a. get_peer_role a n) (λ ch text. refl) to_us to_others

  tell-our_role :
      (to_us to_others : Text) → (tell w s target to_us to_others).app.our_role ≡ s.app.our_role
  unfolding State.add_message
  tell-our_role to_us to_others = tell-app (λ a. a.our_role) (λ ch text. refl) to_us to_others

  change_rank-get_peer_role :
      (r : Role) (n : Text)
      → get_peer_role (change_rank w s target r).app n
        ≡ (if eqb target n then r else get_peer_role s.app n)
  unfolding change_rank State.set_our_role get_peer_role
  change_rank-get_peer_role r n = elim (Bool-cases (eqb target w.nickname)) [
    | inl h ↦ rw h (get_peer_role-set_peer_role s.app target r n)
    | inr h ↦ rw h (get_peer_role-set_peer_role s.app target r n)
  ]

  change_rank-our_role :
      (r : Role)
      → (change_rank w s target r).app.our_role
        ≡ (if eqb target w.nickname then r else s.app.our_role)
  unfolding change_rank State.set_our_role State.set_peer_role
  change_rank-our_role r = elim (Bool-cases (eqb target w.nickname)) [
    | inl h ↦ rw h refl
    | inr h ↦ rw h refl
  ]

rank_after-kick :
    (action : Text) (r : Role) → eqb action (lit "kick") ≡ true → rank_after action r ≡ r
unfolding voirc.Base.text_beq
rank_after-kick action r h = rw ((eqb_iff action (lit "kick")).0 h) refl

rank_after-ban :
    (action : Text) (r : Role) → eqb action (lit "ban") ≡ true → rank_after action r ≡ r
unfolding voirc.Base.text_beq
rank_after-ban action r h = rw ((eqb_iff action (lit "ban")).0 h) refl

module _ (w : World) (s : Session) (sender action target : Text) where
  -- An action that is carried out changes exactly what `rank_after` says.
  take_action-ranks :
      (f : AppState → Role) (hit : Bool)
      → ((t : Session) (a b : Text) → f (tell w t target a b).app ≡ f t.app)
      → ((r : Role) → f (change_rank w s target r).app ≡ (if hit then r else f s.app))
      → f (take_action w s sender action target).app
        ≡ (if hit then rank_after action (f s.app) else f s.app)
  unfolding take_action
  take_action-ranks f hit told changed = elim (Bool-cases (eqb action (lit "kick"))) [
    | inl k ↦ rw (k, rank_after-kick action (f s.app) k) (told s _ _ ∙ if_same hit (f s.app))
    | inr nk ↦ elim (Bool-cases (eqb action (lit "ban"))) [
      | inl k ↦ rw (nk, k, rank_after-ban action (f s.app) k) (told s _ _ ∙ if_same hit (f s.app))
      | inr nb ↦ elim (Bool-cases (eqb action (lit "promote"))) [
        | inl k ↦ rw (nk, nb, k) (told _ _ _ ∙ changed moderator)
        | inr np ↦ elim (Bool-cases (eqb action (lit "demote"))) [
          | inl k ↦ rw (nk, nb, np, k) (told _ _ _ ∙ changed peer)
          | inr nd ↦ rw (nk, nb, np, nd) (if_same hit (f s.app))
        ]
      ]
    ]
  ]

  -- What `on_mod_action` does to ranks: when the sender may moderate, its target gets the rank that
  -- the action gives, in the list of peers, and as our own rank when the target is us; every other
  -- rank stays. When the sender may not moderate, the whole session stays as it is.
  pub on_mod_action-ranks :
      (n : Text)
      → let allowed = can_moderate (get_peer_role s.app sender) in
        let moderated = on_mod_action w s sender action target in
        let after = moderated.app in
        (moderated ≡ (if allowed then moderated else s))
        × (get_peer_role after n ≡ (
            if allowed && eqb target n
            then rank_after action (get_peer_role s.app n)
            else get_peer_role s.app n))
        × (after.our_role ≡ (
            if allowed && eqb target w.nickname
            then rank_after action s.app.our_role
            else s.app.our_role))
  unfolding on_mod_action
  on_mod_action-ranks n = elim (Bool-cases (can_moderate (get_peer_role s.app sender))) [
    | inl h ↦ rw h (
      refl,
      take_action-ranks (λ a. get_peer_role a n) (eqb target n)
          (λ t a b. tell-get_peer_role w t target a b n)
          (λ r. change_rank-get_peer_role w s target r n),
      take_action-ranks (λ a. a.our_role) (eqb target w.nickname)
          (λ t a b. tell-our_role w t target a b) (change_rank-our_role w s target),
    )
    | inr h ↦ rw h (refl, refl, refl)
  ]

-- The nick that an action names.
abbrev pub target_of : ModAction → Text
target_of (kick t) = t
target_of (ban t) = t
target_of (unban t) = t
target_of (promote t) = t
target_of (demote t) = t

host_only :
    (r : Role)
    → (if can_promote r then none else some (lit "Only the host can promote/demote mods")) ≡ none
    → r ≡ host
unfolding can_promote
host_only host e = refl
host_only moderator e = ground arith
host_only peer e = ground arith

module _ (w : World) (s : Session) (ch : Text) where
  send_mod_action-app : (action target : Text) → (send_mod_action w s ch action target).app ≡ s.app
  unfolding send_mod_action send_raw emit
  send_mod_action-app action target = elim (Bool-cases w.alive) [
    | inl h ↦ rw h refl
    | inr h ↦ rw h refl
  ]

  -- The new rank of the target of `/promote` or `/demote`.
  ranked-elsewhere :
      (action target : Text) (r : Role) (n : Text)
      → (get_peer_role (State.set_peer_role (send_mod_action w s ch action target).app target r) n
          ≡ get_peer_role s.app n)
        ⊎ (target ≡ n)
  ranked-elsewhere action target r n = elim (Bool-cases (eqb target n)) [
    | inl h ↦ inr ((eqb_iff target n).0 h)
    | inr h ↦ inl (
        rw (send_mod_action-app action target) (
          get_peer_role-set_peer_role s.app target r n
          ∙ ap (λ b. if b then r else get_peer_role s.app n) h))
  ]

  apply_mod-ranks :
      (action : ModAction) (n : Text)
      → (get_peer_role (apply_mod w s ch action).app n ≡ get_peer_role s.app n)
        ⊎ ((target_of action ≡ n) × ((r : Role) → check_permission r action ≡ none → r ≡ host))
  unfolding apply_mod say State.add_message get_peer_role check_permission
  apply_mod-ranks (kick t) n =
      inl (ap (λ a. get_peer_role a n) (send_mod_action-app (lit "kick") t))
  apply_mod-ranks (ban t) n = inl (ap (λ a. get_peer_role a n) (send_mod_action-app (lit "ban") t))
  apply_mod-ranks (unban t) n = inl refl
  apply_mod-ranks (promote t) n = elim (ranked-elsewhere (lit "promote") t moderator n) [
    | inl e ↦ inl e
    | inr e ↦ inr (e, host_only)
  ]
  apply_mod-ranks (demote t) n = elim (ranked-elsewhere (lit "demote") t peer n) [
    | inl e ↦ inl e
    | inr e ↦ inr (e, host_only)
  ]

  -- A rank that a moderation command of the user changes is that of the nick it names, and the user is
  -- the host.
  pub run_command-ranks :
      (action : ModAction) (n : Text)
      → get_peer_role (run_command w s ch (mod_command action)).app n ≢ get_peer_role s.app n
      → (target_of action ≡ n) × (w.our_role ≡ host)
  unfolding run_command moderate say State.add_message get_peer_role
  run_command-ranks action n ne = elim (Option-cases (check_permission w.our_role action)) [
    | inl e ↦ elim (apply_mod-ranks action n) [
      | inl unchanged ↦ absurd (ne (rw e unchanged))
      | inr (hit, rank) ↦ (hit, rank w.our_role e)
    ]
    | inr (msg, e) ↦ absurd (ne (rw e refl))
  ]
