-- ===== src/App/Joining.antt =====
-- Joining by a link in src/gui.rs comes to a call under a nick that meets the difficulty of the link.
use voirc.Base.{
  ℕ, ◌≡◌, ◌≢◌, ◌⊎◌, inl, inr, refl, sym, ap, ◌∙◌, true, false, Option, none, some, List, [], ◌∷◌,
  ◌++◌, Text, drop, length, ◌==◌, arith, Bool-cases, Option-cases,
}
use voirc.MagicLink.{ConnectionInfo, from_magic_link}
use voirc.Pow.{MinedNick, verify_nick, check_difficulty, base_name, mine_nick}
use voirc.Pow.Mining.{verify_nick-mine_nick, mine_nick-IsFirst, AllFail}
use voirc.App.{
  to_dec, mapped, lit, or_else, App, Outside, connect_to_server, nick_ok, mine_first, join_with,
  join_room, mined, finish_tasks, connect_pending, take_mined, update,
}

-- After `join_room`, the end of the tasks that it spawned, and the next `update`.
abbrev pub joined : Outside → App → App
joined o a = let a1 = join_room o a in update o (finish_tasks o a1 (drop (length a.tasks) a1.tasks))

drop-length {ℓ} : {A : Type ℓ} (xs ys : List A) → drop (length xs) (xs ++ ys) ≡ ys
drop-length [] ys = refl
drop-length (x ∷ xs) ys = drop-length xs ys

drop-all {ℓ} : {A : Type ℓ} (xs : List A) → drop (length xs) xs ≡ []
drop-all [] = refl
drop-all (x ∷ xs) = drop-all xs

module _ (o : Outside) (a : App) (key : Text) (info : ConnectionInfo) where
  -- The application is in a call over the connection of the link, under a nick of its own that the
  -- work of the server's difficulty stands behind.
  pub record IsInCall (after : App) : Type 0 where
    pub call_eq :
        after.call_state
        ≡ some (record { nickname = after.config.display_name; conn_info = info; is_host = false })
    pub accepted : verify_nick o.sha256 after.config.display_name key info.pow_required_bits ≡ true

  -- No nick of the search is good enough, and the application mines on for ever.
  pub record IsStuck (after : App) : Type 0 where
    pub all_fail :
        AllFail o.sha256 (base_name a.config.display_name) key info.pow_required_bits 0 200_000_000
    pub mining : after.mining_in_progress ≡ true
    pub no_result : update o after ≡ after
    pub call_eq : after.call_state ≡ a.call_state

  nick_ok-eq :
      (required : ℕ)
      → o.pubkey_hex ≡ some key
      → nick_ok o a required ≡ check_difficulty o.sha256 a.config.display_name key required
  unfolding nick_ok
  nick_ok-eq required known =
      ap
        (λ k.
          or_else (mapped (λ p. check_difficulty o.sha256 a.config.display_name p required) k)
            false)
        known

  -- A link connects at once where the nick is strong enough, and otherwise a search begins.
  join-cases :
      o.pubkey_hex ≡ some key
      → from_magic_link o.codec a.join_input ≡ some info
      → ((join_room o a ≡ connect_to_server o a info false)
          × (verify_nick o.sha256 a.config.display_name key info.pow_required_bits ≡ true))
        ⊎ ((join_room o a ≡ mine_first o a info) × (info.pow_required_bits ≢ 0))
  unfolding join_room join_with
  join-cases known link = elim (Bool-cases (info.pow_required_bits == 0)) [
    | inl e ↦ inl (rw link (rw e refl), unfold check_difficulty in ground arith)
    | inr e ↦ elim (Bool-cases (nick_ok o a info.pow_required_bits)) [
      | inl n ↦ inl (rw link (rw (e, n) refl), sym (nick_ok-eq info.pow_required_bits known) ∙ n)
      | inr n ↦ inr (rw link (rw (e, n) refl), ground arith)
    ]
  ]

  module _ (hm : o.mixer ≡ true) (ho : o.output ≡ true) where
    connect_to_server-call :
        (b : App)
        → ((connect_to_server o b info false).call_state
            ≡ some (record { nickname = b.config.display_name; conn_info = info; is_host = false }))
          × ((connect_to_server o b info false).config.display_name ≡ b.config.display_name)
          × ((connect_to_server o b info false).mine_result ≡ b.mine_result)
          × ((connect_to_server o b info false).tasks ≡ b.tasks)
    unfolding connect_to_server voirc.Config.add_recent_server
    connect_to_server-call b = rw (hm, ho) (refl, refl, refl, refl)

    -- A connection that is made at once stays as it is, as it spawns no task that mines.
    direct-IsInCall :
        a.mine_result ≡ none
        → verify_nick o.sha256 a.config.display_name key info.pow_required_bits ≡ true
        → let a1 = connect_to_server o a info false in
          IsInCall (update o (finish_tasks o a1 (drop (length a.tasks) a1.tasks)))
    unfolding update take_mined finish_tasks
    direct-IsInCall nr ok =
        let (call_eq, name_eq, result_eq, tasks_eq) = connect_to_server-call a in
        rw tasks_eq (
          rw (drop-all a.tasks) (
            rw (result_eq ∙ nr) (record {
              call_eq =
                  call_eq
                  ∙ ap (λ n. some (record { nickname = n; conn_info = info; is_host = false }))
                      (sym name_eq);
              accepted = rw name_eq ok;
            })))

    abbrev searched : Option MinedNick
    searched =
        mine_nick o.sha256 (base_name a.config.display_name) key info.pow_required_bits 200_000_000

    -- The application as `update` leaves it for `connect_to_server`, once the search gave a nick.
    found : MinedNick → App
    found m = record (mine_first o a info) {
      mine_result = none;
      mining_in_progress = false;
      pending_connect = none;
      config = record a.config { display_name = m.nick };
      join_error = some (
          lit "✓ New nick '"
          ++ (m.nick ++ (lit "' (" ++ (to_dec m.bits ++ lit " bits). Connecting…"))));
    }

    -- The one task that `mine_first` spawned is the search for the user's key and the link's difficulty.
    finish_tasks-eq :
        o.pubkey_hex ≡ some key
        → let a1 = mine_first o a info in
          finish_tasks o a1 (drop (length a.tasks) a1.tasks)
          ≡ mined o a1 (base_name a.config.display_name) key info.pow_required_bits
    unfolding finish_tasks mine_first
    finish_tasks-eq known =
        ap (finish_tasks o (mine_first o a info)) (drop-length a.tasks _)
        ∙ ap
            (λ k.
              mined o (mine_first o a info) (base_name a.config.display_name) (or_else k [])
                info.pow_required_bits)
            known

    -- The search that was begun ends, and its nick connects, or it finds none.
    mining-ends :
        o.pubkey_hex ≡ some key
        → info.pow_required_bits ≢ 0
        → let a1 = mine_first o a info in
          let after = update o (finish_tasks o a1 (drop (length a.tasks) a1.tasks)) in
          IsInCall after ⊎ IsStuck after
    unfolding update take_mined mined mine_first connect_pending found
    mining-ends known nz = rw (finish_tasks-eq known) (elim (Option-cases searched) [
      | inl e ↦ inr (
          rw e (record {
            all_fail =
                (mine_nick-IsFirst o.sha256 (base_name a.config.display_name) key
                    info.pow_required_bits 200_000_000 nz).1
                  e;
            mining = refl;
            no_result = refl;
            call_eq = refl;
          }))
      | inr (m, e) ↦ inl (
          rw e (record {
            call_eq =
                (connect_to_server-call (found m)).0
                ∙ ap (λ n. some (record { nickname = n; conn_info = info; is_host = false }))
                    (sym (connect_to_server-call (found m)).1);
            accepted = rw (connect_to_server-call (found m)).1 (
                verify_nick-mine_nick o.sha256 (base_name a.config.display_name) key
                  info.pow_required_bits 200_000_000 m e);
          }))
    ])

    -- A user who has a key opens a link, while no result of a search waits and the sound works. Then, once
    -- the tasks that this spawned have ended, the next `update` leaves the application in a call over the
    -- link's connection under a nick whose work meets the difficulty that the link names, or no nick
    -- among the first 200 million is good enough, and then the application shows for ever that it is
    -- mining.
    pub joined-IsInCall :
        o.pubkey_hex ≡ some key
        → from_magic_link o.codec a.join_input ≡ some info
        → a.mine_result ≡ none
        → IsInCall (joined o a) ⊎ IsStuck (joined o a)
    joined-IsInCall known link nr = elim (join-cases known link) [
      | inl (e, ok) ↦ inl (rw e (direct-IsInCall nr ok))
      | inr (e, nz) ↦ rw e (mining-ends known nz)
    ]
