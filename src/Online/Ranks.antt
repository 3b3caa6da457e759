-- ===== src/Online/Ranks.antt =====
-- What a peer can do to the ranks of a session: `VOIRC_PUBKEY`, `VOIRC_ROLE` and `VOIRC_MOD` of
-- src/irc_client.rs, and `mod_action` of src/gui.rs.
use voirc.Base.{
  ℕ, ◌≡◌, ◌≢◌, refl, ap, ◌∙◌, true, false, Option, none, some, List, [], ◌∷◌, ◌++◌, Text, text_eq,
  eqb, eqb_refl, All, arith, if◌then◌else◌,
}
use voirc.Dict.{is_some}
use voirc.Strings.{lit, trim, split_once}
use voirc.Config.{Role, host, peer, can_moderate}
use voirc.Config
use voirc.State
use voirc.State.{AppState, get_peer_role}
use voirc.Fragments.{Buffers, expire}
use voirc.Client.{
  Context, Client, Event, key_prefix, mod_action, quiet, raising, register, is_verified, take_role,
  take_mod,
}
use voirc.Client.Handler.{
  nickname, privmsg, voirc_role, voirc_mod, handle_privmsg, handle_message, dispatch,
  take_privileged,
}
use voirc.Client.Gate.{handle_privmsg-pubkey, handle_privmsg-verified, is_verified-register}
use voirc.Client.Reader.{Parsed, message, take_parsed, read_line}
use voirc.Session.{World}
use voirc.Session.Loop.{step}
use voirc.Session.Events.{on_event, on_mod_action}
use voirc.Session.Authority.{on_mod_action-ranks, get_peer_role-set_peer_role, rank_after}
use voirc.Online.{Online, line_read, event_taken, react, client_of, take_next, happen, run}

-- A line that is read as a message of `nick` to `target`.
abbrev pub Says : (Text → Parsed) → Text → Text → Text → Text → Type 0
Says from_str line nick target text =
    (eqb (trim line) [] ≡ false)
    × (from_str (trim line) ≡ message (nickname nick) (privmsg target text))

-- the client once old fragments are dropped
abbrev pub expired : Context → Client → Client
expired k h = record h { fragments = expire k.clock h.fragments }

module _ (from_str : Text → Parsed) (debug : Option Text → Text) where
  read_line-Says :
      (k : Context) (h : Client) (line nick target text : Text)
      → Says from_str line nick target text
      → read_line from_str debug k h line ≡ handle_privmsg k (expired k h) nick target text
  unfolding read_line take_parsed handle_message dispatch
  read_line-Says k h line nick target text says = rw (says.0, says.1) refl

  pub happen-Says :
      (s : Online) (k : Context) (line nick target text : Text)
      → s.reading ≡ true
      → Says from_str line nick target text
      → happen from_str debug s (line_read k line)
        ≡ react s (handle_privmsg k (expired k (client_of s)) nick target text)
  unfolding happen
  happen-Says s k line nick target text reads says =
      ap (λ b. if b then react s (read_line from_str debug k (client_of s) line) else s) reads
      ∙ ap (react s) (read_line-Says k (client_of s) line nick target text says)

  pub happen-taken :
      (s : Online) (w : World) (e : Event)
      → s.session.running ≡ true
      → s.queue ≡ e ∷ []
      → happen from_str debug s (event_taken w) ≡ take_next w s (e ∷ [])
  unfolding happen
  happen-taken s w e running waiting =
      ap (λ b. if b then take_next w s s.queue else s) running ∙ ap (take_next w s) waiting

module _ (s : Online) (w : World) (k1 k2 k3 : Context) (attacker pubkey : Text) where
  abbrev known_state : Online
  known_state = react s (quiet (register (expired k1 (client_of s)) attacker pubkey))

  abbrev host_state : Online
  host_state =
      react known_state (take_role (expired k2 (client_of known_state)) attacker (lit "host"))

  abbrev demoted : Event
  demoted = mod_action attacker (lit "demote") w.nickname

  abbrev told_state : Online
  told_state = react host_state (raising (expired k3 (client_of host_state)) demoted)

  host_text : Config.from_str (trim (lit "host")) ≡ host
  unfolding Config.from_str trim voirc.Base.text_beq
  host_text = refl

  host_role : get_peer_role told_state.session.app attacker ≡ host
  host_role =
      get_peer_role-set_peer_role (State.register_peer_pubkey s.session.app attacker pubkey).0
        attacker _ attacker
      ∙ ap
          (λ b.
            if b
            then Config.from_str (trim (lit "host"))
            else get_peer_role (State.register_peer_pubkey s.session.app attacker pubkey).0
                attacker)
          (eqb_refl attacker)
      ∙ host_text

  rank_after-demote : (r : Role) → rank_after (lit "demote") r ≡ peer
  unfolding voirc.Base.text_beq
  rank_after-demote r = refl

  demoted_lem :
      (on_mod_action w told_state.session attacker (lit "demote") w.nickname).app.our_role ≡ peer
  unfolding can_moderate
  demoted_lem =
      (on_mod_action-ranks w told_state.session attacker (lit "demote") w.nickname attacker).2
      ∙ rw (host_role, eqb_refl w.nickname, rank_after-demote) refl

  known :
      (f : Buffers)
      → is_verified (record (register (client_of s) attacker pubkey) { fragments = f }) attacker
        ≡ true
  unfolding is_verified
  known f = is_verified-register (client_of s) attacker pubkey

  known_as_host :
      (f : Buffers) → is_verified (record (client_of host_state) { fragments = f }) attacker ≡ true
  unfolding is_verified State.set_peer_role State.pubkey_for_nick
  known_as_host f = is_verified-register (client_of s) attacker pubkey

  pubkey_step :
      (from_str : Text → Parsed) (debug : Option Text → Text) (line target : Text)
      → All (λ c. c ≢ b':') attacker
      → is_some (key_prefix pubkey) ≡ true
      → s.reading ≡ true
      → Says from_str line attacker target (lit "VOIRC_PUBKEY:" ++ (attacker ++ b':' ∷ pubkey))
      → happen from_str debug s (line_read k1 line) ≡ known_state
  pubkey_step from_str debug line target no_colon cut reads says =
      happen-Says from_str debug s k1 line attacker target _ reads says
      ∙ ap (react s) (
          handle_privmsg-pubkey k1 (expired k1 (client_of s)) attacker target attacker pubkey
            no_colon cut)

  role_step :
      (from_str : Text → Parsed) (debug : Option Text → Text) (line target : Text)
      → s.reading ≡ true
      → Says from_str line attacker target (lit "VOIRC_ROLE:host")
      → happen from_str debug known_state (line_read k2 line) ≡ host_state
  unfolding take_privileged
  role_step from_str debug line target reads says =
      happen-Says from_str debug known_state k2 line attacker target _ reads says
      ∙ ap (react known_state) (
          handle_privmsg-verified k2 (expired k2 (client_of known_state)) attacker target
            (lit "host") voirc_role (known _))

  mod_step :
      (from_str : Text → Parsed) (debug : Option Text → Text) (line target : Text)
      → s.reading ≡ true
      → Says from_str line attacker target (lit "VOIRC_MOD:demote:" ++ w.nickname)
      → happen from_str debug host_state (line_read k3 line) ≡ told_state
  unfolding take_privileged take_mod split_once
  mod_step from_str debug line target reads says =
      happen-Says from_str debug host_state k3 line attacker target _ reads says
      ∙ ap (react host_state) (
          handle_privmsg-verified k3 (expired k3 (client_of host_state)) attacker target
            (lit "demote:" ++ w.nickname) voirc_mod (known_as_host _))

  taken_step :
      (from_str : Text → Parsed) (debug : Option Text → Text)
      → s.session.running ≡ true
      → s.queue ≡ []
      → (happen from_str debug told_state (event_taken w)).session.app.our_role ≡ peer
  unfolding step on_event
  taken_step from_str debug running empty =
      ap (λ (o : Online). o.session.app.our_role)
        (happen-taken from_str debug told_state w demoted running (rw empty refl))
      ∙ demoted_lem

  -- Any peer at all, whose nick holds no colon, takes our rank by three messages: one that names a key
  -- for its nick, of which the log can show the first 8 bytes, one that says it is the host, and one that
  -- demotes us. No signature is asked for, and it may be we who host. The reader and the loop run, and no
  -- event waits.
  pub anyone_demotes :
      (from_str : Text → Parsed) (debug : Option Text → Text) (line1 line2 line3 target : Text)
      → All (λ c. c ≢ b':') attacker
      → is_some (key_prefix pubkey) ≡ true
      → s.reading ≡ true
      → Says from_str line1 attacker target (lit "VOIRC_PUBKEY:" ++ (attacker ++ b':' ∷ pubkey))
      → Says from_str line2 attacker target (lit "VOIRC_ROLE:host")
      → Says from_str line3 attacker target (lit "VOIRC_MOD:demote:" ++ w.nickname)
      → s.session.running ≡ true
      → s.queue ≡ []
      → (run from_str debug s (
          line_read k1 line1
          ∷ line_read k2 line2
          ∷ line_read k3 line3
          ∷ event_taken w
          ∷ [])).session.app.our_role
        ≡ peer
  unfolding run
  anyone_demotes from_str debug line1 line2 line3 target no_colon cut reads says1 says2 says3
        running empty =
      let go = run from_str debug in
      ap
        (λ o.
          (go o
            (line_read k2 line2 ∷ line_read k3 line3 ∷ event_taken w ∷ [])).session.app.our_role)
        (pubkey_step from_str debug line1 target no_colon cut reads says1)
      ∙ ap (λ o. (go o (line_read k3 line3 ∷ event_taken w ∷ [])).session.app.our_role)
          (role_step from_str debug line2 target reads says2)
      ∙ ap (λ o. (go o (event_taken w ∷ [])).session.app.our_role)
          (mod_step from_str debug line3 target reads says3)
      ∙ taken_step from_str debug running empty
