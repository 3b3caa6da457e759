-- ===== src/App/Screens.antt =====
-- The screens of src/gui.rs and the call: which screen is shown when there is a call.
use voirc.Base.{
  ℕ, ◌≡◌, refl, Bool, true, false, not, Option, none, some, List, [], ◌∷◌, Text, text_eq, eqb,
  if◌then◌else◌, ◌==◌, Bool-cases, inl, inr,
}
use voirc.Dict.{is_some}
use voirc.Config.{UserConfig, TurnServer}
use voirc.MagicLink.{ConnectionInfo, from_magic_link}
use voirc.Tls.{CertInfo}
use voirc.Pow.{MinedNick}
use voirc.Topology.{is_empty}
use voirc.App.{
  App, Screen, dashboard, host_setup, join_prompt, settings, recent_servers, in_call, Outside, Call,
  connect_to_server, start_hosting, host_on, host_with, start_plaintext, start_tls, join_room,
  join_with, nick_ok, mine_first, update, take_mined, connect_pending, mined,
}
use voirc.App.Window.{
  Window, new, Click, Turn, clicked, drawn, search_done, turn, run, click_on, click_dashboard,
  click_host, click_host_form, click_running, click_join, click_settings, click_recent, click_call,
  click_if_called, send_message, join_own, join_recent, copy_external, host_a_room, join_a_room,
  show_recent, show_settings, typed, slid, start_server, copy, join_your_room, back, connect, save,
  cancel, disconnect, enter, add_channel, picked_server, picked_channel, dropped_file, copy_invite,
  host_port, host_channels, join_input, settings_name, turn_url, turn_user, turn_cred, chat_input,
  new_channel_input, fill_turn,
}

abbrev pub is_in_call : Screen → Bool
is_in_call in_call = true
is_in_call _ = false

-- There is a call exactly while its screen is shown.
abbrev pub IsConsistent : App → Type 0
IsConsistent a = is_some a.call_state ≡ is_in_call a.screen

module _ (o : Outside) where
  connect_to_server-IsConsistent :
      (a : App) (info : ConnectionInfo) (is_host : Bool)
      → IsConsistent a
      → IsConsistent (connect_to_server o a info is_host)
  unfolding connect_to_server
  connect_to_server-IsConsistent a info is_host h = elim (Bool-cases o.mixer) [
    | inr e ↦ rw e h
    | inl e ↦ elim (Bool-cases o.output) [ inr f ↦ rw (e, f) h | inl f ↦ rw (e, f) refl ]
  ]

  -- The choice between two states.
  IsConsistent-if :
      (b : Bool) (a c : App) → IsConsistent a → IsConsistent c → IsConsistent (if b then a else c)
  IsConsistent-if true a c h k = h
  IsConsistent-if false a c h k = k

  join_room-IsConsistent : (a : App) → IsConsistent a → IsConsistent (join_room o a)
  unfolding join_room join_with mine_first
  join_room-IsConsistent a h = go (from_magic_link o.codec a.join_input)
    where
      go : (info : Option ConnectionInfo) → IsConsistent (join_with o a info)
      go none = h
      go (some info) =
          IsConsistent-if (info.pow_required_bits == 0) _ _
            (connect_to_server-IsConsistent a info false h)
            (IsConsistent-if (nick_ok o a info.pow_required_bits) _ _
              (connect_to_server-IsConsistent a info false h) h)

  host_with-IsConsistent :
      (a : App) (port : ℕ) (channels : List Text) (cert : Option CertInfo)
      → IsConsistent a
      → IsConsistent (host_with o a port channels cert)
  unfolding host_with start_plaintext start_tls
  host_with-IsConsistent a port [] cert h = h
  host_with-IsConsistent a port (c ∷ cs) none h = h
  host_with-IsConsistent a port (c ∷ cs) (some cert) h = h

  host_on-IsConsistent :
      (a : App) (port : Option ℕ) → IsConsistent a → IsConsistent (host_on o a port)
  unfolding host_on
  host_on-IsConsistent a none h = h
  host_on-IsConsistent a (some port) h = host_with-IsConsistent a port _ o.cert_info h

  start_hosting-IsConsistent : (a : App) → IsConsistent a → IsConsistent (start_hosting o a)
  unfolding start_hosting
  start_hosting-IsConsistent a h = host_on-IsConsistent a _ h

  connect_pending-IsConsistent :
      (a : App) (pending : Option (ConnectionInfo × Bool))
      → IsConsistent a
      → IsConsistent (connect_pending o a pending)
  unfolding connect_pending
  connect_pending-IsConsistent a none h = h
  connect_pending-IsConsistent a (some (info, is_host)) h =
      connect_to_server-IsConsistent (record a { pending_connect = none }) info is_host h

  take_mined-IsConsistent :
      (a : App) (m : Option MinedNick) → IsConsistent a → IsConsistent (take_mined o a m)
  unfolding take_mined
  take_mined-IsConsistent a none h = h
  take_mined-IsConsistent a (some m) h = connect_pending-IsConsistent _ a.pending_connect h

-- What is kept by a click on a screen without a call.
abbrev Kept : Window → Type 0
Kept w = IsConsistent w.app

Kept-if : (b : Bool) (v w : Window) → Kept v → Kept w → Kept (if b then v else w)
Kept-if true v w h k = h
Kept-if false v w h k = k

fill_turn-call :
    (w : Window) (servers : List TurnServer)
    → (fill_turn w servers).app.call_state ≡ w.app.call_state
fill_turn-call w [] = refl
fill_turn-call w (ts ∷ rest) = refl

module _ (o : Outside) (w : Window) (h : Kept w) (no_call : is_some w.app.call_state ≡ false) where
  click_dashboard-Kept : (c : Click) → Kept (click_dashboard w c)
  unfolding click_dashboard
  click_dashboard-Kept host_a_room = no_call
  click_dashboard-Kept join_a_room = no_call
  click_dashboard-Kept show_recent = Kept-if (is_empty w.app.config.recent_servers) _ _ h no_call
  click_dashboard-Kept show_settings =
      let w' = record w { settings_name = w.app.config.display_name } in
      rw (fill_turn-call w' w.app.config.turn_servers) no_call
  click_dashboard-Kept _ = h

  join_own-Kept : (info : Option ConnectionInfo) → Kept (join_own o w info)
  join_own-Kept none = h
  join_own-Kept (some info) = connect_to_server-IsConsistent o w.app info true h

  copied-Kept : (external : Option Text) → Kept (copy_external w external)
  copied-Kept none = h
  copied-Kept (some external) = h

  click_host-Kept : (link : Option Text) (c : Click) → Kept (click_host o w link c)
  unfolding click_host click_host_form click_running
  click_host-Kept none (typed host_port text) = h
  click_host-Kept none (typed host_channels text) = h
  click_host-Kept none start_server = start_hosting-IsConsistent o w.app h
  click_host-Kept none back = no_call
  click_host-Kept none (slid bits) = h
  click_host-Kept none _ = h
  click_host-Kept (some link) copy = copied-Kept w.host_link_external
  click_host-Kept (some link) join_your_room = join_own-Kept (from_magic_link o.codec link)
  click_host-Kept (some link) back = no_call
  click_host-Kept (some link) _ = h

  click_join-Kept : (c : Click) → Kept (click_join o w c)
  unfolding click_join
  click_join-Kept (typed join_input text) = h
  click_join-Kept connect =
      Kept-if w.app.mining_in_progress w _ h (join_room-IsConsistent o w.app h)
  click_join-Kept back = no_call
  click_join-Kept _ = h

  click_settings-Kept : (c : Click) → Kept (click_settings w c)
  unfolding click_settings
  click_settings-Kept (typed settings_name text) = h
  click_settings-Kept (typed turn_url text) = h
  click_settings-Kept (typed turn_user text) = h
  click_settings-Kept (typed turn_cred text) = h
  click_settings-Kept save = no_call
  click_settings-Kept cancel = no_call
  click_settings-Kept _ = h

  join_recent-Kept : (info : Option ConnectionInfo) → Kept (join_recent o w info)
  join_recent-Kept none = h
  join_recent-Kept (some info) = connect_to_server-IsConsistent o w.app info false h

  click_recent-Kept : (c : Click) → Kept (click_recent o w c)
  unfolding click_recent
  click_recent-Kept (picked_server link) = join_recent-Kept (from_magic_link o.codec link)
  click_recent-Kept back = no_call
  click_recent-Kept _ = h

module _ (w : Window) (h : Kept w) where
  send_message-Kept : (call : Option Call) → Kept (send_message w call)
  unfolding send_message
  send_message-Kept none = h
  send_message-Kept (some call) = Kept-if (not (eqb w.chat_input [])) _ w h h

  click_call-Kept : (c : Click) → Kept (click_call w c)
  unfolding click_call
  click_call-Kept disconnect = refl
  click_call-Kept enter = send_message-Kept w.app.call_state
  click_call-Kept add_channel = Kept-if (not (eqb w.new_channel_input [])) _ w h h
  click_call-Kept (picked_channel current channel) = Kept-if (eqb channel current) w _ h h
  click_call-Kept (copy_invite none) = h
  click_call-Kept (copy_invite (some link)) = h
  click_call-Kept (typed chat_input text) = h
  click_call-Kept (typed new_channel_input text) = h
  click_call-Kept (dropped_file name bytes) = h
  click_call-Kept _ = h

  click_if_called-Kept : (call : Option Call) (c : Click) → Kept (click_if_called w call c)
  click_if_called-Kept none c = h
  click_if_called-Kept (some call) c = click_call-Kept c

click_on-Kept :
    (o : Outside) (w : Window) (s : Screen) (c : Click)
    → w.app.screen ≡ s
    → Kept w
    → Kept (click_on o w s c)
unfolding click_on
click_on-Kept o w dashboard c e h = click_dashboard-Kept o w h (rw e at h) c
click_on-Kept o w host_setup c e h = click_host-Kept o w h (rw e at h) w.app.host_link c
click_on-Kept o w join_prompt c e h = click_join-Kept o w h (rw e at h) c
click_on-Kept o w settings c e h = click_settings-Kept o w h (rw e at h) c
click_on-Kept o w recent_servers c e h = click_recent-Kept o w h (rw e at h) c
click_on-Kept o w in_call c e h = click_if_called-Kept w h w.app.call_state c

turn-Kept : (o : Outside) (w : Window) (t : Turn) → Kept w → Kept (turn o w t)
unfolding turn update mined
turn-Kept o w (clicked c) h = click_on-Kept o w w.app.screen c refl h
turn-Kept o w drawn h = take_mined-IsConsistent o w.app w.app.mine_result h
turn-Kept o w (search_done base pubkey required) h = h

run-Kept : (o : Outside) (w : Window) (ts : List Turn) → Kept w → Kept (run o w ts)
unfolding run
run-Kept o w [] h = h
run-Kept o w (t ∷ ts) h = run-Kept o (turn o w t) ts (turn-Kept o w t h)

-- Whatever the user does and whenever a search for a nick ends, there is a call exactly while the
-- screen of a call is shown.
pub run-IsConsistent :
    (o : Outside) (config : UserConfig) (ts : List Turn)
    → let a = (run o (new config) ts).app in is_some a.call_state ≡ is_in_call a.screen
unfolding new
run-IsConsistent o config ts = run-Kept o (new config) ts refl
