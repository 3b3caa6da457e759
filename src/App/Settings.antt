-- ===== src/App/Settings.antt =====
-- The settings of src/gui.rs.
use voirc.Base.{
  ◌≡◌, refl, ap, ◌∙◌, false, List, [], ◌∷◌, Text, text_eq, eqb, if◌then◌else◌, Bool-cases, inl, inr,
}
use voirc.Config.{TurnServer}
use voirc.App.{dashboard, settings, Outside}
use voirc.App.Window.{
  Window, show_settings, save, cancel, typed, turn_url, clicked, turn, run, click_on,
  click_dashboard, click_settings, fill_turn, show,
}

module _ (o : Outside) (w : Window) where
  -- the settings, opened
  abbrev opened : List TurnServer → Window
  opened servers =
      show (fill_turn (record w { settings_name = w.app.config.display_name }) servers) settings

  opened_lem :
      (servers : List TurnServer)
      → w.app.screen ≡ dashboard
      → w.app.config.turn_servers ≡ servers
      → turn o w (clicked show_settings) ≡ opened servers
  unfolding turn click_on click_dashboard
  opened_lem servers on_dashboard e =
      ap (λ s. click_on o w s show_settings) on_dashboard ∙ ap opened e

-- Where TURN servers are configured, opening the settings and saving them as they are drops all but the
-- first, and the first too where its URL is empty; the name and the other fields of the configuration
-- stay.
pub save_drops_servers :
    (o : Outside) (w : Window) (ts : TurnServer) (rest : List TurnServer)
    → w.app.screen ≡ dashboard
    → w.app.config.turn_servers ≡ ts ∷ rest
    → (run o w (clicked show_settings ∷ clicked save ∷ [])).app.config
      ≡ record w.app.config { turn_servers = if eqb ts.url [] then [] else ts ∷ [] }
unfolding run turn click_on click_settings
save_drops_servers o w ts rest on_dashboard servers =
    ap (λ (v : Window). (run o v (clicked save ∷ [])).app.config)
      (opened_lem o w (ts ∷ rest) on_dashboard servers)
    ∙ elim (Bool-cases (eqb ts.url [])) [ inl e ↦ rw e refl | inr e ↦ rw e refl ]

-- A TURN server that was typed and cancelled is saved by the next visit that only saves, where none
-- is configured.
pub cancelled_is_saved :
    (o : Outside) (w : Window) (url : Text)
    → w.app.screen ≡ dashboard
    → w.app.config.turn_servers ≡ []
    → eqb url [] ≡ false
    → (run o w (
        clicked show_settings
        ∷ clicked (typed turn_url url)
        ∷ clicked cancel
        ∷ clicked show_settings
        ∷ clicked save
        ∷ [])).app.config.turn_servers
      ≡ record { url = url; username = w.settings_turn_user; credential = w.settings_turn_cred }
        ∷ []
unfolding run turn click_on click_settings click_dashboard
cancelled_is_saved o w url on_dashboard servers given =
    ap
      (λ (v : Window).
        (run o v (
          clicked (typed turn_url url)
          ∷ clicked cancel
          ∷ clicked show_settings
          ∷ clicked save
          ∷ [])).app.config.turn_servers)
      (opened_lem o w [] on_dashboard servers)
    ∙ rw (servers, given) refl
