-- ===== src/Session/Refines.antt =====
-- A session changes the state of the application by calls of its methods alone.
pub mod Commands
pub mod Events
pub mod Start
use voirc.Base.{
  ◌≡◌, refl, sym, ap, ◌∙◌, Bool, true, false, List, [], ◌∷◌, ◌++◌, Text, if◌then◌else◌, All,
  All-append, arith, ℕ, ◌≤◌,
}
use voirc.State.{AppState}
use voirc.State.Run.{Call, IsModest, run, add_message, set_peer_role}
use voirc.Log.{MessageLog}
use voirc.Log.Order.{IsOrdered}
use voirc.Session.{
  World, Session, Effect, say, emit, send_raw, send_message, send_mod_action, send_pow_set,
  announce_role, join_channel, part_channel, send_signal,
}

run-append : (a b : List Call) (s : AppState) → run s (a ++ b) ≡ run (run s a) b
unfolding run
run-append [] b s = refl
run-append (c ∷ a) b s = run-append a b _

-- From `s` to `t`, calls of methods lead, with histories of at most a thousand lines; an ordered log
-- stays ordered.
pub record Follows (s t : Session) : Type 0 where
  pub calls : List Call
  pub modest : All IsModest calls
  pub app_eq : t.app ≡ run s.app calls
  pub log_ordered : IsOrdered s.message_log → IsOrdered t.message_log

pub unchanged : {s t : Session} → t.app ≡ s.app → t.message_log ≡ s.message_log → Follows s t
unfolding run
unchanged {s} {t} e f = record { calls = []; modest = tt; app_eq = e; log_ordered = λ h. rw f h }

pub called :
    {s t : Session} (c : Call)
    → IsModest c
    → t.app ≡ run s.app (c ∷ [])
    → t.message_log ≡ s.message_log
    → Follows s t
called {s} {t} c m e f = record {
  calls = c ∷ [];
  modest = (m, tt);
  app_eq = e;
  log_ordered = λ h. rw f h;
}

infixr 5 ◌▸◌
pub ◌▸◌ : {s t u : Session} → Follows s t → Follows t u → Follows s u
◌▸◌ {s} {t} {u} p q = record {
  calls = p.calls ++ q.calls;
  modest = All-append IsModest p.calls q.calls p.modest q.modest;
  app_eq = q.app_eq ∙ ap (λ a. run a q.calls) p.app_eq ∙ sym (run-append p.calls q.calls s.app);
  log_ordered = λ h. q.log_ordered (p.log_ordered h);
}

pub Follows-if :
    (b : Bool) {s m n : Session} → Follows s m → Follows s n → Follows s (if b then m else n)
Follows-if true p q = p
Follows-if false p q = q

module _ (s : Session) where
  pub same : Follows s s
  same = unchanged refl refl

  pub say-Follows : (ch text : Text) → Follows s (say s ch text)
  unfolding say run
  say-Follows ch text = called (add_message ch text) tt refl refl

  pub emit-Follows : (e : Effect) → Follows s (emit s e)
  unfolding emit
  emit-Follows e = unchanged refl refl

module _ (w : World) (s : Session) where
  pub send_raw-Follows : (line : Text) → Follows s (send_raw w s line)
  unfolding send_raw
  send_raw-Follows line = Follows-if w.alive (emit-Follows s _) (same s)

  pub send_signal-Follows : (target payload : Text) → Follows s (send_signal w s target payload)
  unfolding send_signal
  send_signal-Follows target payload = Follows-if w.alive (emit-Follows s _) (same s)

  pub send_message-Follows : (ch text : Text) → Follows s (send_message w s ch text)
  unfolding send_message
  send_message-Follows ch text = send_raw-Follows _
