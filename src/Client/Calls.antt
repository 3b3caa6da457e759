-- ===== src/Client/Calls.antt =====
-- What the messages that a client handles do to the state of the application.
use voirc.Base.{All, ◌≡◌, refl, List, [], ◌∷◌}
use voirc.State.{AppState}
use voirc.State.Run.{Call, IsModest, run, set_peer_role, remove_peer, register_peer_pubkey}
use voirc.Client.{Context, Client}
use voirc.Client.Handler.{Prefix, Command, handle_message}
use voirc.Client.Steps.{IsClosed, handle_message-After}

-- Calls of methods that lead from one state to another.
pub record Calls (a b : AppState) : Type 0 where
  pub calls : List Call
  pub modest : All IsModest calls
  pub app_eq : b ≡ run a calls

uncalled : {a b : AppState} → b ≡ a → Calls a b
unfolding run
uncalled {a} {b} e = record { calls = []; modest = tt; app_eq = e }

call : {a b : AppState} (c : Call) → IsModest c → b ≡ run a (c ∷ []) → Calls a b
call {a} {b} c m e = record { calls = c ∷ []; modest = (m, tt); app_eq = e }

steps-IsClosed : (k : Context) → IsClosed k (λ g h. Calls g.app h.app)
unfolding run
steps-IsClosed k = record {
  nothing = λ h. uncalled refl;
  registered = λ h nick pubkey. call (register_peer_pubkey nick pubkey) tt refl;
  stopped = λ h nick pubkey reading. call (register_peer_pubkey nick pubkey) tt refl;
  gathered = λ h fragments. uncalled refl;
  ranked = λ h nick role. call (set_peer_role nick role) tt refl;
  removed = λ h nick. call (remove_peer nick) tt refl;
  appended = λ h msg. uncalled refl;
  synced = λ h response. uncalled refl;
}

-- Whatever message arrives, its handler changes the state of the application by calls of its methods.
pub handle_message-Calls :
    (k : Context) (h : Client) (source : Prefix) (command : Command)
    → Calls h.app (handle_message k h source command).client.app
handle_message-Calls k h source command =
    handle_message-After k (λ g h. Calls g.app h.app) (steps-IsClosed k) h source command
