-- ===== src/State/Run.antt =====
-- Any sequence of operations on the state.
use voirc.Base.{
  Bool-cases, arith, inl, inr, ℕ, ◌≤◌, ◌≡◌, Bool, List, [], ◌∷◌, Text, contains, text_eq, All,
}
use voirc.Config.{ConnState, Role, is_superpeer}
use voirc.Dict
use voirc.State
use voirc.State.{AppState, new, get_peer_role, all_superpeers}
use voirc.State.Peers.{
  IsKeyed, contains-all_superpeers, update_peer_state-IsKeyed, set_peer_connecting-IsKeyed,
  set_peer_conn_state-IsKeyed, set_peer_role-IsKeyed, refresh_speaking-IsKeyed, remove_peer-IsKeyed,
}
use voirc.State.Messages.{IsBounded, add_message-IsBounded, load_history-IsBounded}

-- A call of one of the methods that change the state, with its arguments.
pub data Call : Type 0 where
  set_our_role : Role → Call
  add_message : Text → Text → Call
  load_history : Text → ℕ → List Text → Call
  update_peer_state : Text → Bool → Bool → Call
  set_peer_connecting : Text → ℕ → Call
  set_peer_conn_state : Text → ConnState → Call
  set_peer_role : Text → Role → Call
  mark_speaking : Text → ℕ → Call
  refresh_speaking : ℕ → (Text → ℕ) → Call
  remove_peer : Text → Call
  clear_peers : Call
  add_received_file : Text → Text → ℕ → Text → Call
  register_peer_pubkey : Text → Text → Call

perform : AppState → Call → AppState
perform s (set_our_role r) = State.set_our_role s r
perform s (add_message channel msg) = State.add_message s channel msg
perform s (load_history channel n lines) = State.load_history s channel n lines
perform s (update_peer_state n c sp) = State.update_peer_state s n c sp
perform s (set_peer_connecting n now) = State.set_peer_connecting s n now
perform s (set_peer_conn_state n c) = State.set_peer_conn_state s n c
perform s (set_peer_role n r) = State.set_peer_role s n r
perform s (mark_speaking n now) = State.mark_speaking s n now
perform s (refresh_speaking now clock) = State.refresh_speaking s now clock
perform s (remove_peer n) = State.remove_peer s n
perform s clear_peers = State.clear_peers s
perform s (add_received_file a b n p) = State.add_received_file s a b n p
perform s (register_peer_pubkey n k) = (State.register_peer_pubkey s n k).0

unfoldable pub run : AppState → List Call → AppState
unfolding perform
run s [] = s
run s (c ∷ cs) = run (perform s c) cs

register_peer_pubkey-IsKeyed :
    (s : AppState) (n k : Text) → IsKeyed s → IsKeyed (State.register_peer_pubkey s n k).0
unfolding State.register_peer_pubkey
register_peer_pubkey-IsKeyed s n k h =
    elim (Bool-cases (State.conflicts (Dict.get s.known_pubkeys n) k)) [
      | inl e ↦ rw e h
      | inr e ↦ rw e (record { unique = h.unique; named = h.named })
    ]

perform-IsKeyed : (s : AppState) (c : Call) → IsKeyed s → IsKeyed (perform s c)
unfolding perform State.set_our_role State.add_message State.load_history State.mark_speaking
    State.clear_peers State.add_received_file
perform-IsKeyed s (update_peer_state n c sp) h = update_peer_state-IsKeyed s h n c sp
perform-IsKeyed s (set_peer_connecting n now) h = set_peer_connecting-IsKeyed s h n now
perform-IsKeyed s (set_peer_conn_state n c) h = set_peer_conn_state-IsKeyed s h n c
perform-IsKeyed s (set_peer_role n r) h = set_peer_role-IsKeyed s h n r
perform-IsKeyed s (refresh_speaking now clock) h = refresh_speaking-IsKeyed s h now clock
perform-IsKeyed s (remove_peer n) h = remove_peer-IsKeyed s h n
perform-IsKeyed s clear_peers h = record { unique = tt; named = tt }
perform-IsKeyed s (register_peer_pubkey n k) h = register_peer_pubkey-IsKeyed s n k h
perform-IsKeyed s _ h = record { unique = h.unique; named = h.named }

pub run-IsKeyed : (s : AppState) (calls : List Call) → IsKeyed s → IsKeyed (run s calls)
unfolding run
run-IsKeyed s [] h = h
run-IsKeyed s (c ∷ cs) h = run-IsKeyed (perform s c) cs (perform-IsKeyed s c h)

-- After any calls on a new state, `all_superpeers` lists exactly the nicks for which
-- `get_peer_role` gives a superpeer's role.
pub all_superpeers-run :
    (calls : List Call) (n : Text)
    → contains (all_superpeers (run new calls)) n ≡ is_superpeer (get_peer_role (run new calls) n)
all_superpeers-run calls n =
    contains-all_superpeers (run new calls) n
      (run-IsKeyed new calls (record { unique = tt; named = tt }))

-- The histories that a sequence of calls loads are at most a thousand lines each.
abbrev pub IsModest : Call → Type 0
IsModest (load_history channel n lines) = n ≤ 1000
IsModest _ = Unit

register_peer_pubkey-messages :
    (s : AppState) (n k : Text) → (State.register_peer_pubkey s n k).0.messages ≡ s.messages
unfolding State.register_peer_pubkey
register_peer_pubkey-messages s n k = ground arith

set_peer_conn_state-messages :
    (s : AppState) (n : Text) (c : ConnState)
    → (State.set_peer_conn_state s n c).messages ≡ s.messages
unfolding State.set_peer_conn_state
set_peer_conn_state-messages s n c = ground arith

perform-IsBounded : (s : AppState) (c : Call) → IsModest c → IsBounded s → IsBounded (perform s c)
unfolding perform State.set_our_role State.update_peer_state State.set_peer_connecting
    State.set_peer_role State.mark_speaking State.refresh_speaking State.remove_peer
    State.clear_peers State.add_received_file
perform-IsBounded s (add_message channel msg) m h = add_message-IsBounded s h channel msg
perform-IsBounded s (load_history channel n lines) m h =
    load_history-IsBounded s h channel n lines m
perform-IsBounded s (register_peer_pubkey n k) m h = rw register_peer_pubkey-messages h
perform-IsBounded s (set_peer_conn_state n c) m h = rw set_peer_conn_state-messages h
perform-IsBounded s _ m h = h

-- No channel ever keeps more than a thousand messages, as long as no history of more lines is loaded.
pub run-IsBounded :
    (s : AppState) (calls : List Call) → All IsModest calls → IsBounded s → IsBounded (run s calls)
unfolding run
run-IsBounded s [] m h = h
run-IsBounded s (c ∷ cs) m h = run-IsBounded (perform s c) cs m.1 (perform-IsBounded s c m.0 h)
