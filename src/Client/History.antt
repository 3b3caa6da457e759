-- ===== src/Client/History.antt =====
-- What the messages that a client handles do to its log.
use voirc.Log.Order.{IsOrdered, append-IsOrdered}
use voirc.Log.Sync.{process_sync_response-IsOrdered}
use voirc.State.{trusted_keys_snapshot}
use voirc.Client.{Context, Client}
use voirc.Client.Handler.{Prefix, Command, handle_message}
use voirc.Client.Steps.{IsClosed, handle_message-After}

-- A log that is ordered stays so.
abbrev KeepsOrder : Client → Client → Type 0
KeepsOrder g h = IsOrdered g.message_log → IsOrdered h.message_log

steps-KeepOrder : (k : Context) → IsClosed k KeepsOrder
steps-KeepOrder k = record {
  nothing = λ h o. o;
  registered = λ h nick pubkey o. o;
  stopped = λ h nick pubkey reading o. o;
  gathered = λ h fragments o. o;
  ranked = λ h nick role o. o;
  removed = λ h nick o. o;
  appended = λ h msg o. append-IsOrdered k.json (k.written msg) h.message_log msg o;
  synced = λ h response o.
      process_sync_response-IsOrdered k.crypto k.json k.now k.written (trusted_keys_snapshot h.app)
        h.message_log response o;
}

-- Whatever message arrives, a signed log that is sorted by time in each channel, with every id once,
-- stays so.
pub handle_message-IsOrdered :
    (k : Context) (h : Client) (source : Prefix) (command : Command)
    → IsOrdered h.message_log
    → IsOrdered (handle_message k h source command).client.message_log
handle_message-IsOrdered k h source command =
    handle_message-After k KeepsOrder (steps-KeepOrder k) h source command
