-- ===== src/Server/Locks.antt =====
-- The locks that a task of src/irc_server.rs takes and drops, and tokio's queue for them.
use voirc.Base.{
  ◌≡◌, Bool, true, false, not, ◌||◌, some, List, [], ◌∷◌, ◌++◌, text_eq, eqb, if◌then◌else◌,
}
use voirc.Dict
use voirc.Dict.{Dict}
use voirc.Crypto.{Crypto}
use voirc.Pow.{check_difficulty}
use voirc.Server.{Addr, addr_eq, ServerState, nick_of}
use voirc.Server.Auth.{is_nick}
use voirc.Server.Sections.{Section, check_nick, check_work, bind_key, check_authed, write_bits}

pub data LockOp : Type 0 where
  read write release : LockOp

-- What a task does with the lock in one section. `send_notice` takes a read lock of its own, and a
-- test that fails calls it before the guard of the test goes out of scope.
unfoldable pub lock_ops : Crypto → ServerState → Addr → Section → List LockOp
lock_ops c s addr (check_nick nick pubkey_hex) =
    if not (is_nick (nick_of s addr) nick)
    then read ∷ read ∷ release ∷ release ∷ []
    else read ∷ release ∷ []
lock_ops c s addr (check_work nick pubkey_hex) =
    if not (check_difficulty c.sha256 nick pubkey_hex s.pow_required_bits)
    then read ∷ read ∷ release ∷ release ∷ []
    else read ∷ release ∷ []
lock_ops c s addr (bind_key nick pubkey_hex) = write ∷ release ∷ []
lock_ops c s addr (check_authed bits) = read ∷ release ∷ []
lock_ops c s addr (write_bits bits) = write ∷ release ∷ []

-- A guard that a task holds, or waits for.
pub record Guard : Type 0 where
  pub task : Addr
  pub exclusive : Bool

-- The guards that are held, those that are waited for in the order of the requests, and what each
-- task has yet to do.
pub record Locks : Type 0 where
  pub guards : List Guard
  pub queue : List Guard
  pub scripts : Dict Addr (List LockOp)

unfoldable pub is_waiting : Addr → List Guard → Bool
is_waiting t [] = false
is_waiting t (r ∷ queue) = eqb r.task t || is_waiting t queue

unfoldable pub any_exclusive : List Guard → Bool
any_exclusive [] = false
any_exclusive (r ∷ queue) = r.exclusive || any_exclusive queue

-- the task's last guard is dropped
unfoldable pub drop_guard : Addr → List Guard → List Guard
drop_guard t [] = []
drop_guard t (g ∷ guards) =
    let rest = drop_guard t guards in if eqb g.task t then guards else g ∷ rest

abbrev pub op_of : Bool → LockOp
op_of true = write
op_of false = read

-- The documentation of `tokio::sync::RwLock`: requests are served first in, first out, so no request
-- is granted before a write request that was queued earlier; a write lock is granted only where no
-- guard is held; and a lock that is free and that nobody waits for is granted.
pub record IsFair (grants : List Guard → List Guard → Guard → Bool) : Type 0 where
  pub in_order :
      (guards earlier : List Guard) (r : Guard)
      → grants guards earlier r ≡ true
      → any_exclusive earlier ≡ false
  pub alone :
      (guards earlier : List Guard) (r : Guard)
      → grants guards earlier r ≡ true
      → r.exclusive ≡ true
      → guards ≡ []
  pub free : (r : Guard) → grants [] [] r ≡ true

module _ (grants : List Guard → List Guard → Guard → Bool) where
  -- A task that does not wait asks for a guard or drops one, or a guard is granted.
  pub data LockStep (l m : Locks) : Type 0 where
    asked :
        (t : Addr) (exclusive : Bool) (rest : List LockOp)
        → is_waiting t l.queue ≡ false
        → Dict.get l.scripts t ≡ some (op_of exclusive ∷ rest)
        → m ≡ record l {
          queue = l.queue ++ (record { task = t; exclusive = exclusive } ∷ []);
          scripts = Dict.insert l.scripts t rest;
        }
        → LockStep l m
    granted :
        (earlier : List Guard) (r : Guard) (later : List Guard)
        → l.queue ≡ earlier ++ (r ∷ later)
        → grants l.guards earlier r ≡ true
        → m ≡ record l { guards = r ∷ l.guards; queue = earlier ++ later }
        → LockStep l m
    dropped :
        (t : Addr) (rest : List LockOp)
        → is_waiting t l.queue ≡ false
        → Dict.get l.scripts t ≡ some (release ∷ rest)
        → m ≡ record l { guards = drop_guard t l.guards; scripts = Dict.insert l.scripts t rest }
        → LockStep l m

  pub data LockRun (l : Locks) : Locks → Type 0 where
    here : LockRun l l
    next : {m n : Locks} → LockRun l m → LockStep m n → LockRun l n
