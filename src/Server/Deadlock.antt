-- ===== src/Server/Deadlock.antt =====
-- Tasks of src/irc_server.rs that wait for each other's locks.
use voirc.Base.{
  ◌≡◌, refl, Bool, true, false, not, ◌&&◌, ◌||◌, some, List, [], ◌∷◌, ◌++◌, Text, text_eq, eqb,
  eqb_iff, eqb_refl, arith, Bool-cases, inl, inr, if◌then◌else◌,
}
use voirc.Dict
use voirc.Dict.{Dict}
use voirc.Crypto.{Crypto}
use voirc.Server.{Addr, addr_eq, ServerState, nick_of}
use voirc.Server.Auth.{is_nick}
use voirc.Server.Sections.{check_nick, bind_key}
use voirc.Server.Locks.{
  Guard, IsFair, LockOp, LockRun, LockStep, Locks, any_exclusive, asked, drop_guard, dropped,
  granted, here, is_waiting, lock_ops, next, read, release, write,
}

-- whether `t` waits for a read guard
unfoldable pub waits_read : Addr → List Guard → Bool
waits_read t [] = false
waits_read t (r ∷ queue) = (eqb r.task t && not r.exclusive) || waits_read t queue

-- whether `t` waits for a read guard behind a write request of `w`
unfoldable pub is_behind : Addr → Addr → List Guard → Bool
unfolding waits_read
is_behind t w [] = false
is_behind t w (r ∷ queue) =
    let rest = is_behind t w queue in
    if eqb r.task w && r.exclusive then waits_read t queue else rest

unfoldable pub holds_read : Addr → List Guard → Bool
holds_read t [] = false
holds_read t (g ∷ guards) = (eqb g.task t && not g.exclusive) || holds_read t guards

waits_read-append :
    (t : Addr) (q r : List Guard) → waits_read t q ≡ true → waits_read t (q ++ r) ≡ true
unfolding waits_read
waits_read-append t [] r h = ground (arith, h)
waits_read-append t (g ∷ q) r h = ground (arith, waits_read-append t q r, h)

is_behind-append :
    (t w : Addr) (q r : List Guard) → is_behind t w q ≡ true → is_behind t w (q ++ r) ≡ true
unfolding is_behind
is_behind-append t w [] r h = ground (arith, h)
is_behind-append t w (g ∷ q) r h =
    ground (arith, is_behind-append t w q r, waits_read-append t q r, h)

waits_read-waiting : (t : Addr) (q : List Guard) → waits_read t q ≡ true → is_waiting t q ≡ true
unfolding waits_read is_waiting
waits_read-waiting t [] h = ground (arith, h)
waits_read-waiting t (g ∷ q) h = ground (arith, waits_read-waiting t q, h)

is_behind-waiting :
    (t w : Addr) (q : List Guard)
    → is_behind t w q ≡ true
    → (is_waiting t q ≡ true) × (is_waiting w q ≡ true)
unfolding is_behind is_waiting
is_behind-waiting t w [] h = ground (arith, h)
is_behind-waiting t w (g ∷ q) h = ground (arith, is_behind-waiting t w q, waits_read-waiting t q, h)

is_behind-granted :
    (t w : Addr) (earlier : List Guard) (r : Guard) (later : List Guard)
    → any_exclusive earlier ≡ false
    → r.exclusive ≡ false
    → is_behind t w (earlier ++ (r ∷ later)) ≡ true
    → is_behind t w (earlier ++ later) ≡ true
unfolding is_behind any_exclusive
is_behind-granted t w [] r later a e h = ground (arith, e, h)
is_behind-granted t w (g ∷ earlier) r later a e h =
    ground (arith, is_behind-granted t w earlier r later, a, e, h)

holds_read-drop :
    (t u : Addr) (guards : List Guard)
    → eqb u t ≡ false
    → holds_read t guards ≡ true
    → holds_read t (drop_guard u guards) ≡ true
unfolding holds_read drop_guard
holds_read-drop t u [] other h = ground (arith, h)
holds_read-drop t u (g ∷ guards) other h =
    ground
      (arith, holds_read-drop t u guards, eqb_iff g.task t, eqb_iff g.task u, eqb_iff u t, other, h)

-- `t` holds a read guard and waits for another, behind a write request of `w`.
pub record IsStuck (t w : Addr) (l : Locks) : Type 0 where
  pub holds : holds_read t l.guards ≡ true
  pub behind : is_behind t w l.queue ≡ true

idle_task :
    (t u : Addr) (q : List Guard) → is_waiting u q ≡ false → is_waiting t q ≡ true → eqb u t ≡ false
idle_task t u q idle waits = elim (Bool-cases (eqb u t)) [
  | inr other ↦ other
  | inl equal ↦
      let same_task : u ≡ t = (eqb_iff u t).0 equal in
      let idle' : is_waiting t q ≡ false = rw same_task at idle in cc (idle', waits)
]

module _ (grants : List Guard → List Guard → Guard → Bool) (fair : IsFair grants) (t w : Addr) where
  step-IsStuck : (l m : Locks) → LockStep grants l m → IsStuck t w l → IsStuck t w m
  unfolding holds_read
  step-IsStuck l m (asked u exclusive rest idle e k) h =
      rw k (record { holds = h.holds; behind = is_behind-append t w l.queue _ h.behind })
  step-IsStuck l m (dropped u rest idle e k) h =
      let other = idle_task t u l.queue idle (is_behind-waiting t w l.queue h.behind).0 in
      rw k (record { holds = holds_read-drop t u l.guards other h.holds; behind = h.behind })
  step-IsStuck l m (granted earlier r later q g k) h = elim (Bool-cases r.exclusive) [
    | inl exclusive ↦
        let held : holds_read t [] ≡ true =
          rw (fair.alone l.guards earlier r g exclusive) at h.holds in
        cc held
    | inr shared ↦
        let behind' : is_behind t w (earlier ++ (r ∷ later)) ≡ true = rw q at h.behind in
        rw k (record {
          holds = ground (arith, h.holds);
          behind =
              is_behind-granted t w earlier r later (fair.in_order l.guards earlier r g) shared
                behind';
        })
  ]

  -- A task that is stuck stays so, and the writer with it, whatever the other tasks do.
  pub run-IsStuck : (l m : Locks) → IsStuck t w l → LockRun grants l m → IsStuck t w m
  run-IsStuck l m h here = h
  run-IsStuck l m h (next {m = n} r s) = step-IsStuck n m s (run-IsStuck l n h r)

abbrev asks : Locks → Addr → Bool → List LockOp → Locks
asks l t exclusive rest = record l {
  queue = l.queue ++ (record { task = t; exclusive = exclusive } ∷ []);
  scripts = Dict.insert l.scripts t rest;
}

-- Tasks before their sections, and nobody holds a guard.
abbrev pub at_rest : Dict Addr (List LockOp) → Locks
at_rest scripts = record { guards = []; queue = []; scripts = scripts }

module _ (scripts : Dict Addr (List LockOp)) (a b : Addr) where
  abbrev held : Locks
  held = record (asks (at_rest scripts) a false (read ∷ release ∷ release ∷ [])) {
    guards = record { task = a; exclusive = false } ∷ [];
    queue = [];
  }

  -- Where the first task holds a guard and has asked again, after the request of the second.
  abbrev crossed : Locks
  crossed = asks (asks held b true (release ∷ [])) a false (release ∷ release ∷ [])

  crossed-IsStuck : IsStuck a b crossed
  unfolding holds_read is_behind waits_read
  crossed-IsStuck = record {
    holds = ground (arith, eqb_refl a);
    behind = ground (arith, eqb_refl a, eqb_refl b);
  }

  crossed-run :
      (grants : List Guard → List Guard → Guard → Bool)
      → IsFair grants
      → eqb a b ≡ false
      → Dict.get scripts a ≡ some (read ∷ read ∷ release ∷ release ∷ [])
      → Dict.get scripts b ≡ some (write ∷ release ∷ [])
      → LockRun grants (at_rest scripts) crossed
  unfolding is_waiting
  crossed-run grants fair distinct ga gb =
      let read_left = read ∷ release ∷ release ∷ [] in
      let scripts' = Dict.insert scripts a read_left in
      let reverse : eqb b a ≡ false = ground (arith, eqb_iff a b, eqb_iff b a, distinct) in
      let wb : Dict.get scripts' b ≡ some (write ∷ release ∷ []) =
        ground (arith, Dict.get-insert scripts a read_left b, distinct, gb) in
      let ra : Dict.get (Dict.insert scripts' b (release ∷ [])) a
          ≡ some (read ∷ release ∷ release ∷ []) =
        rw
          (
            Dict.get-insert scripts' b (release ∷ []) a,
            reverse,
            Dict.get-insert scripts a read_left a,
            eqb_refl a,
          )
          refl in
      let asked_first = next here (asked a false (read ∷ release ∷ release ∷ []) refl ga refl) in
      let got_first =
        next asked_first
          (granted [] (record { task = a; exclusive = false }) [] refl (fair.free _) refl) in
      let asked_write = next got_first (asked b true (release ∷ []) refl wb refl) in
      next asked_write (asked a false (release ∷ release ∷ []) (rw reverse refl) ra refl)

-- A client whose HELLO names another nick than its own, and a client that is about to be bound, among
-- tasks of any other clients with lock operations of any kind: the two can come to wait for each other,
-- and then neither ever gets its lock, whatever the other tasks do. It is assumed that the lock is as
-- tokio documents its `RwLock`.
pub hello_deadlock :
    (grants : List Guard → List Guard → Guard → Bool)
    → IsFair grants
    → (c : Crypto) (s : ServerState) (a b : Addr) (nick pubkey other_nick other_key : Text)
    → (scripts : Dict Addr (List LockOp)) → eqb a b ≡ false
    → is_nick (nick_of s a) nick ≡ false
    → Dict.get scripts a ≡ some (lock_ops c s a (check_nick nick pubkey))
    → Dict.get scripts b ≡ some (lock_ops c s b (bind_key other_nick other_key))
    → (l : Locks) × LockRun grants (at_rest scripts) l
      × ((m : Locks)
          → LockRun grants l m
          → (is_waiting a m.queue ≡ true) × (is_waiting b m.queue ≡ true))
unfolding lock_ops
hello_deadlock grants fair c s a b nick pubkey other_nick other_key scripts distinct mismatch first
      second =
    (
      crossed scripts a b,
      crossed-run scripts a b grants fair distinct (rw (first, mismatch) refl) second,
      λ m r.
          let stuck =
            run-IsStuck grants fair a b (crossed scripts a b) m (crossed-IsStuck scripts a b) r in
          is_behind-waiting a b m.queue stuck.behind,
    )
