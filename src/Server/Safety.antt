-- ===== src/Server/Safety.antt =====
-- The invariant of the interleaved tasks of src/irc_server.rs.
use mathlib.Core.Path.{subst}
use voirc.Base.{
  ℕ, ◌≡◌, ◌≤◌, refl, false, Option, none, some, List, [], ◌∷◌, Text, text_eq, eqb, eqb_iff,
  eqb_refl, arith, Bool-cases, Option-cases, inl, inr,
}
use voirc.Dict
use voirc.Dict.{Dict, is_some}
use voirc.Crypto.{Crypto}
use voirc.Server.{Addr, addr_eq, ServerState}
use voirc.Server.Connection.{connect}
use voirc.Server.Changes.{handle_control-Change, Change, handle_line-Change}
use voirc.Server.Run.{
  arrival, AllProved, Change-AllProved, close-AllProved, arrive_keeps, Change-bits, close-bits,
}
use voirc.Server.Sections.{
  Concurrent, Section, first_section, Concurrent, Move, line, control, advance, arrival, closed,
  set_next, take_lock, begin_control, step, run, begun,
}
use voirc.Server.Untouched.{Change-others, arrive-others, close-others}
use voirc.Server.Claims.{
  Holds, Holds-same, run_section-IsSound, Effect-proved, Effect-bits, Effect-others, first-Holds,
}

module _ (c : Crypto) where
  pub record IsSafe (s : Concurrent) : Type 0 where
    pub proved : AllProved c s.server
    pub low : s.server.pow_required_bits ≤ 28
    pub checked :
        (addr : Addr) (section : Section)
        → Dict.get s.pending addr ≡ some section
        → Holds c s.server addr section

  -- the invariant, after a step of the task at `addr` that leaves the tasks of the others
  stepped :
      (s : Concurrent) (addr : Addr) (t : ServerState) (pending : Dict Addr Section)
      → IsSafe s
      → AllProved c t
      → t.pow_required_bits ≤ 28
      → ((b : Addr) → eqb addr b ≡ false → Dict.get t.clients b ≡ Dict.get s.server.clients b)
      → ((b : Addr) → eqb addr b ≡ false → Dict.get pending b ≡ Dict.get s.pending b)
      → ((section : Section) → Dict.get pending addr ≡ some section → Holds c t addr section)
      → IsSafe (record { server = t; pending = pending })
  stepped s addr t pending h all le same_clients same_tasks own = record {
    proved = all;
    low = le;
    checked = λ b section g. elim (Bool-cases (eqb addr b)) [
      | inl equal ↦
          let eb : addr ≡ b = (eqb_iff addr b).0 equal in rw (← eb) (own section (rw eb g))
      | inr other ↦
          Holds-same c s.server t b section (same_clients b other)
            (h.checked b section (rw (← (same_tasks b other)) g))
    ];
  }

  -- a step of a task that stands before no lock, and does not come to one
  idle :
      (s : Concurrent) (addr : Addr) (t : ServerState)
      → Dict.get s.pending addr ≡ none
      → IsSafe s
      → AllProved c t
      → t.pow_required_bits ≤ 28
      → ((b : Addr) → eqb addr b ≡ false → Dict.get t.clients b ≡ Dict.get s.server.clients b)
      → IsSafe (record s { server = t })
  idle s addr t e h all le same_clients =
      stepped s addr t s.pending h all le same_clients (λ b _. refl)
        (λ section g. let g' : none ≡ some section = rw e at g in ground (arith, g'))

  changed :
      (s : Concurrent) (addr : Addr) (t : ServerState)
      → Dict.get s.pending addr ≡ none
      → IsSafe s
      → Change c s.server addr t
      → IsSafe (record s { server = t })
  changed s addr t e h ch =
      idle s addr t e h (Change-AllProved c s.server addr t ch h.proved)
        (Change-bits s.server addr t ch h.low)
        (λ b other. Change-others c s.server addr b other t ch)

  set_next-others :
      (pending : Dict Addr Section) (addr : Addr) (next : Option Section) (b : Addr)
      → eqb addr b ≡ false
      → Dict.get (set_next pending addr next) b ≡ Dict.get pending b
  unfolding set_next
  set_next-others pending addr none b other = ground (arith, Dict.get-remove pending addr b, other)
  set_next-others pending addr (some next) b other =
      ground (arith, Dict.get-insert pending addr next b, other)

  set_next-own :
      (pending : Dict Addr Section) (addr : Addr) (next : Option Section) (P : Section → Type 0)
      → ((section : Section) → next ≡ some section → P section)
      → (section : Section) → Dict.get (set_next pending addr next) addr ≡ some section
      → P section
  unfolding set_next
  set_next-own pending addr none P h section g =
      let g' : none ≡ some section =
        ground (arith, Dict.get-remove pending addr addr, eqb_refl addr, g) in
      h section g'
  set_next-own pending addr (some next) P h section g =
      h section (ground (arith, Dict.get-insert pending addr next addr, eqb_refl addr, g))

  take_lock-IsSafe :
      (s : Concurrent) (addr : Addr) (task : Option Section)
      → Dict.get s.pending addr ≡ task
      → IsSafe s
      → IsSafe (take_lock c s addr task)
  unfolding take_lock
  take_lock-IsSafe s addr none e h = h
  take_lock-IsSafe s addr (some section) e h =
      let sound = run_section-IsSound c s.server addr section (h.checked addr section e) in
      stepped s addr _ _ h (Effect-proved c s.server addr _ sound.effect h.proved)
        (Effect-bits c s.server addr _ sound.effect h.low)
        (λ b other. Effect-others c s.server addr _ b other sound.effect)
        (set_next-others s.pending addr _)
        (set_next-own s.pending addr _ (Holds c _ addr) sound.next_holds)

  begin_control-IsSafe :
      (s : Concurrent) (addr : Addr) (text : Text) (task : Option Section)
      → Dict.get s.pending addr ≡ none
      → first_section c text ≡ task
      → IsSafe s
      → IsSafe (begin_control c s addr text task)
  unfolding begin_control
  begin_control-IsSafe s addr text none free e h =
      let ch = handle_control-Change c s.server addr text in changed s addr _ free h ch
  begin_control-IsSafe s addr text (some section) free e h =
      stepped s addr s.server _ h h.proved h.low (λ b _. refl)
        (λ b other. ground (arith, Dict.get-insert s.pending addr section b, other))
        (λ next g.
          let same_next : section ≡ next =
            ground (arith, Dict.get-insert s.pending addr section addr, eqb_refl addr, g) in
          subst (Holds c s.server addr) same_next (first-Holds c s.server addr text section e))

  -- A step keeps the invariant.
  step-IsSafe : (s : Concurrent) (m : Move) → IsSafe s → IsSafe (step c s m)
  unfolding step
  step-IsSafe s (line addr text) h = elim (Option-cases (Dict.get s.pending addr)) [
    | inr (section, e) ↦ rw e h
    | inl e ↦ rw e (changed s addr _ e h (handle_line-Change c s.server addr text))
  ]
  step-IsSafe s (control addr text) h = elim (Option-cases (Dict.get s.pending addr)) [
    | inr (section, e) ↦ rw e h
    | inl e ↦ rw e (begin_control-IsSafe s addr text _ e refl h)
  ]
  step-IsSafe s (advance addr) h = take_lock-IsSafe s addr (Dict.get s.pending addr) refl h
  step-IsSafe s (arrival addr) h = elim (Option-cases (Dict.get s.pending addr)) [
    | inr (section, e) ↦ rw e h
    | inl e ↦ elim (Bool-cases (is_some (Dict.get s.server.clients addr))) [
      | inl f ↦ rw (e, f) h
      | inr f ↦
          rw (e, f)
            (idle s addr _ e h
              (arrive_keeps (AllProved c) s.server addr h.proved (unfold connect in h.proved))
              (arrive_keeps (λ t. t.pow_required_bits ≤ 28) s.server addr h.low
                (unfold connect in h.low))
              (λ b other. arrive-others c s.server addr b other))
    ]
  ]
  step-IsSafe s (closed addr) h = elim (Option-cases (Dict.get s.pending addr)) [
    | inr (section, e) ↦ rw e h
    | inl e ↦ rw e (
        idle s addr _ e h (close-AllProved c s.server addr h.proved) (rw close-bits h.low)
          (λ b other. close-others c s.server addr b other))
  ]

  run_keeps : (s : Concurrent) (moves : List Move) → IsSafe s → IsSafe (run c s moves)
  unfolding run
  run_keeps s [] h = h
  run_keeps s (m ∷ moves) h = run_keeps (step c s m) moves (step-IsSafe s m h)

  pub run-IsSafe : (bits : ℕ) (moves : List Move) → bits ≤ 28 → IsSafe (run c (begun bits) moves)
  run-IsSafe bits moves le = run_keeps (begun bits) moves (record {
    proved = λ n k h. unfold Dict.get in cc h;
    low = le;
    checked = λ addr section h. unfold Dict.get in cc h;
  })
