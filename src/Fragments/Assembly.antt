-- ===== src/Fragments/Assembly.antt =====
-- The receiver of src/irc_client.rs puts the parts of a signal together, in whatever order they come.
use voirc.Base.{
  ℕ, zero, suc, ◌+◌, ◌-◌, ◌≤◌, ◌<◌, ◌≡◌, ◌⊎◌, inl, inr, refl, ap, true, false, Option, none, some,
  List, [], ◌∷◌, ◌++◌, Text, text_eq, nat_eq, eqb, eqb_iff, eqb_refl, contains, length, arith,
  Bool-cases, ◌==◌,
}
use voirc.Dict
use voirc.Dict.{Dict, or_else}
use voirc.Fragments.{FragmentBuffer, Buffers, Signal, gather, put_part, expire, receive_part}

-- The parts arrive, each with its time, `chunk i` being the payload of part `i`; `handle_message` drops
-- old buffers first. The state at the end, and every signal.
unfoldable pub receive_parts :
    Buffers → Text → Text → ℕ → (ℕ → Text) → List (ℕ × ℕ) → Buffers × List Signal
receive_parts m sender msg_id total chunk [] = (m, [])
receive_parts m sender msg_id total chunk ((now, i) ∷ arrivals) =
    let (m', out) = receive_part (expire now m) now sender msg_id i total (chunk i) in
    let (end, rest) = receive_parts m' sender msg_id total chunk arrivals in (end, out ++ rest)

-- the numbers of the parts that arrive
abbrev pub numbers : List (ℕ × ℕ) → List ℕ
numbers [] = []
numbers ((_, i) ∷ arrivals) = i ∷ numbers arrivals

-- Each part comes less than a minute after the one before it.
abbrev pub AreTimely : List (ℕ × ℕ) → Type 0
AreTimely ((t, _) ∷ (u, j) ∷ arrivals) = (u - t < 60) × AreTimely ((u, j) ∷ arrivals)
AreTimely _ = Unit

expire-absent :
    (now : ℕ) (m : Buffers) (k : Text) → Dict.get m k ≡ none → Dict.get (expire now m) k ≡ none
unfolding expire Dict.get
expire-absent now [] k h = refl
expire-absent now ((j, b) ∷ m) k h = ground (arith, expire-absent now m k, h)

expire-recent :
    (now : ℕ) (m : Buffers) (k : Text) (b : FragmentBuffer)
    → Dict.get m k ≡ some b
    → now - b.last_update < 60
    → Dict.get (expire now m) k ≡ some b
unfolding expire Dict.get
expire-recent now [] k b h r = ground (arith, h)
expire-recent now ((j, c) ∷ m) k b h r = ground (arith, expire-recent now m k b, h, r)

-- The chunks from `i` on, `n` of them.
unfoldable pub whole : (ℕ → Text) → ℕ → ℕ → Text
whole chunk zero i = []
whole chunk (suc n) i = chunk i ++ whole chunk n (suc i)

abbrev parts_of : Option FragmentBuffer → Dict ℕ Text
parts_of none = []
parts_of (some b) = b.parts

abbrev HasTotal : ℕ → Option FragmentBuffer → Type 0
HasTotal total none = Unit
HasTotal total (some b) = b.total ≡ total

abbrev pub AreDistinct : List ℕ → Type 0
AreDistinct [] = Unit
AreDistinct (i ∷ is) = (contains is i ≡ false) × AreDistinct is

put_part-parts :
    (o : Option FragmentBuffer) (i total : ℕ) (c : Text) (now : ℕ)
    → (put_part o i total c now).parts ≡ Dict.insert (parts_of o) i c
unfolding put_part
put_part-parts none i total c now = refl
put_part-parts (some b) i total c now = refl

put_part-total :
    (o : Option FragmentBuffer) (i total : ℕ) (c : Text) (now : ℕ)
    → HasTotal total o
    → (put_part o i total c now).total ≡ total
unfolding put_part
put_part-total none i total c now h = refl
put_part-total (some b) i total c now h = h

put_part-last_update :
    (o : Option FragmentBuffer) (i total : ℕ) (c : Text) (now : ℕ)
    → (put_part o i total c now).last_update ≡ now
unfolding put_part
put_part-last_update none i total c now = refl
put_part-last_update (some b) i total c now = refl

length-insert_fresh :
    (m : Dict ℕ Text) (i : ℕ) (c : Text)
    → Dict.get m i ≡ none
    → length (Dict.insert m i c) ≡ suc (length m)
unfolding Dict.get Dict.insert
length-insert_fresh [] i c h = refl
length-insert_fresh ((k, v) ∷ m) i c h = ground (arith, h, length-insert_fresh m i c)

-- Where every part of the range is there, they are gathered in order.
gather-whole :
    (parts : Dict ℕ Text) (chunk : ℕ → Text) (n i : ℕ)
    → ((j : ℕ) → i ≤ j → j < i + n → Dict.get parts j ≡ some (chunk j))
    → gather parts n i ≡ whole chunk n i
unfolding gather whole
gather-whole parts chunk zero i h = refl
gather-whole parts chunk (suc n) i h = rw (h i (omega arith) (omega arith)) (
    ap (λ t. chunk i ++ t)
      (gather-whole parts chunk n (suc i) (λ j a b. h j (omega (arith, a)) (omega (arith, b)))))

module _ (sender msg_id : Text) (total : ℕ) (chunk : ℕ → Text) where
  abbrev key : Text
  key = sender ++ b':' ∷ msg_id

  -- What is known while the parts `is` are still to come.
  record IsPending (o : Option FragmentBuffer) (is : List ℕ) : Type 0 where
    has_total : HasTotal total o
    count : length (parts_of o) + length is ≡ total
    fresh : (j : ℕ) → contains is j ≡ true → Dict.get (parts_of o) j ≡ none
    known :
        (j : ℕ)
        → 1 ≤ j
        → j < 1 + total
        → (Dict.get (parts_of o) j ≡ some (chunk j)) ⊎ (contains is j ≡ true)
    distinct : AreDistinct is

  abbrev entry : Buffers → ℕ → ℕ → FragmentBuffer
  entry m now i = put_part (Dict.get m key) i total (chunk i) now

  IsPending-step :
      (now : ℕ) (o : Option FragmentBuffer) (i : ℕ) (is : List ℕ)
      → IsPending o (i ∷ is)
      → IsPending (some (put_part o i total (chunk i) now)) is
  unfolding contains
  IsPending-step now o i is h =
      let here : contains (i ∷ is) i ≡ true = ground (arith, eqb_refl i) in
      let parts_eq : (put_part o i total (chunk i) now).parts
          ≡ Dict.insert (parts_of o) i (chunk i) =
        put_part-parts o i total (chunk i) now in
      let found : (j : ℕ)
          → i ≡ j
          → Dict.get (Dict.insert (parts_of o) i (chunk i)) j ≡ some (chunk j) =
        λ j e. rw e (ground (arith, Dict.get-insert (parts_of o) j (chunk j) j, eqb_refl j)) in
      record {
        has_total = put_part-total o i total (chunk i) now h.has_total;
        count =
            rw parts_eq (
              omega
                (arith, length-insert_fresh (parts_of o) i (chunk i) (h.fresh i here), h.count));
        fresh = λ j e. rw parts_eq (
            ground (
              arith,
              Dict.get-insert (parts_of o) i (chunk i) j,
              eqb_iff i j,
              h.distinct.0,
              e,
              h.fresh j (ground (arith, e)),
            ));
        known = λ j a b. elim (Bool-cases (eqb i j)) [
          | inl p ↦ inl (rw parts_eq (found j (ground (arith, eqb_iff i j, p))))
          | inr p ↦ elim (h.known j a b) [
            | inl k ↦
                inl (rw parts_eq (ground (arith, Dict.get-insert (parts_of o) i (chunk i) j, p, k)))
            | inr k ↦ inr (ground (arith, k, p))
          ]
        ];
        distinct = h.distinct.1;
      }

  all_known :
      {o : Option FragmentBuffer}
      → IsPending o []
      → (j : ℕ) → 1 ≤ j
      → j < 1 + total
      → Dict.get (parts_of o) j ≡ some (chunk j)
  unfolding contains
  all_known h j a b = elim (h.known j a b) [ inl k ↦ k | inr k ↦ cc k ]

  receive_part-last :
      (m : Buffers) (now i : ℕ)
      → IsPending (Dict.get m key) (i ∷ [])
      → receive_part m now sender msg_id i total (chunk i)
        ≡ (Dict.remove m key, record { sender = sender; payload = whole chunk total 1 } ∷ [])
  unfolding receive_part
  receive_part-last m now i h =
      let next : IsPending (some (entry m now i)) [] = IsPending-step now (Dict.get m key) i [] h in
      let enough : (length (entry m now i).parts == (entry m now i).total) ≡ true =
        ground (arith, next.count, next.has_total) in
      let payload_eq : gather (entry m now i).parts (entry m now i).total 1 ≡ whole chunk total 1 =
        rw next.has_total
          (gather-whole (entry m now i).parts chunk total 1 (λ j a b. all_known next j a b)) in
      rw (enough, payload_eq) refl

  receive_part-more :
      (m : Buffers) (now i j : ℕ) (is : List ℕ)
      → IsPending (Dict.get m key) (i ∷ j ∷ is)
      → receive_part m now sender msg_id i total (chunk i) ≡ (Dict.insert m key (entry m now i), [])
  unfolding receive_part
  receive_part-more m now i j is h =
      let next : IsPending (some (entry m now i)) (j ∷ is) =
        IsPending-step now (Dict.get m key) i (j ∷ is) h in
      let short : (length (entry m now i).parts == (entry m now i).total) ≡ false =
        ground (arith, next.count, next.has_total) in
      rw short refl

  receive_parts-pending :
      (m : Buffers) (now i : ℕ) (arrivals : List (ℕ × ℕ))
      → AreTimely ((now, i) ∷ arrivals)
      → IsPending (Dict.get (expire now m) key) (i ∷ numbers arrivals)
      → ((receive_parts m sender msg_id total chunk ((now, i) ∷ arrivals)).1
          ≡ record { sender = sender; payload = whole chunk total 1 } ∷ [])
        × (Dict.get (receive_parts m sender msg_id total chunk ((now, i) ∷ arrivals)).0 key ≡ none)
  unfolding receive_parts
  receive_parts-pending m now i [] timely h =
      rw (receive_part-last (expire now m) now i h)
        (refl, ground (arith, Dict.get-remove (expire now m) key key, eqb_refl key))
  receive_parts-pending m now i ((next, j) ∷ arrivals) timely h =
      let b = entry (expire now m) now i in
      let m' = Dict.insert (expire now m) key b in
      let stored : Dict.get m' key ≡ some b =
        ground (arith, Dict.get-insert (expire now m) key b key, eqb_refl key) in
      let since : next - b.last_update < 60 = omega (
        arith,
        put_part-last_update (Dict.get (expire now m) key) i total (chunk i) now,
        timely.0,
      ) in
      rw (receive_part-more (expire now m) now i j (numbers arrivals) h) (
        receive_parts-pending m' next j arrivals timely.1 (
          rw (expire-recent next m' key b stored since)
            (IsPending-step now (Dict.get (expire now m) key) i (j ∷ numbers arrivals) h)))

  -- When all the parts of a signal, 1 to `total`, arrive once each and in any order, each less than a
  -- minute after the one before and with no other message between them, and none of them was there
  -- before, then exactly one signal is raised: its payload is the chunks in their order. Nothing is kept
  -- of the parts.
  pub receive_parts-all :
      (m : Buffers) (arrivals : List (ℕ × ℕ))
      → Dict.get m key ≡ none
      → 1 ≤ total
      → length (numbers arrivals) ≡ total
      → AreDistinct (numbers arrivals)
      → ((j : ℕ) → 1 ≤ j → j ≤ total → contains (numbers arrivals) j ≡ true)
      → AreTimely arrivals
      → ((receive_parts m sender msg_id total chunk arrivals).1
          ≡ record { sender = sender; payload = whole chunk total 1 } ∷ [])
        × (Dict.get (receive_parts m sender msg_id total chunk arrivals).0 key ≡ none)
  receive_parts-all m [] absent some_part count distinct all timely =
      ground (arith, some_part, count)
  receive_parts-all m ((now, i) ∷ arrivals) absent some_part count distinct all timely =
      receive_parts-pending m now i arrivals timely (
        rw (expire-absent now m key absent) (record {
          has_total = tt;
          count = omega (arith, count);
          fresh = λ j e. unfold Dict.get in refl;
          known = λ j a b. inr (all j a (omega (arith, b)));
          distinct = distinct;
        }))
