-- ===== src/Log/Order.antt =====
-- The log of a channel is sorted by time, and holds an id once.
use voirc.Base.{
  ap, ◌∙◌, ◌≡◌, refl, Bool, true, false, ◌&&◌, ◌||◌, List, [], ◌∷◌, ◌++◌, Text, text_eq, eqb,
  eqb_iff, arith, All, All-append, Bool-cases, Option-cases, inl, inr,
}
use voirc.Dict
use voirc.Dict.{Dict, Every, or_else}
use voirc.Int.{ℤ, leb_ℤ, leb_ℤ-total, leb_ℤ-trans}
use voirc.Log.{
  SignedMessage, Json, MessageLog, sort_insert, sort_by_timestamp, has_id, add_sorted, append,
  get_messages, persist_message,
}

abbrev pub IsSorted : List SignedMessage → Type 0
IsSorted [] = Unit
IsSorted (m ∷ ms) = All (λ x. leb_ℤ m.timestamp x.timestamp ≡ true) ms × IsSorted ms

abbrev pub HasUniqueIds : List SignedMessage → Type 0
HasUniqueIds [] = Unit
HasUniqueIds (m ∷ ms) = (has_id ms m.id ≡ false) × HasUniqueIds ms

-- Sorting keeps what holds of all messages.
module _ (P : SignedMessage → Type 0) where
  All-sort_insert :
      (m : SignedMessage) (ms : List SignedMessage) → P m → All P ms → All P (sort_insert m ms)
  unfolding sort_insert
  All-sort_insert m [] p h = (p, tt)
  All-sort_insert m (x ∷ xs) p h = ground (arith, All-sort_insert m xs p h.1)

  pub All-sort_by_timestamp : (ms : List SignedMessage) → All P ms → All P (sort_by_timestamp ms)
  unfolding sort_by_timestamp
  All-sort_by_timestamp [] h = tt
  All-sort_by_timestamp (m ∷ ms) h =
      All-sort_insert m (sort_by_timestamp ms) h.0 (All-sort_by_timestamp ms h.1)

All-later :
    (a b : ℤ) (ms : List SignedMessage)
    → leb_ℤ a b ≡ true
    → All (λ x. leb_ℤ b x.timestamp ≡ true) ms
    → All (λ x. leb_ℤ a x.timestamp ≡ true) ms
All-later a b [] le h = tt
All-later a b (x ∷ xs) le h = (leb_ℤ-trans a b x.timestamp le h.0, All-later a b xs le h.1)

sort_insert-IsSorted :
    (m : SignedMessage) (ms : List SignedMessage) → IsSorted ms → IsSorted (sort_insert m ms)
unfolding sort_insert
sort_insert-IsSorted m [] s = (tt, tt)
sort_insert-IsSorted m (x ∷ xs) s = elim (Bool-cases (leb_ℤ m.timestamp x.timestamp)) [
  | inl le ↦ rw le ((le, All-later m.timestamp x.timestamp xs le s.0), s)
  | inr gt ↦ rw gt (
    All-sort_insert (λ y. leb_ℤ x.timestamp y.timestamp ≡ true) m xs
        (leb_ℤ-total m.timestamp x.timestamp gt) s.0,
    sort_insert-IsSorted m xs s.1,
  )
]

sort_by_timestamp-IsSorted : (ms : List SignedMessage) → IsSorted (sort_by_timestamp ms)
unfolding sort_by_timestamp
sort_by_timestamp-IsSorted [] = tt
sort_by_timestamp-IsSorted (m ∷ ms) =
    sort_insert-IsSorted m (sort_by_timestamp ms) (sort_by_timestamp-IsSorted ms)

module _ (id : Text) where
  has_id-sort_insert :
      (m : SignedMessage) (ms : List SignedMessage)
      → has_id (sort_insert m ms) id ≡ (eqb m.id id || has_id ms id)
  unfolding sort_insert has_id
  has_id-sort_insert m [] = refl
  has_id-sort_insert m (x ∷ xs) = ground (arith, has_id-sort_insert m xs)

  has_id-sort_by_timestamp :
      (ms : List SignedMessage) → has_id (sort_by_timestamp ms) id ≡ has_id ms id
  unfolding sort_by_timestamp has_id
  has_id-sort_by_timestamp [] = refl
  has_id-sort_by_timestamp (m ∷ ms) =
      ground (arith, has_id-sort_insert m (sort_by_timestamp ms), has_id-sort_by_timestamp ms)

  has_id-append :
      (xs ys : List SignedMessage) → has_id (xs ++ ys) id ≡ (has_id xs id || has_id ys id)
  unfolding has_id
  has_id-append [] ys = refl
  has_id-append (x ∷ xs) ys = ground (arith, has_id-append xs ys)

sort_insert-HasUniqueIds :
    (m : SignedMessage) (ms : List SignedMessage)
    → has_id ms m.id ≡ false
    → HasUniqueIds ms
    → HasUniqueIds (sort_insert m ms)
unfolding sort_insert has_id
sort_insert-HasUniqueIds m [] n u = (refl, tt)
sort_insert-HasUniqueIds m (x ∷ xs) n u = ground (
  arith,
  has_id-sort_insert x.id m xs,
  eqb_iff m.id x.id,
  eqb_iff x.id m.id,
  sort_insert-HasUniqueIds m xs,
)

sort_by_timestamp-HasUniqueIds :
    (ms : List SignedMessage) → HasUniqueIds ms → HasUniqueIds (sort_by_timestamp ms)
unfolding sort_by_timestamp
sort_by_timestamp-HasUniqueIds [] u = tt
sort_by_timestamp-HasUniqueIds (m ∷ ms) u =
    sort_insert-HasUniqueIds m (sort_by_timestamp ms) (has_id-sort_by_timestamp m.id ms ∙ u.0)
      (sort_by_timestamp-HasUniqueIds ms u.1)

append-HasUniqueIds :
    (ms : List SignedMessage) (m : SignedMessage)
    → has_id ms m.id ≡ false
    → HasUniqueIds ms
    → HasUniqueIds (ms ++ m ∷ [])
unfolding has_id
append-HasUniqueIds [] m n u = (refl, tt)
append-HasUniqueIds (x ∷ xs) m n u = ground (
  arith,
  append-HasUniqueIds xs m,
  has_id-append x.id xs (m ∷ []),
  eqb_iff m.id x.id,
  eqb_iff x.id m.id,
)

-- What holds of the list of one channel.
pub record IsTidy (channel : Text) (ms : List SignedMessage) : Type 0 where
  pub sorted : IsSorted ms
  pub unique : HasUniqueIds ms
  pub same_channel : All (λ m. m.channel ≡ channel) ms

add_sorted-IsTidy :
    (ms : List SignedMessage) (m : SignedMessage)
    → IsTidy m.channel ms
    → IsTidy m.channel (add_sorted ms m)
unfolding add_sorted
add_sorted-IsTidy ms m t = elim (Bool-cases (has_id ms m.id)) [
  | inl e ↦ rw e t
  | inr e ↦ rw e (record {
    sorted = sort_by_timestamp-IsSorted (ms ++ m ∷ []);
    unique = sort_by_timestamp-HasUniqueIds (ms ++ m ∷ []) (append-HasUniqueIds ms m e t.unique);
    same_channel =
        All-sort_by_timestamp (λ x. x.channel ≡ m.channel) (ms ++ m ∷ [])
          (All-append (λ x. x.channel ≡ m.channel) ms (m ∷ []) t.same_channel (refl, tt));
  })
]

abbrev pub IsOrdered : MessageLog → Type 0
IsOrdered log = Every IsTidy log.messages

get-IsTidy :
    (log : MessageLog) (channel : Text)
    → IsOrdered log
    → IsTidy channel (or_else (Dict.get log.messages channel) [])
get-IsTidy log channel h = elim (Option-cases (Dict.get log.messages channel)) [
  | inl e ↦ rw e (record { sorted = tt; unique = tt; same_channel = tt })
  | inr (ms, e) ↦ rw e (Dict.Every-get IsTidy log.messages channel ms h e)
]

-- `append`, whether or not the write succeeds, keeps a log in which each channel is sorted by time,
-- with every id once and with messages of that channel only.
pub append-IsOrdered :
    (j : Json) (written : Bool) (log : MessageLog) (m : SignedMessage)
    → IsOrdered log
    → IsOrdered (append j written log m).0
unfolding append persist_message
append-IsOrdered j false log m h = h
append-IsOrdered j true log m h =
    Dict.Every-insert IsTidy log.messages m.channel _ h
      (add_sorted-IsTidy _ m (get-IsTidy log m.channel h))

has_id-add_sorted :
    (ms : List SignedMessage) (m : SignedMessage) (id : Text)
    → has_id (add_sorted ms m) id ≡ (has_id ms id || eqb m.id id)
unfolding add_sorted has_id
has_id-add_sorted ms m id = elim (Bool-cases (has_id ms m.id)) [
  | inl e ↦ rw e (ground (arith, eqb_iff m.id id, ap (has_id ms) {x = m.id} {y = id}))
  | inr e ↦
      rw e
        (ground (arith, has_id-sort_by_timestamp id (ms ++ m ∷ []), has_id-append id ms (m ∷ [])))
]

-- After an append that succeeds, a channel holds the ids that it held, and its own list the id of
-- the message as well.
pub has_id-append_log :
    (j : Json) (log : MessageLog) (m : SignedMessage) (channel id : Text)
    → has_id (get_messages (append j true log m).0 channel) id
      ≡ (has_id (get_messages log channel) id || (eqb m.channel channel && eqb m.id id))
unfolding append persist_message get_messages
has_id-append_log j log m channel id =
    let ms = add_sorted (or_else (Dict.get log.messages m.channel) []) m in
    elim (Bool-cases (eqb m.channel channel)) [
      | inl e ↦ rw Dict.get-insert (
          rw e (
            ground (
              arith,
              has_id-add_sorted (or_else (Dict.get log.messages m.channel) []) m id,
              (eqb_iff m.channel channel).0 e,
            )))
      | inr e ↦ rw Dict.get-insert (rw e (ground arith))
    ]
