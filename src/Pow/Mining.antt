-- ===== src/Pow/Mining.antt =====
-- What `mine_nick` finds, and what `verify_nick` accepts.
use voirc.Base.{
  ℕ, zero, suc, ◌+◌, ◌%◌, ◌^◌, ◌≤◌, ◌<◌, ◌≡◌, ◌≢◌, refl, true, false, none, some, List, Text, leb,
  ◌==◌, arith, All, Bool-cases, inl, inr,
}
use voirc.Strings.Laws.{split_once-append, split_once-none}
use voirc.Strings.Hex.{to_hex4}
use voirc.Pow.{
  nick_hash, leading_zero_bits, check_difficulty, verify_nick, MinedNick, candidate, mine_from,
  mine_nick, base_name,
}

module _ (sha : List ℕ → List ℕ) (base pk : Text) where
  -- A nick that is verified at one difficulty is verified at every lower one.
  pub verify_nick_mono :
      (nick : Text) (hard easy : ℕ)
      → verify_nick sha nick pk hard ≡ true
      → easy ≤ hard
      → verify_nick sha nick pk easy ≡ true
  unfolding check_difficulty
  verify_nick_mono nick hard easy h le = ground arith

  module _ (required : ℕ) where
    -- No nonce in the range is good enough.
    abbrev pub AllFail : ℕ → ℕ → Type 0
    AllFail from until =
        (j : ℕ) → from ≤ j → j < until → verify_nick sha (candidate base j) pk required ≡ false

    -- What a mined nick promises, for a search that began at `from` with `left` attempts.
    pub record IsFirst (from left : ℕ) (m : MinedNick) : Type 0 where
      pub index : ℕ
      pub attempts_eq : m.attempts ≡ index + 1
      pub nick_eq : m.nick ≡ candidate base index
      pub nonce_eq : m.nonce ≡ index % 2 ^ 32
      pub accepted : verify_nick sha m.nick pk required ≡ true
      pub bits_eq : m.bits ≡ leading_zero_bits (nick_hash sha m.nick pk)
      pub from_le : from ≤ index
      pub in_range : index < from + left
      pub first : AllFail from index

    abbrev bits_at : ℕ → ℕ
    bits_at nonce = leading_zero_bits (nick_hash sha (candidate base nonce) pk)

    found_here :
        (from left : ℕ) (m : MinedNick)
        → required ≢ 0
        → leb required (bits_at from) ≡ true
        → m ≡ record {
          nick = candidate base from;
          nonce = from % 2 ^ 32;
          bits = bits_at from;
          attempts = from + 1;
        }
        → IsFirst from (suc left) m
    unfolding check_difficulty
    found_here from left m nz good e = rw e (record {
      index = from;
      attempts_eq = refl;
      nick_eq = refl;
      nonce_eq = refl;
      accepted = ground arith;
      bits_eq = refl;
      from_le = omega arith;
      in_range = omega arith;
      first = λ j a b. absurd (omega arith);
    })

    AllFail-suc :
        (from until : ℕ)
        → required ≢ 0
        → leb required (bits_at from) ≡ false
        → AllFail (from + 1) until
        → AllFail from until
    unfolding check_difficulty
    AllFail-suc from until nz bad h j a b = elim (Bool-cases (j == from)) [
      | inl e ↦ ground arith
      | inr e ↦ h j (ground arith) b
    ]

    found_later :
        (from left : ℕ) (m : MinedNick)
        → required ≢ 0
        → leb required (bits_at from) ≡ false
        → IsFirst (from + 1) left m
        → IsFirst from (suc left) m
    found_later from left m nz bad h = record {
      index = h.index;
      attempts_eq = h.attempts_eq;
      nick_eq = h.nick_eq;
      nonce_eq = h.nonce_eq;
      accepted = h.accepted;
      bits_eq = h.bits_eq;
      from_le = omega (arith, h.from_le);
      in_range = omega (arith, h.in_range);
      first = AllFail-suc from h.index nz bad h.first;
    }

    mine_from-IsFirst :
        (left from : ℕ) (m : MinedNick)
        → required ≢ 0
        → mine_from sha base pk required left from ≡ some m
        → IsFirst from left m
    unfolding mine_from
    mine_from-IsFirst zero from m nz h = cc
    mine_from-IsFirst (suc left) from m nz h = elim (Bool-cases (leb required (bits_at from))) [
      | inl good ↦ found_here from left m nz good (ground arith)
      | inr bad ↦
          found_later from left m nz bad (mine_from-IsFirst left (from + 1) m nz (ground arith))
    ]

    mine_from-none :
        (left from : ℕ)
        → required ≢ 0
        → mine_from sha base pk required left from ≡ none
        → AllFail from (from + left)
    unfolding mine_from check_difficulty
    mine_from-none zero from nz h = λ j a b. absurd (omega arith)
    mine_from-none (suc left) from nz h =
        AllFail-suc from (from + suc left) nz (ground arith)
          (λ j a b. mine_from-none left (from + 1) nz (ground arith) j a (omega arith))

    -- At a difficulty above 0, the mined nick is the candidate of the first nonce that is good
    -- enough, with what was counted on the way; and where nothing is found, no nonce below
    -- `max_attempts` is good enough.
    pub mine_nick-IsFirst :
        (max_attempts : ℕ)
        → required ≢ 0
        → ((m : MinedNick)
            → mine_nick sha base pk required max_attempts ≡ some m
            → IsFirst 0 max_attempts m)
          × (mine_nick sha base pk required max_attempts ≡ none → AllFail 0 max_attempts)
    unfolding mine_nick
    mine_nick-IsFirst max_attempts nz = (
      λ m h. mine_from-IsFirst max_attempts 0 m nz (ground arith),
      λ h j a b. mine_from-none max_attempts 0 nz (ground arith) j a (omega arith),
    )

  -- A mined nick is verified at the difficulty that was asked for.
  pub verify_nick-mine_nick :
      (required max_attempts : ℕ) (m : MinedNick)
      → mine_nick sha base pk required max_attempts ≡ some m
      → verify_nick sha m.nick pk required ≡ true
  verify_nick-mine_nick required max_attempts m h = elim (Bool-cases (required == 0)) [
    | inl e ↦ unfold check_difficulty in ground arith
    | inr e ↦ ((mine_nick-IsFirst required max_attempts (ground arith)).0 m h).accepted
  ]

  -- The base name of a mined nick is the name that it was mined for, if that holds no '#'.
  pub base_name-mine_nick :
      (required max_attempts : ℕ) (m : MinedNick)
      → All (λ c. c ≢ b'#') base
      → mine_nick sha base pk required max_attempts ≡ some m
      → base_name m.nick ≡ base
  unfolding base_name candidate
  base_name-mine_nick required max_attempts m clean h = elim (Bool-cases (required == 0)) [
    | inl e ↦
        let same : m.nick ≡ base = unfold mine_nick in ground arith in
        rw same (rw (split_once-none b'#' base clean, base_name))
    | inr e ↦
        let found : IsFirst required 0 max_attempts m =
          (mine_nick-IsFirst required max_attempts (ground arith)).0 m h in
        rw found.nick_eq (rw (split_once-append b'#' base (to_hex4 found.index) clean, base_name))
  ]
