-- ===== src/Pow.antt =====
-- src/pow.rs: proof of work for nicks. SHA-256 is an argument, `sha`, from bytes to bytes; a u8 and
-- a u64 wrap around as in a release build.
pub mod Bits
pub mod Mining
use voirc.Base.{
  ℕ, zero, suc, ◌+◌, ◌-◌, ◌*◌, ◌/◌, ◌%◌, ◌^◌, Bool, true, false, Option, none, some, List, [], ◌∷◌,
  ◌++◌, Text, length, ltb, leb, ◌==◌, if◌then◌else◌,
}
use voirc.Strings.{lit, as_bytes, split_once}
use voirc.Strings.Decimal.{to_dec}
use voirc.Strings.Hex.{to_hex4}

unfoldable pub nick_hash : (List ℕ → List ℕ) → Text → Text → List ℕ
nick_hash sha nick pubkey_hex = sha (as_bytes nick ++ as_bytes pubkey_hex)

-- `u8::leading_zeros`
unfoldable pub leading_zeros : ℕ → ℕ
leading_zeros b =
    if ltb 127 b
    then 0
    else if ltb 63 b
    then 1
    else if ltb 31 b
    then 2
    else if ltb 15 b
    then 3
    else if ltb 7 b
    then 4
    else if ltb 3 b
    then 5
    else if ltb 1 b
    then 6
    else if ltb 0 b
    then 7
    else 8

-- the loop of `leading_zero_bits`
count_from : ℕ → List ℕ → ℕ
count_from count [] = count
count_from count (byte ∷ hash) =
    let rest = count_from ((count + 8) % 256) hash in
    if byte == 0 then rest else (count + leading_zeros byte) % 256

unfoldable pub leading_zero_bits : List ℕ → ℕ
unfolding count_from leading_zeros
leading_zero_bits hash = count_from 0 hash

unfoldable pub check_difficulty : (List ℕ → List ℕ) → Text → Text → ℕ → Bool
check_difficulty sha nick pubkey_hex required_bits =
    if required_bits == 0
    then true
    else leb required_bits (leading_zero_bits (nick_hash sha nick pubkey_hex))

abbrev pub verify_nick : (List ℕ → List ℕ) → Text → Text → ℕ → Bool
verify_nick sha nick pubkey_hex required_bits = check_difficulty sha nick pubkey_hex required_bits

pub record MinedNick : Type 0 where
  pub nick : Text
  pub nonce : ℕ
  pub bits : ℕ
  pub attempts : ℕ

-- `format!("{}#{:04x}", base_name, nonce)`
unfoldable pub candidate : Text → ℕ → Text
candidate base nonce = base ++ b'#' ∷ to_hex4 nonce

-- The loop over the nonces from `nonce` on, with `left` of them to try.
mine_from : (List ℕ → List ℕ) → Text → Text → ℕ → ℕ → ℕ → Option MinedNick
mine_from sha base pubkey_hex required_bits zero nonce = none
mine_from sha base pubkey_hex required_bits (suc left) nonce =
    let nick = candidate base nonce in
    let bits = leading_zero_bits (nick_hash sha nick pubkey_hex) in
    let rest = mine_from sha base pubkey_hex required_bits left (nonce + 1) in
    if leb required_bits bits
    then some (record { nick = nick; nonce = nonce % 2 ^ 32; bits = bits; attempts = nonce + 1 })
    else rest

unfoldable pub mine_nick : (List ℕ → List ℕ) → Text → Text → ℕ → ℕ → Option MinedNick
unfolding mine_from
mine_nick sha base pubkey_hex required_bits max_attempts =
    if required_bits == 0
    then some (record { nick = base; nonce = 0; bits = 0; attempts = 0 })
    else mine_from sha base pubkey_hex required_bits max_attempts 0

unfoldable pub base_name : Text → Text
base_name nick = elim (split_once b'#' nick) [ none ↦ nick | some (base, _) ↦ base ]

-- `1u64 << bits`, whose shift a release build masks
unfoldable pub expected_attempts : ℕ → ℕ
expected_attempts bits = if bits == 0 then 0 else 2 ^ (bits % 64)

unfoldable pub time_estimate : ℕ → Text
unfolding expected_attempts
time_estimate bits =
    let attempts = expected_attempts bits in
    let millis = attempts * 1000 % 2 ^ 64 / 20_000_000 in
    if attempts == 0
    then lit "instant"
    else if ltb millis 10
    then lit "< 10ms"
    else if ltb millis 1000
    then lit "~" ++ to_dec (millis / 10 * 10) ++ lit "ms"
    else if ltb millis 60_000
    then lit "~" ++ to_dec (millis / 1000) ++ lit "s"
    else lit "~" ++ to_dec (millis / 60_000) ++ lit "min"
