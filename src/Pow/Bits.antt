-- ===== src/Pow/Bits.antt =====
-- The count of leading zero bits against the bits of the hash.
use voirc.Base.{
  ◌&&◌, ℕ, zero, suc, ◌/◌, ◌%◌, ◌<◌, Bool, true, false, not, List, [], ◌∷◌, ◌++◌, ◌==◌,
  if◌then◌else◌, All,
}
use voirc.Pow.{leading_zeros}

-- The bits of a byte, the highest first.
abbrev byte_bits : ℕ → List Bool
byte_bits b =
    (b / 128 % 2 == 1)
    ∷ (b / 64 % 2 == 1)
    ∷ (b / 32 % 2 == 1)
    ∷ (b / 16 % 2 == 1)
    ∷ (b / 8 % 2 == 1)
    ∷ (b / 4 % 2 == 1)
    ∷ (b / 2 % 2 == 1)
    ∷ (b % 2 == 1)
    ∷ []

pub bits_of : List ℕ → List Bool
bits_of [] = []
bits_of (b ∷ bytes) = byte_bits b ++ bits_of bytes

-- How many bits are clear before the first one that is set.
pub clear_bits : List Bool → ℕ
clear_bits [] = 0
clear_bits (true ∷ bits) = 0
clear_bits (false ∷ bits) = suc (clear_bits bits)

abbrev pub AreBytes : List ℕ → Type 0
AreBytes = All (λ b. b < 256)

is_clear : List Bool → Bool
is_clear [] = true
is_clear (b ∷ bits) = not b && is_clear bits

-- What the code reads off one byte agrees with the bits of that byte.
byte_agrees : ℕ → Bool
byte_agrees b =
    if b == 0
    then is_clear (byte_bits b)
    else not (is_clear (byte_bits b)) && clear_bits (byte_bits b) == leading_zeros b

bytes_agree_below : ℕ → Bool
bytes_agree_below zero = true
bytes_agree_below (suc n) = byte_agrees n && bytes_agree_below n
