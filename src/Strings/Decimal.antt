-- ===== src/Strings/Decimal.antt =====
-- Decimal numbers: `format!("{}", n)` and `str::parse` of an unsigned type.
use voirc.Base.{
  ◌≢◌, ap, false, ℕ, zero, suc, ◌+◌, ◌-◌, ◌*◌, ◌/◌, ◌%◌, ◌≤◌, ◌<◌, ◌≡◌, ◌∙◌, Bool, true, ◌&&◌,
  Option, none, some, [], ◌∷◌, Text, leb, ◌==◌, if◌then◌else◌, arith, Bool-cases, inl, inr, All,
}

-- The digits of `n` in front of `acc`; `f` bounds how many there are.
digits_from : ℕ → ℕ → Text → Text
digits_from zero n acc = acc
digits_from (suc f) n acc =
    let rest = digits_from f (n / 10) ((b'0' + n % 10) ∷ acc) in
    if n / 10 == 0 then (b'0' + n % 10) ∷ acc else rest

unfoldable pub to_dec : ℕ → Text
unfolding digits_from
to_dec n = digits_from (suc n) n []

unfoldable pub is_digit : ℕ → Bool
is_digit c = leb b'0' c && leb c b'9'

-- The value of the digits `s` after a prefix of value `v`; `none` at any other character.
read_digits : ℕ → Text → Option ℕ
read_digits v [] = some v
read_digits v (c ∷ s) =
    let rest = read_digits (v * 10 + (c - b'0')) s in if is_digit c then rest else none

-- The checked arithmetic of `parse` refuses what passes the largest value of the type.
at_most : ℕ → Option ℕ → Option ℕ
at_most top none = none
at_most top (some n) = if leb n top then some n else none

parse_unsigned : ℕ → Text → Option ℕ
unfolding read_digits at_most is_digit
parse_unsigned top [] = none
parse_unsigned top (c ∷ s) = at_most top (read_digits 0 (c ∷ s))

-- `parse::<uN>()`, for the type whose largest value is `top`: digits behind at most one `+`.
unfoldable pub parse : ℕ → Text → Option ℕ
unfolding parse_unsigned
parse top [] = none
parse top (c ∷ s) = if c == b'+' then parse_unsigned top s else parse_unsigned top (c ∷ s)

abbrev pub u8_max : ℕ
u8_max = 255

abbrev pub u16_max : ℕ
u16_max = 65535

abbrev pub usize_max : ℕ
usize_max = 18446744073709551615

read-digits_from :
    (f n : ℕ) (acc : Text) → n < f → read_digits 0 (digits_from f n acc) ≡ read_digits n acc
unfolding read_digits digits_from is_digit
read-digits_from zero n acc h = elim h [ ]
read-digits_from (suc f) n acc h = elim (Bool-cases (n / 10 == 0)) [
  | inl done ↦ rw done (ground arith)
  | inr more ↦
      rw more (read-digits_from f (n / 10) ((b'0' + n % 10) ∷ acc) (ground arith) ∙ ground arith)
]

read-to_dec : (n : ℕ) → read_digits 0 (to_dec n) ≡ some n
unfolding to_dec read_digits
read-to_dec n = read-digits_from (suc n) n [] (omega arith)

-- Every character of a printed number is a digit, and there is at least one.
abbrev pub IsNumeral : Text → Type 0
IsNumeral [] = ⊥
IsNumeral (c ∷ s) = (is_digit c ≡ true) × All (λ d. is_digit d ≡ true) s

abbrev pub AllDigits : Text → Type 0
AllDigits s = All (λ d. is_digit d ≡ true) s

digits_from-IsNumeral :
    (f n : ℕ) (acc : Text) → AllDigits acc → IsNumeral (digits_from (suc f) n acc)
unfolding digits_from is_digit
digits_from-IsNumeral zero n acc h = ground arith
digits_from-IsNumeral (suc f) n acc h =
    ground (arith, digits_from-IsNumeral f (n / 10) ((b'0' + n % 10) ∷ acc))

pub to_dec-IsNumeral : (n : ℕ) → IsNumeral (to_dec n)
unfolding to_dec
to_dec-IsNumeral n = digits_from-IsNumeral n n [] tt

parse_of_read :
    (top n : ℕ) (s : Text) → IsNumeral s → read_digits 0 s ≡ some n → n ≤ top → parse top s ≡ some n
unfolding parse is_digit
parse_of_read top n [] i r h = elim i [ ]
parse_of_read top n (c ∷ s) i r h = ground arith

-- A printed number that fits the type is read back.
pub parse-to_dec : (top n : ℕ) → n ≤ top → parse top (to_dec n) ≡ some n
parse-to_dec top n h = parse_of_read top n (to_dec n) (to_dec-IsNumeral n) (read-to_dec n) h

-- What is read fits the type.
pub parse-le : (top : ℕ) (s : Text) (n : ℕ) → parse top s ≡ some n → n ≤ top
unfolding parse
parse-le top [] n h = ground arith
parse-le top (c ∷ []) n h = ground arith
parse-le top (c ∷ d ∷ s) n h = ground arith

digits_ne : (c : ℕ) (s : Text) → is_digit c ≡ false → AllDigits s → All (λ d. d ≢ c) s
digits_ne c [] h a = tt
digits_ne c (d ∷ s) h a = ((λ e. cc (h, a.0, ap is_digit e)), digits_ne c s h a.1)

numeral_ne : (c : ℕ) (s : Text) → is_digit c ≡ false → IsNumeral s → All (λ d. d ≢ c) s
numeral_ne c [] h a = tt
numeral_ne c (d ∷ s) h a = ((λ e. cc (h, a.0, ap is_digit e)), digits_ne c s h a.1)

-- Different numbers are printed differently.
pub to_dec-injective : (m n : ℕ) → to_dec m ≡ to_dec n → m ≡ n
to_dec-injective m n e = ground (arith, read-to_dec m, read-to_dec n, ap (read_digits 0) e)

-- A printed number holds neither a sign nor a separator.
pub to_dec-All_ne : (c n : ℕ) → is_digit c ≡ false → All (λ d. d ≢ c) (to_dec n)
to_dec-All_ne c n h = numeral_ne c (to_dec n) h (to_dec-IsNumeral n)
