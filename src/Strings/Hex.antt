-- ===== src/Strings/Hex.antt =====
-- Hexadecimal numbers, as `format!("{:04x}", n)` writes them.
use voirc.Base.{
  ℕ, zero, suc, ◌+◌, ◌-◌, ◌/◌, ◌%◌, [], ◌∷◌, ◌++◌, Text, ltb, ◌==◌, if◌then◌else◌, length,
}

unfoldable pub hex_digit : ℕ → ℕ
hex_digit d = if ltb d 10 then b'0' + d else b'a' + (d - 10)

hex_from : ℕ → ℕ → Text → Text
hex_from zero n acc = acc
hex_from (suc f) n acc =
    let rest = hex_from f (n / 16) (hex_digit (n % 16) ∷ acc) in
    if n / 16 == 0 then hex_digit (n % 16) ∷ acc else rest

unfoldable pub to_hex : ℕ → Text
unfolding hex_from hex_digit
to_hex n = hex_from (suc n) n []

zeros : ℕ → Text
zeros zero = []
zeros (suc n) = b'0' ∷ zeros n

-- padded to four digits at least
unfoldable pub to_hex4 : ℕ → Text
unfolding zeros to_hex
to_hex4 n = zeros (4 - length (to_hex n)) ++ to_hex n
