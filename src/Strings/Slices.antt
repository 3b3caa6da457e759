-- ===== src/Strings/Slices.antt =====
-- Slices of a `str` by byte positions, in src/moderation.rs and src/irc_client.rs.
use voirc.Base.{ℕ, ◌-◌, Option, none, some, [], ◌∷◌, Text, ◌==◌, leb, length, if◌then◌else◌}
use voirc.Dict.{mapped}
use voirc.Strings.{utf8_char}

-- `&s[..n]`, which panics where byte `n` is past the end or within a character
unfoldable pub slice_to : ℕ → Text → Option Text
slice_to n [] = if n == 0 then some [] else none
slice_to n (c ∷ s) =
    let w = length (utf8_char c) in
    let rest = slice_to (n - w) s in
    if n == 0 then some [] else if leb w n then mapped (λ t. c ∷ t) rest else none
