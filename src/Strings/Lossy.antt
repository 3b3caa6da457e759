-- ===== src/Strings/Lossy.antt =====
-- `String::from_utf8_lossy`: each maximal part that is not UTF-8 becomes one U+FFFD.
use voirc.Base.{
  none, some, eqb, Option, ℕ, zero, suc, ◌+◌, ◌-◌, ◌*◌, ◌<◌, ◌≡◌, refl, Bool, ◌&&◌, List, [], ◌∷◌,
  Text, length, leb, ltb, ◌==◌, if◌then◌else◌, arith, All,
}
use voirc.Strings.{as_bytes}
use voirc.Base.{text_eq, eqb_refl}

abbrev replacement : ℕ
replacement = 0xfffd

between : ℕ → ℕ → ℕ → Bool
between lo hi b = leb lo b && leb b hi

is_cont : ℕ → Bool
is_cont b = between 0x80 0xbf b

-- The second byte that may follow a first byte of three or of four.
second_of_three : ℕ → ℕ → Bool
second_of_three a b =
    if a == 0xe0 then between 0xa0 0xbf b else if a == 0xed then between 0x80 0x9f b else is_cont b

second_of_four : ℕ → ℕ → Bool
second_of_four a b =
    if a == 0xf0 then between 0x90 0xbf b else if a == 0xf4 then between 0x80 0x8f b else is_cont b

two : ℕ → List ℕ → ℕ × List ℕ
two a [] = (replacement, [])
two a (b ∷ s) = if is_cont b then ((a - 0xc0) * 64 + (b - 0x80), s) else (replacement, b ∷ s)

three : ℕ → List ℕ → ℕ × List ℕ
three a [] = (replacement, [])
three a (b ∷ []) = (replacement, if second_of_three a b then [] else b ∷ [])
three a (b ∷ c ∷ s) =
    if second_of_three a b
    then if is_cont c
      then ((a - 0xe0) * 4096 + (b - 0x80) * 64 + (c - 0x80), s)
      else (replacement, c ∷ s)
    else (replacement, b ∷ c ∷ s)

four : ℕ → List ℕ → ℕ × List ℕ
four a [] = (replacement, [])
four a (b ∷ []) = (replacement, if second_of_four a b then [] else b ∷ [])
four a (b ∷ c ∷ []) =
    (replacement, if second_of_four a b then (if is_cont c then [] else c ∷ []) else b ∷ c ∷ [])
four a (b ∷ c ∷ d ∷ s) =
    if second_of_four a b
    then if is_cont c
      then if is_cont d
        then ((a - 0xf0) * 262144 + (b - 0x80) * 4096 + (c - 0x80) * 64 + (d - 0x80), s)
        else (replacement, d ∷ s)
      else (replacement, c ∷ d ∷ s)
    else (replacement, b ∷ c ∷ d ∷ s)

-- The first code point, and what follows it.
step : ℕ → List ℕ → ℕ × List ℕ
step a s =
    if ltb a 0x80
    then (a, s)
    else if between 0xc2 0xdf a
    then two a s
    else if between 0xe0 0xef a
    then three a s
    else if between 0xf0 0xf4 a
    then four a s
    else (replacement, s)

-- A step takes a byte at least, so that the number of bytes is fuel enough.
decode : ℕ → List ℕ → Text
decode zero bytes = []
decode (suc fuel) [] = []
decode (suc fuel) (a ∷ s) = let (c, rest) = step a s in c ∷ decode fuel rest

unfoldable pub from_utf8_lossy : List ℕ → Text
unfolding decode step two three four second_of_three second_of_four is_cont between
from_utf8_lossy bytes = decode (length bytes) bytes

abbrev pub IsAscii : Text → Type 0
IsAscii = All (λ c. c < 0x80)

-- `String::from_utf8`: the text whose encoding the bytes are, if there is one.
unfoldable pub from_utf8 : List ℕ → Option Text
from_utf8 bytes = let s = from_utf8_lossy bytes in if eqb (as_bytes s) bytes then some s else none

decode-ascii : (s : List ℕ) → IsAscii s → decode (length s) s ≡ s
unfolding decode step
decode-ascii [] h = refl
decode-ascii (c ∷ s) h = ground (arith, h, decode-ascii s h.1)

pub from_utf8_lossy-ascii : (s : List ℕ) → IsAscii s → from_utf8_lossy s ≡ s
unfolding from_utf8_lossy
from_utf8_lossy-ascii s h = decode-ascii s h

pub as_bytes-ascii : (s : Text) → IsAscii s → as_bytes s ≡ s
unfolding as_bytes
as_bytes-ascii [] h = refl
as_bytes-ascii (c ∷ s) h = ground (arith, h, as_bytes-ascii s h.1)

pub from_utf8-as_bytes : (s : Text) → IsAscii s → from_utf8 (as_bytes s) ≡ some s
unfolding from_utf8
from_utf8-as_bytes s h =
    rw (as_bytes-ascii s h, from_utf8_lossy-ascii s h, as_bytes-ascii s h)
      (ground (arith, eqb_refl s))

tests :
    (from_utf8_lossy (0xc3 ∷ 0xa9 ∷ []) ≡ 0xe9 ∷ [])
    × (from_utf8_lossy (0xe2 ∷ 0x82 ∷ 0x41 ∷ []) ≡ 0xfffd ∷ 0x41 ∷ [])
    × (from_utf8_lossy (0xf0 ∷ 0x9f ∷ 0x98 ∷ 0x80 ∷ []) ≡ 0x1f600 ∷ [])
unfolding from_utf8_lossy
tests = (refl, refl, refl)
