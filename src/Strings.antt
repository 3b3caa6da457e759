-- ===== src/Strings.antt =====
-- The operations of Rust's `str` and `String` that the program uses, over lists of code points.
pub mod Decimal
pub mod Hex
pub mod Laws
pub mod Lossy
pub mod Slices
pub mod Utf8
use Prim.Native.Char.{code}
use Prim.Native.String.{String}
use mathlib.Core.List.{reverse}
use voirc.Base.{
  ℕ, zero, suc, ◌+◌, ◌*◌, ◌/◌, ◌%◌, Bool, true, false, not, ◌&&◌, ◌||◌, Option, none, some, List,
  [], ◌∷◌, ◌++◌, Text, leb, ltb, ◌==◌, if◌then◌else◌, length,
}

-- A literal of the source.
abbrev pub lit : String → Text
lit String.[] = []
lit (String.◌∷◌ c s) = code c ∷ lit s

-- `char::is_whitespace`: the code points with the Unicode property White_Space.
unfoldable pub is_whitespace : ℕ → Bool
is_whitespace c =
    (leb 0x09 c && leb c 0x0d)
    || c == 0x20
    || c == 0x85
    || c == 0xa0
    || c == 0x1680
    || (leb 0x2000 c && leb c 0x200a)
    || c == 0x2028
    || c == 0x2029
    || c == 0x202f
    || c == 0x205f
    || c == 0x3000

-- The UTF-8 encoding of a code point, and `as_bytes`.
unfoldable pub utf8_char : ℕ → List ℕ
utf8_char c =
    if ltb c 0x80
    then c ∷ []
    else if ltb c 0x800
    then (0xc0 + c / 64) ∷ (0x80 + c % 64) ∷ []
    else if ltb c 0x10000
    then (0xe0 + c / 4096) ∷ (0x80 + c / 64 % 64) ∷ (0x80 + c % 64) ∷ []
    else (0xf0 + c / 262144) ∷ (0x80 + c / 4096 % 64) ∷ (0x80 + c / 64 % 64) ∷ (0x80 + c % 64) ∷ []

unfoldable pub as_bytes : Text → List ℕ
unfolding utf8_char
as_bytes [] = []
as_bytes (c ∷ s) = utf8_char c ++ as_bytes s

-- `str::len` counts bytes.
unfoldable pub len : Text → ℕ
unfolding as_bytes
len s = length (as_bytes s)

unfoldable pub trim_start : Text → Text
unfolding is_whitespace
trim_start [] = []
trim_start (c ∷ s) = let rest = trim_start s in if is_whitespace c then rest else c ∷ s

unfoldable pub trim_end : Text → Text
unfolding trim_start
trim_end s = reverse (trim_start (reverse s))

unfoldable pub trim : Text → Text
unfolding trim_end
trim s = trim_end (trim_start s)

-- The word read so far is closed where it is not empty.
close_word : Text → List Text → List Text
close_word [] words = words
close_word (c ∷ w) words = reverse (c ∷ w) ∷ words

words_from : Text → Text → List Text
words_from w [] = close_word w []
words_from w (c ∷ s) =
    let closed = close_word w (words_from [] s) in
    let longer = words_from (c ∷ w) s in if is_whitespace c then closed else longer

unfoldable pub split_whitespace : Text → List Text
unfolding words_from close_word is_whitespace
split_whitespace s = words_from [] s

unfoldable pub strip_prefix : Text → Text → Option Text
strip_prefix [] s = some s
strip_prefix (p ∷ pre) [] = none
strip_prefix (p ∷ pre) (c ∷ s) = let rest = strip_prefix pre s in if p == c then rest else none

unfoldable pub starts_with : Text → Text → Bool
starts_with [] s = true
starts_with (p ∷ pre) [] = false
starts_with (p ∷ pre) (c ∷ s) = p == c && starts_with pre s

abbrev pub before {ℓ} : {A B : Type ℓ} → A → (A → A) → Option (A × B) → Option (A × B)
before a f none = none
before a f (some (x, y)) = some (f x, y)

-- `split_once(c)`: the parts before and after the first `c`. What follows `find(c)` is the second.
unfoldable pub split_once : ℕ → Text → Option (Text × Text)
split_once c [] = none
split_once c (d ∷ s) =
    let rest = before s (λ l. d ∷ l) (split_once c s) in if d == c then some ([], s) else rest

-- `splitn(n, c)` collected.
unfoldable pub splitn : ℕ → ℕ → Text → List Text
unfolding split_once
splitn zero c s = []
splitn (suc zero) c s = s ∷ []
splitn (suc (suc n)) c s = elim (split_once c s) [
  | none ↦ s ∷ []
  | some (a, b) ↦ a ∷ splitn (suc n) c b
]

abbrev pub onto_first : ℕ → List Text → List Text
onto_first d [] = (d ∷ []) ∷ []
onto_first d (w ∷ ws) = (d ∷ w) ∷ ws

-- `split(c)` collected.
unfoldable pub split : ℕ → Text → List Text
split c [] = [] ∷ []
split c (d ∷ s) = let rest = split c s in if d == c then [] ∷ rest else onto_first d rest

-- `join(sep)`
unfoldable pub join : Text → List Text → Text
join sep [] = []
join sep (w ∷ []) = w
join sep (w ∷ v ∷ ws) = w ++ sep ++ join sep (v ∷ ws)
