-- ===== src/Strings/Utf8.antt =====
-- UTF-8 loses nothing: two texts with the same bytes are the same.
use voirc.Base.{
  sym, ◌≢◌, ℕ, ◌≤◌, ◌<◌, ◌≡◌, refl, List, [], ◌∷◌, ◌++◌, Text, ltb, arith, All, Bool-cases, inl,
  inr,
}
use voirc.Strings.{utf8_char, as_bytes}

-- The code points of Unicode.
abbrev pub AreScalars : Text → Type 0
AreScalars = All (λ c. c < 1114112)

-- What stands between the first byte of a code point and the next code point, told by that byte.
char_one :
    (c d : ℕ) (r q : List ℕ)
    → c < 0x80
    → d < 1114112
    → utf8_char c ++ r ≡ utf8_char d ++ q
    → (c ≡ d) × (r ≡ q)
unfolding utf8_char
char_one c d r q h k e = ground arith

char_two :
    (c d : ℕ) (r q : List ℕ)
    → 0x80 ≤ c
    → c < 0x800
    → 0x80 ≤ d
    → d < 1114112
    → utf8_char c ++ r ≡ utf8_char d ++ q
    → (c ≡ d) × (r ≡ q)
unfolding utf8_char
char_two c d r q l h m k e = ground arith

char_three :
    (c d : ℕ) (r q : List ℕ)
    → 0x800 ≤ c
    → c < 0x10000
    → 0x800 ≤ d
    → d < 1114112
    → utf8_char c ++ r ≡ utf8_char d ++ q
    → (c ≡ d) × (r ≡ q)
unfolding utf8_char
char_three c d r q l h m k e = ground arith

char_four :
    (c d : ℕ) (r q : List ℕ)
    → 0x10000 ≤ c
    → c < 1114112
    → 0x10000 ≤ d
    → d < 1114112
    → utf8_char c ++ r ≡ utf8_char d ++ q
    → (c ≡ d) × (r ≡ q)
unfolding utf8_char
char_four c d r q l h m k e = ground arith

-- The encoding of the lower of two code points decides.
char_lower :
    (c d : ℕ) (r q : List ℕ)
    → c ≤ d
    → d < 1114112
    → utf8_char c ++ r ≡ utf8_char d ++ q
    → (c ≡ d) × (r ≡ q)
char_lower c d r q le k e = elim (Bool-cases (ltb c 0x80)) [
  | inl a ↦ char_one c d r q (ground arith) k e
  | inr a ↦ elim (Bool-cases (ltb c 0x800)) [
    | inl b ↦ char_two c d r q (ground arith) (ground arith) (ground arith) k e
    | inr b ↦ elim (Bool-cases (ltb c 0x10000)) [
      | inl f ↦ char_three c d r q (ground arith) (ground arith) (ground arith) k e
      | inr f ↦ char_four c d r q (ground arith) (omega arith) (ground arith) k e
    ]
  ]
]

utf8_char-injective :
    (c d : ℕ) (r q : List ℕ)
    → c < 1114112
    → d < 1114112
    → utf8_char c ++ r ≡ utf8_char d ++ q
    → (c ≡ d) × (r ≡ q)
utf8_char-injective c d r q h k e = elim (Bool-cases (ltb d c)) [
  | inl gt ↦ let (x, y) = char_lower d c q r (ground arith) h (sym e) in (sym x, sym y)
  | inr le ↦ char_lower c d r q (ground arith) k e
]

utf8_char-ne_nil : (c : ℕ) (r : List ℕ) → utf8_char c ++ r ≢ []
unfolding utf8_char
utf8_char-ne_nil c r e = ground arith

-- Texts of Unicode code points with the same bytes are equal.
pub as_bytes-injective :
    (s t : Text) → AreScalars s → AreScalars t → as_bytes s ≡ as_bytes t → s ≡ t
unfolding as_bytes
as_bytes-injective [] [] h k e = refl
as_bytes-injective [] (d ∷ t) h k e = absurd (utf8_char-ne_nil d (as_bytes t) (sym e))
as_bytes-injective (c ∷ s) [] h k e = absurd (utf8_char-ne_nil c (as_bytes s) e)
as_bytes-injective (c ∷ s) (d ∷ t) h k e =
    let (x, y) = utf8_char-injective c d (as_bytes s) (as_bytes t) h.0 k.0 e in
    cc (x, as_bytes-injective s t h.1 k.1 y)
