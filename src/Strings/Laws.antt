-- ===== src/Strings/Laws.antt =====
-- Laws of the string operations: prefixes, first occurrences, encodings.
use mathlib.Core.List.{reverse, reverse_aux, reverse-reverse}
use voirc.Base.{false, ap, ℕ, ◌≡◌, ◌≢◌, refl, none, some, [], ◌∷◌, ◌++◌, Text, arith, All}
use voirc.Strings.{is_whitespace, trim_end, trim, trim_start, split, strip_prefix, split_once}

pub strip_prefix-append : (p s : Text) → strip_prefix p (p ++ s) ≡ some s
unfolding strip_prefix
strip_prefix-append [] s = refl
strip_prefix-append (c ∷ p) s = ground (arith, strip_prefix-append p s)

pub strip_prefix-eq_some : (p s t : Text) → strip_prefix p s ≡ some t → s ≡ p ++ t
unfolding strip_prefix
strip_prefix-eq_some [] s t h = ground arith
strip_prefix-eq_some (c ∷ p) [] t h = ground arith
strip_prefix-eq_some (c ∷ p) (d ∷ s) t h = ground (arith, strip_prefix-eq_some p s t)

-- The first part of a split holds no separator, so the split of a join is determined.
pub split_once-append :
    (c : ℕ) (s t : Text) → All (λ d. d ≢ c) s → split_once c (s ++ c ∷ t) ≡ some (s, t)
unfolding split_once
split_once-append c [] t h = ground arith
split_once-append c (d ∷ s) t h = ground (arith, split_once-append c s t h.1)

pub split_once-none : (c : ℕ) (s : Text) → All (λ d. d ≢ c) s → split_once c s ≡ none
unfolding split_once
split_once-none c [] h = refl
split_once-none c (d ∷ s) h = ground (arith, split_once-none c s h.1)

-- Two texts that are cut at a separator which their first parts lack are equal only part by part.
pub cut-injective :
    (c : ℕ) (s t u v : Text)
    → All (λ d. d ≢ c) s
    → All (λ d. d ≢ c) u
    → s ++ c ∷ t ≡ u ++ c ∷ v
    → (s ≡ u) × (t ≡ v)
cut-injective c s t u v hs hu e =
    ground (arith, split_once-append c s t hs, split_once-append c u v hu, ap (split_once c) e)

pub split-append : (c : ℕ) (s t : Text) → All (λ d. d ≢ c) s → split c (s ++ c ∷ t) ≡ s ∷ split c t
unfolding split
split-append c [] t h = ground arith
split-append c (d ∷ s) t h = ground (arith, split-append c s t h.1)

pub split-eq_self : (c : ℕ) (s : Text) → All (λ d. d ≢ c) s → split c s ≡ s ∷ []
unfolding split
split-eq_self c [] h = refl
split-eq_self c (d ∷ s) h = ground (arith, split-eq_self c s h.1)

trim_start-eq_self : (s : Text) → All (λ c. is_whitespace c ≡ false) s → trim_start s ≡ s
unfolding trim_start
trim_start-eq_self [] h = refl
trim_start-eq_self (c ∷ s) h = ground (arith, h.0)

All-reverse_aux {ℓ} : (P : ℕ → Type ℓ) (s t : Text) → All P s → All P t → All P (reverse_aux s t)
All-reverse_aux P [] t hs ht = ht
All-reverse_aux P (c ∷ s) t hs ht = All-reverse_aux P s (c ∷ t) hs.1 (hs.0, ht)

-- A text without white space is not trimmed.
pub trim-eq_self : (s : Text) → All (λ c. is_whitespace c ≡ false) s → trim s ≡ s
unfolding trim trim_end
trim-eq_self s h =
    rw
      (
        trim_start-eq_self s h,
        trim_start-eq_self (reverse s) (All-reverse_aux (λ c. is_whitespace c ≡ false) s [] h tt),
      )
      (reverse-reverse s)
