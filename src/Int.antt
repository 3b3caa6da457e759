-- ===== src/Int.antt =====
-- i64 values, as integers. No arithmetic on them that could overflow is modelled.
use voirc.Base.{
  sym, ◌≢◌, ap, All, ℕ, zero, suc, ◌+◌, ◌≡◌, refl, Bool, true, false, [], ◌∷◌, Text, leb, arith,
}
use voirc.Strings.Decimal.{is_digit, to_dec-All_ne, to_dec-injective, to_dec}

-- `negsuc n` is -(n + 1).
pub data ℤ : Type 0 where
  pos : ℕ → ℤ
  negsuc : ℕ → ℤ

unfoldable pub leb_ℤ : ℤ → ℤ → Bool
leb_ℤ (pos m) (pos n) = leb m n
leb_ℤ (pos m) (negsuc n) = false
leb_ℤ (negsuc m) (pos n) = true
leb_ℤ (negsuc m) (negsuc n) = leb n m

pub leb_ℤ-total : (a b : ℤ) → leb_ℤ a b ≡ false → leb_ℤ b a ≡ true
unfolding leb_ℤ
leb_ℤ-total (pos m) (pos n) h = ground arith
leb_ℤ-total (pos m) (negsuc n) h = refl
leb_ℤ-total (negsuc m) (pos n) h = cc
leb_ℤ-total (negsuc m) (negsuc n) h = ground arith

pub leb_ℤ-trans : (a b c : ℤ) → leb_ℤ a b ≡ true → leb_ℤ b c ≡ true → leb_ℤ a c ≡ true
unfolding leb_ℤ
leb_ℤ-trans (pos l) (pos m) (pos n) h k = ground arith
leb_ℤ-trans (negsuc l) (negsuc m) (negsuc n) h k = ground arith
leb_ℤ-trans (negsuc l) b (pos n) h k = refl
leb_ℤ-trans (pos l) (negsuc m) c h k = cc
leb_ℤ-trans (pos l) (pos m) (negsuc n) h k = cc
leb_ℤ-trans (negsuc l) (pos m) (negsuc n) h k = cc

-- `now + k` for a span of `k` seconds
unfoldable pub after : ℤ → ℕ → ℤ
after (pos n) k = pos (n + k)
after (negsuc n) zero = negsuc n
after (negsuc zero) (suc k) = pos k
after (negsuc (suc n)) (suc k) = after (negsuc n) k

-- `to_string`
unfoldable pub to_text : ℤ → Text
to_text (pos n) = to_dec n
to_text (negsuc n) = b'-' ∷ to_dec (suc n)

no_minus : (s t : Text) → All (λ d. d ≢ b'-') s → s ≡ b'-' ∷ t → ⊥
no_minus [] t h e = cc e
no_minus (d ∷ s) t h e = h.0 (ground arith)

-- Different integers are printed differently.
pub to_text-injective : (a b : ℤ) → to_text a ≡ to_text b → a ≡ b
unfolding to_text
to_text-injective (pos m) (pos n) e = ap pos (to_dec-injective m n e)
to_text-injective (negsuc m) (negsuc n) e =
    let f : to_dec (suc m) ≡ to_dec (suc n) = ground arith in
    let g : suc m ≡ suc n = to_dec-injective (suc m) (suc n) f in ap negsuc (omega arith)
to_text-injective (pos m) (negsuc n) e =
    absurd (no_minus (to_dec m) (to_dec (suc n)) (to_dec-All_ne b'-' m (unfold is_digit in refl)) e)
to_text-injective (negsuc m) (pos n) e =
    absurd (
      no_minus (to_dec n) (to_dec (suc m)) (to_dec-All_ne b'-' n (unfold is_digit in refl)) (sym e))

-- A printed integer holds no NUL.
pub to_text-All_ne_nul : (a : ℤ) → All (λ d. d ≢ 0) (to_text a)
unfolding to_text
to_text-All_ne_nul (pos n) = to_dec-All_ne 0 n (unfold is_digit in refl)
to_text-All_ne_nul (negsuc n) = (omega arith, to_dec-All_ne 0 (suc n) (unfold is_digit in refl))
