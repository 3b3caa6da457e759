-- ===== src/Session/Backoff.antt =====
-- The delays of reconnects in src/gui.rs, 2^attempt seconds and at most 30.
use voirc.Base.{ℕ, ◌^◌, ◌%◌, ◌≤◌, ◌<◌, ◌≡◌, refl, min, arith}
use native.Mathlib.Nat.{pow-le-pow_right, min-eq_right, le_trans}
use voirc.Session.Connections.{backoff}

-- The power of an attempt below 64 does not overflow.
no_overflow : (n : ℕ) → n < 64 → 2 ^ n % 2 ^ 64 ≡ 2 ^ n
no_overflow n h =
    let below = pow-le-pow_right {n = 2} (omega arith) {i = n} {j = 63} (omega arith) in omega arith

capped : (x : ℕ) → 2 ≤ x → (2 ≤ min x 30) × (min x 30 ≤ 30)
capped x h = (ground arith, ground arith)

-- Before any attempt from 1 to 63 the loop waits at least 2 and at most 30 seconds, and 30 from the
-- fifth on.
pub backoff-within :
    (n : ℕ) → 1 ≤ n → n < 64 → (2 ≤ backoff n) × (backoff n ≤ 30) × (5 ≤ n → backoff n ≡ 30)
unfolding backoff
backoff-within n h k =
    let even = pow-le-pow_right {n = 2} (omega arith) {i = 1} {j = n} h in
    let late : 5 ≤ n → 2 ^ 5 ≤ 2 ^ n =
      λ l. pow-le-pow_right {n = 2} (omega arith) {i = 5} {j = n} l in
    rw (no_overflow n k) (
      (capped (2 ^ n) even).0,
      (capped (2 ^ n) even).1,
      λ l. min-eq_right (le_trans (omega arith) (late l)),
    )

-- At the 64th attempt `2u64.pow(attempt)` overflows, and wrapping arithmetic waits not at all.
backoff_64 : backoff 64 ≡ 0
unfolding backoff
backoff_64 = refl
