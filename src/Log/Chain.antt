-- ===== src/Log/Chain.antt =====
-- The hash chain looks at the last five timestamps only.
use mathlib.Core.List.{reverse, reverse-reverse, reverse-cons, map-append}
use voirc.Base.{ℕ, zero, suc, ◌≡◌, refl, ap, ◌∙◌, List, [], ◌∷◌, Text, text_eq, take, map}
use voirc.Crypto.{Crypto}
use voirc.Int.{ℤ, to_text}
use voirc.Strings.{as_bytes, join, lit}
use voirc.Log.{
  MessageLog, last, compute_chain_hash, recent_timestamps, get_messages, timestamps, chain_window,
}

module _ {ℓ} {A : Type ℓ} where
  take_twice : (n : ℕ) (xs : List A) → take n (take n xs) ≡ take n xs
  take_twice zero xs = refl
  take_twice (suc n) [] = refl
  take_twice (suc n) (x ∷ xs) = ap (λ (l : List A). x ∷ l) (take_twice n xs)

  last_twice : (n : ℕ) (xs : List A) → last n (last n xs) ≡ last n xs
  unfolding last
  last_twice n xs = rw reverse-reverse (rw take_twice refl)

map-take {ℓ κ} :
    {A : Type ℓ} {B : Type κ} (f : A → B) (n : ℕ) (xs : List A)
    → map f (take n xs) ≡ take n (map f xs)
map-take f zero xs = refl
map-take f (suc n) [] = refl
map-take {B} f (suc n) (x ∷ xs) = ap (λ (l : List B). f x ∷ l) (map-take f n xs)

map-reverse {ℓ κ} :
    {A : Type ℓ} {B : Type κ} (f : A → B) (xs : List A) → map f (reverse xs) ≡ reverse (map f xs)
map-reverse f [] = refl
map-reverse f (x ∷ xs) = simp (reverse-cons, map-append, map-reverse f xs)

recent_timestamps-eq :
    (log : MessageLog) (channel : Text)
    → recent_timestamps log channel ≡ last chain_window (timestamps (get_messages log channel))
unfolding recent_timestamps last get_messages
recent_timestamps-eq log channel = simp (map-take, map-reverse)

pub compute_chain_hash-last :
    (c : Crypto) (ts : List ℤ)
    → compute_chain_hash c (last chain_window ts) ≡ compute_chain_hash c ts
unfolding compute_chain_hash
compute_chain_hash-last c ts =
    ap (λ (l : List ℤ). c.hex_encode (c.sha256 (as_bytes (join (lit ",") (map to_text l)))))
      (last_twice chain_window ts)

-- The chain hash over the recent timestamps of a channel is the one over all of its timestamps.
pub compute_chain_hash-recent_timestamps :
    (c : Crypto) (log : MessageLog) (channel : Text)
    → compute_chain_hash c (recent_timestamps log channel)
      ≡ compute_chain_hash c (timestamps (get_messages log channel))
compute_chain_hash-recent_timestamps c log channel =
    ap (compute_chain_hash c) (recent_timestamps-eq log channel)
    ∙ compute_chain_hash-last c (timestamps (get_messages log channel))
