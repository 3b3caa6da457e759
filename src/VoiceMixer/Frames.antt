-- ===== src/VoiceMixer/Frames.antt =====
-- The loop `while buffer.len() >= n { buffer.drain(..n) ... }` of src/voice_mixer.rs.
use voirc.Base.{
  lt→ltb, ltb→lt, ℕ, zero, suc, ◌≤◌, ◌<◌, ◌≡◌, refl, ap, ◌∙◌, false, List, [], ◌∷◌, ◌++◌,
  if◌then◌else◌, ltb, length, take, drop, arith, length-drop, length-append, Bool-cases, inl, inr,
}

module _ {ℓ κ} {A : Type ℓ} {S : Type κ} (handle : S → List A → S) (size : ℕ) where
  drain : ℕ → S → List A → S × List A
  drain zero s buffer = (s, buffer)
  drain (suc fuel) s buffer =
      let rest = drain fuel (handle s (take size buffer)) (drop size buffer) in
      if ltb (length buffer) size then (s, buffer) else rest

  -- As many rounds as there are samples are enough, since each takes one at least.
  unfoldable pub drain_frames : S → List A → S × List A
  unfolding drain
  drain_frames s buffer = drain (length buffer) s buffer

  drain_fuel :
      (f g : ℕ) (s : S) (buffer : List A)
      → 1 ≤ size
      → length buffer ≤ f
      → length buffer ≤ g
      → drain f s buffer ≡ drain g s buffer
  unfolding drain
  drain_fuel zero zero s buffer h k l = refl
  drain_fuel zero (suc g) s buffer h k l = rw (lt→ltb (length buffer) size (omega arith)) refl
  drain_fuel (suc f) zero s buffer h k l = rw (lt→ltb (length buffer) size (omega arith)) refl
  drain_fuel (suc f) (suc g) s buffer h k l = elim (Bool-cases (ltb (length buffer) size)) [
    | inl e ↦ rw e refl
    | inr e ↦ rw e (
        drain_fuel f g (handle s (take size buffer)) (drop size buffer) h
          (omega (arith, length-drop size buffer)) (omega (arith, length-drop size buffer)))
  ]

  drain-left :
      (f : ℕ) (s : S) (buffer : List A)
      → 1 ≤ size
      → length buffer ≤ f
      → length (drain f s buffer).1 < size
  unfolding drain
  drain-left zero s buffer h k = omega arith
  drain-left (suc f) s buffer h k = elim (Bool-cases (ltb (length buffer) size)) [
    | inl e ↦ rw e (ltb→lt (length buffer) size e)
    | inr e ↦ rw e (
        drain-left f (handle s (take size buffer)) (drop size buffer) h
          (omega (arith, length-drop size buffer)))
  ]

  -- The loop ends with less than a frame in the buffer.
  pub drain_frames-left :
      (s : S) (buffer : List A) → 1 ≤ size → length (drain_frames s buffer).1 < size
  unfolding drain_frames
  drain_frames-left s buffer h = drain-left (length buffer) s buffer h (omega arith)

  take-append : (n : ℕ) (xs ys : List A) → n ≤ length xs → take n (xs ++ ys) ≡ take n xs
  take-append zero xs ys h = refl
  take-append (suc n) [] ys h = elim h [ ]
  take-append (suc n) (x ∷ xs) ys h = ap (λ l. x ∷ l) (take-append n xs ys (omega arith))

  drop-append : (n : ℕ) (xs ys : List A) → n ≤ length xs → drop n (xs ++ ys) ≡ drop n xs ++ ys
  drop-append zero xs ys h = refl
  drop-append (suc n) [] ys h = elim h [ ]
  drop-append (suc n) (x ∷ xs) ys h = drop-append n xs ys (omega arith)

  drain-append :
      (f g : ℕ) (s : S) (buffer more : List A)
      → 1 ≤ size
      → length buffer ≤ f
      → length (buffer ++ more) ≤ g
      → drain g s (buffer ++ more)
        ≡ drain_frames (drain f s buffer).0 ((drain f s buffer).1 ++ more)
  unfolding drain drain_frames
  drain-append zero g s buffer more h k l =
      drain_fuel g (length (buffer ++ more)) s (buffer ++ more) h l (omega arith)
  drain-append (suc f) zero s buffer more h k l =
      rw (lt→ltb (length buffer) size (omega (arith, length-append buffer more)))
        (drain_fuel zero (length (buffer ++ more)) s (buffer ++ more) h l (omega arith))
  drain-append (suc f) (suc g) s buffer more h k l = elim (Bool-cases (ltb (length buffer) size)) [
    | inl e ↦
        rw e (drain_fuel (suc g) (length (buffer ++ more)) s (buffer ++ more) h l (omega arith))
    | inr e ↦
        let le : size ≤ length buffer = ground (arith, e) in
        let more_left : ltb (length (buffer ++ more)) size ≡ false =
          ground (arith, le, length-append buffer more) in
        rw (e, more_left, take-append size buffer more le, drop-append size buffer more le)
          (drain-append f g (handle s (take size buffer)) (drop size buffer) more h
            (omega (arith, length-drop size buffer))
            (omega (
              arith,
              length-drop size buffer,
              length-append buffer more,
              length-append (drop size buffer) more,
            )))
  ]

  -- What is left of one slice and the next slice together come to the same as both slices at once.
  pub drain_frames-append :
      (s : S) (buffer more : List A)
      → 1 ≤ size
      → drain_frames s (buffer ++ more)
        ≡ drain_frames (drain_frames s buffer).0 ((drain_frames s buffer).1 ++ more)
  unfolding drain_frames
  drain_frames-append s buffer more h =
      drain-append (length buffer) (length (buffer ++ more)) s buffer more h (omega arith)
        (omega arith)

-- Where a map of states commutes with the handling of a frame, it commutes with the loop.
module _ {ℓ κ ι} {A : Type ℓ} {S : Type κ} {T : Type ι} (h : S → List A → S) (k : T → List A → T)
    (size : ℕ) (m : S → T) where
  drain-map :
      ((s : S) (frame : List A) → k (m s) frame ≡ m (h s frame))
      → (f : ℕ) (s : S) (buffer : List A)
      → drain k size f (m s) buffer ≡ (m (drain h size f s buffer).0, (drain h size f s buffer).1)
  unfolding drain
  drain-map e zero s buffer = refl
  drain-map e (suc f) s buffer = elim (Bool-cases (ltb (length buffer) size)) [
    | inl b ↦ rw b refl
    | inr b ↦ rw b (
        ap (λ t. drain k size f t (drop size buffer)) (e s (take size buffer))
        ∙ drain-map e f (h s (take size buffer)) (drop size buffer))
  ]

  pub drain_frames-map :
      ((s : S) (frame : List A) → k (m s) frame ≡ m (h s frame))
      → (s : S) (buffer : List A)
      → drain_frames k size (m s) buffer
        ≡ (m (drain_frames h size s buffer).0, (drain_frames h size s buffer).1)
  unfolding drain_frames
  drain_frames-map e s buffer = drain-map e (length buffer) s buffer
