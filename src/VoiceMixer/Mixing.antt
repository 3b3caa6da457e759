-- ===== src/VoiceMixer/Mixing.antt =====
-- What the speaker gets: the output callback of src/voice_mixer.rs, sample by sample.
use voirc.Base.{
  ℕ, zero, suc, ◌≡◌, refl, ap, ◌∙◌, Bool, true, false, Option, none, some, List, [], ◌∷◌, map,
  if◌then◌else◌, ltb, arith,
}
use voirc.Dict.{mapped}
use voirc.VoiceMixer.{Float, Devices, add_buffer, add_buffers, silence, soft_clip, on_output}

-- what stands at a place, if anything does
abbrev pub get_at {ℓ} : {A : Type ℓ} → ℕ → List A → Option A
get_at i [] = none
get_at zero (x ∷ xs) = some x
get_at (suc i) (x ∷ xs) = get_at i xs

get_at-map {ℓ κ} :
    {A : Type ℓ} {B : Type κ} (g : A → B) (i : ℕ) (xs : List A)
    → get_at i (map g xs) ≡ mapped g (get_at i xs)
get_at-map g i [] = refl
get_at-map g zero (x ∷ xs) = refl
get_at-map g (suc i) (x ∷ xs) = get_at-map g i xs

mapped-id {ℓ} : {A : Type ℓ} (o : Option A) → o ≡ mapped (λ a. a) o
mapped-id none = refl
mapped-id (some a) = refl

mapped-mapped {ℓ} :
    {A : Type ℓ} (g h : A → A) (o : Option A) → mapped g (mapped h o) ≡ mapped (λ a. g (h a)) o
mapped-mapped g h none = refl
mapped-mapped g h (some a) = refl

module _ (f : Float) (d : Devices f) where
  abbrev add_some : f.F32 → Option f.F32 → f.F32
  add_some s none = s
  add_some s (some x) = f.add s x

  -- The sum of the samples at a place, over the buffers that reach it, in their order.
  abbrev pub sum_at : ℕ → f.F32 → List (List f.F32) → f.F32
  sum_at i s [] = s
  sum_at i s (buf ∷ bufs) = sum_at i (add_some s (get_at i buf)) bufs

  get_at-add_buffer :
      (i : ℕ) (out buf : List f.F32)
      → get_at i (add_buffer f d out buf) ≡ mapped (λ s. add_some s (get_at i buf)) (get_at i out)
  unfolding get_at add_buffer
  get_at-add_buffer i [] buf = refl
  get_at-add_buffer zero (s ∷ out) [] = refl
  get_at-add_buffer zero (s ∷ out) (x ∷ buf) = refl
  get_at-add_buffer (suc i) (s ∷ out) [] = mapped-id (get_at i out)
  get_at-add_buffer (suc i) (s ∷ out) (x ∷ buf) = get_at-add_buffer i out buf

  get_at-add_buffers :
      (i : ℕ) (bufs : List (List f.F32)) (out : List f.F32)
      → get_at i (add_buffers f d out bufs) ≡ mapped (λ s. sum_at i s bufs) (get_at i out)
  unfolding add_buffers
  get_at-add_buffers i [] out = mapped-id (get_at i out)
  get_at-add_buffers i (buf ∷ bufs) out =
      get_at-add_buffers i bufs (add_buffer f d out buf)
      ∙ ap (mapped (λ s. sum_at i s bufs)) (get_at-add_buffer i out buf)
      ∙ mapped-mapped (λ s. sum_at i s bufs) (λ s. add_some s (get_at i buf)) (get_at i out)

  get_at-silence :
      (i n : ℕ) → get_at i (silence f d n) ≡ (if ltb i n then some f.zero_sample else none)
  unfolding silence
  get_at-silence i zero = ground arith
  get_at-silence zero (suc n) = ground arith
  get_at-silence (suc i) (suc n) = ground (arith, get_at-silence i n)

  mapped_if :
      (b : Bool) (bufs : List (List f.F32)) (i : ℕ)
      → mapped
          (soft_clip f d)
          (mapped (λ s. sum_at i s bufs) (if b then some f.zero_sample else none))
        ≡ (if b then some (soft_clip f d (sum_at i f.zero_sample bufs)) else none)
  mapped_if true bufs i = refl
  mapped_if false bufs i = refl

  -- Each sample of a slice is the clipped sum of what all buffers that arrived have at its place, in
  -- the order of their arrival, and the slice has as many samples as the device asked for.
  pub get_at-on_output :
      (half : Option (d.Processor × List f.F32)) (n : ℕ) (bufs : List (List f.F32)) (i : ℕ)
      → get_at i (on_output f d half n bufs).0
        ≡ (if ltb i n then some (soft_clip f d (sum_at i f.zero_sample bufs)) else none)
  unfolding on_output
  get_at-on_output half n bufs i =
      get_at-map (soft_clip f d) i (add_buffers f d (silence f d n) bufs)
      ∙ ap (mapped (soft_clip f d)) (get_at-add_buffers i bufs (silence f d n))
      ∙ ap (λ o. mapped (soft_clip f d) (mapped (λ s. sum_at i s bufs) o)) (get_at-silence i n)
      ∙ mapped_if (ltb i n) bufs i
