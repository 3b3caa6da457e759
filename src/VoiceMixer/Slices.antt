-- ===== src/VoiceMixer/Slices.antt =====
-- The devices cut the sound as they like: what the callbacks of src/voice_mixer.rs do does not depend on it.
use voirc.Base.{
  ◌≤◌, ◌<◌, ◌≡◌, refl, sym, ap, ◌∙◌, Option, none, some, List, [], ◌∷◌, ◌++◌, length, arith,
  append_assoc, Bool-cases, inl, inr,
}
use voirc.VoiceMixer.{
  Float, Devices, Input, frame_size, capture_frame, process, encode_frame, encode_frames,
  on_input_from, on_input,
}
use voirc.VoiceMixer.Frames.{drain_frames, drain_frames-append, drain_frames-left, drain_frames-map}

module _ (f : Float) (d : Devices f) where
  -- What was there before stands in front of what is captured.
  onto : List f.F32 → d.Processor × List f.F32 → d.Processor × List f.F32
  onto out (p, new) = (p, out ++ new)

  capture_frame-onto :
      (out : List f.F32) (s : d.Processor × List f.F32) (chunk : List f.F32)
      → capture_frame f d (onto out s) chunk ≡ onto out (capture_frame f d s chunk)
  unfolding capture_frame onto
  capture_frame-onto out (p, new) chunk = elim (Bool-cases (d.lock p)) [
    | inl e ↦ rw e (ap (λ l. ((d.process_capture_frame p chunk).0, l)) (append_assoc out new _))
    | inr e ↦ rw e (ap (λ l. (p, l)) (append_assoc out new _))
  ]

  process-onto :
      (p : d.Processor) (buffer input out new : List f.F32)
      → process f d p buffer input (out ++ new)
        ≡ (onto out (process f d p buffer input new).0, (process f d p buffer input new).1)
  unfolding process onto
  process-onto p buffer input out new =
      drain_frames-map (capture_frame f d) (capture_frame f d) d.aec_frame (onto out)
        (capture_frame-onto out) (p, new) (buffer ++ input)

  process-append :
      (p : d.Processor) (buffer a b out : List f.F32)
      → 1 ≤ d.aec_frame
      → let first = process f d p buffer a out in
        process f d p buffer (a ++ b) out ≡ process f d first.0.0 first.1 b first.0.1
  unfolding process
  process-append p buffer a b out h =
      ap (drain_frames (capture_frame f d) d.aec_frame (p, out)) (sym (append_assoc buffer a b))
      ∙ drain_frames-append (capture_frame f d) d.aec_frame (p, out) (buffer ++ a) b h

  append_nil : (s : List f.F32) → s ++ [] ≡ s
  append_nil [] = refl
  append_nil (x ∷ s) = ap (λ l. x ∷ l) (append_nil s)

  -- What is captured does not depend on what was there before.
  process-from_nil :
      (p : d.Processor) (buffer input out : List f.F32)
      → process f d p buffer input out
        ≡ (onto out (process f d p buffer input []).0, (process f d p buffer input []).1)
  process-from_nil p buffer input out =
      ap (process f d p buffer input) (sym (append_nil out)) ∙ process-onto p buffer input out []

  -- What waits is encoded together with what comes after it.
  encode_frames-append :
      (i : Input f d) (h k : Option (d.Processor × List f.F32)) (acc more : List f.F32)
      → encode_frames f d i k (acc ++ more)
        ≡ encode_frames f d
            (encode_frames f d i h acc)
            k
            ((encode_frames f d i h acc).opus_acc ++ more)
  unfolding encode_frames
  encode_frames-append i h k acc more =
      ap (λ r. record { capture_half = k; opus_acc = r.1; encoder = r.0.0; sent = r.0.1 })
        (drain_frames-append (encode_frame f d) frame_size (i.encoder, i.sent) acc more
          (omega arith))

  on_input_from-append :
      (i : Input f d) (h : Option (d.Processor × List f.F32)) (a b : List f.F32)
      → 1 ≤ d.aec_frame
      → on_input_from f d i h (a ++ b)
        ≡ on_input_from f d (on_input_from f d i h a) (on_input_from f d i h a).capture_half b
  unfolding on_input_from encode_frames onto
  on_input_from-append i none a b l =
      ap (encode_frames f d i none) (sym (append_assoc i.opus_acc a b))
      ∙ encode_frames-append i none none (i.opus_acc ++ a) b
  on_input_from-append i (some (p, buffer)) a b l =
      let first = process f d p buffer a i.opus_acc in
      let later = process f d first.0.0 first.1 b [] in
      let i1 = encode_frames f d i (some (first.0.0, first.1)) first.0.1 in
      let encode : Input f d → (d.Processor × List f.F32) × List f.F32 → Input f d =
        λ j q. encode_frames f d j (some (q.0.0, q.1)) q.0.1 in
      ap (encode i)
        (process-append p buffer a b i.opus_acc l ∙ process-from_nil first.0.0 first.1 b first.0.1)
      ∙ encode_frames-append i (some (first.0.0, first.1)) (some (later.0.0, later.1)) first.0.1
          later.0.1
      ∙ sym (ap (encode i1) (process-from_nil first.0.0 first.1 b i1.opus_acc))

  -- How the device cuts the microphone's samples makes no difference: two slices leave the same state,
  -- and have sent the same packets, as the slice of all their samples, where a frame of the processor has
  -- a sample at least.
  pub on_input-append :
      (i : Input f d) (a b : List f.F32)
      → 1 ≤ d.aec_frame
      → on_input f d i (a ++ b) ≡ on_input f d (on_input f d i a) b
  unfolding on_input
  on_input-append i a b l = on_input_from-append i i.capture_half a b l

  encode_frames-left :
      (i : Input f d) (h : Option (d.Processor × List f.F32)) (acc : List f.F32)
      → length (encode_frames f d i h acc).opus_acc < 960
  unfolding encode_frames
  encode_frames-left i h acc =
      drain_frames-left (encode_frame f d) frame_size (i.encoder, i.sent) acc (omega arith)

  -- The samples that wait for the processor, where there is one.
  abbrev pub waiting : Option (d.Processor × List f.F32) → List f.F32
  waiting none = []
  waiting (some (p, buffer)) = buffer

  on_input_from-left :
      (i : Input f d) (h : Option (d.Processor × List f.F32)) (samples : List f.F32)
      → 1 ≤ d.aec_frame
      → (length (on_input_from f d i h samples).opus_acc < 960)
        × (length (waiting (on_input_from f d i h samples).capture_half) < d.aec_frame)
  unfolding on_input_from encode_frames process
  on_input_from-left i none samples l =
      (encode_frames-left i none (i.opus_acc ++ samples), omega arith)
  on_input_from-left i (some (p, buffer)) samples l =
      let q = process f d p buffer samples i.opus_acc in
      (
        encode_frames-left i (some (q.0.0, q.1)) q.0.1,
        drain_frames-left (capture_frame f d) d.aec_frame (p, i.opus_acc) (buffer ++ samples) l,
      )

  -- After every slice less than a frame waits to be encoded, and less than a frame of the processor
  -- waits for it, so both loops have run to their end, where a frame of the processor has a sample at
  -- least.
  pub on_input-left :
      (i : Input f d) (samples : List f.F32)
      → 1 ≤ d.aec_frame
      → (length (on_input f d i samples).opus_acc < 960)
        × (length (waiting (on_input f d i samples).capture_half) < d.aec_frame)
  unfolding on_input
  on_input-left i samples l = on_input_from-left i i.capture_half samples l
