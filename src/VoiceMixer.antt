-- ===== src/VoiceMixer.antt =====
-- src/voice_mixer.rs: the callbacks of the audio devices. The crates `cpal`, `opus`,
-- `webrtc_audio_processing` and `crossbeam` are arguments, and so is the arithmetic of `f32`.
pub mod Frames
pub mod Slices
pub mod Mixing
use voirc.Base.{
  zero, suc, suc, ℕ, Bool, true, false, Option, none, some, List, [], ◌∷◌, ◌++◌, Text, text_eq,
  if◌then◌else◌, length, take, map,
}
use voirc.Dict
use voirc.Dict.{Dict, or_else, mapped}
use voirc.VoiceMixer.Frames.{drain_frames}

-- 20 ms at 48 kHz
abbrev pub frame_size : ℕ
frame_size = 960

-- What the callbacks use of `f32`.
pub record Float : Type 1 where
  pub F32 : Type 0
  pub zero_sample : F32
  pub add : F32 → F32 → F32
  pub mul : F32 → F32 → F32
  pub div : F32 → F32 → F32
  pub sqrt : F32 → F32
  pub tanh : F32 → F32
  pub greater : F32 → F32 → Bool
  pub of_usize : ℕ → F32
  pub gain : F32
  pub quiet : F32

-- The audio processor behind its lock, and an encoder. A frame is left as the processor left it,
-- whether it reports an error or not.
pub record Devices (f : Float) : Type 1 where
  pub Processor : Type 0
  pub try_lock : Processor → Bool
  pub lock : Processor → Bool
  pub process_render_frame : Processor → List f.F32 → Processor
  pub process_capture_frame : Processor → List f.F32 → Processor × List f.F32
  pub Encoder : Type 0
  pub encode_float : Encoder → List f.F32 → Encoder × Option (List ℕ)
  pub Decoder : Type 0
  pub fresh_decoder : Decoder
  -- the buffer after a packet is decoded into it, and how much of it is meant
  pub decode_float : Decoder → List ℕ → Decoder × Option (ℕ × List f.F32)
  pub aec_frame : ℕ

module _ (f : Float) (d : Devices f) where
  -- `RenderHalf::queue` with one frame
  unfoldable pub render_frame : d.Processor → List f.F32 → d.Processor
  render_frame p chunk = if d.try_lock p then d.process_render_frame p chunk else p

  unfoldable pub queue : d.Processor → List f.F32 → List f.F32 → d.Processor × List f.F32
  unfolding render_frame
  queue p buffer samples = drain_frames render_frame d.aec_frame p (buffer ++ samples)

  -- `CaptureHalf::process` with one frame
  unfoldable pub capture_frame : d.Processor × List f.F32 → List f.F32 → d.Processor × List f.F32
  capture_frame (p, out) chunk =
      let (p', chunk') = d.process_capture_frame p chunk in
      if d.lock p then (p', out ++ chunk') else (p, out ++ chunk)

  -- the processor, what is added to `out`, and what stays in the buffer
  unfoldable pub process :
      d.Processor → List f.F32 → List f.F32 → List f.F32 → (d.Processor × List f.F32) × List f.F32
  unfolding capture_frame
  process p buffer input out = drain_frames capture_frame d.aec_frame (p, out) (buffer ++ input)

  sum_squares : f.F32 → List f.F32 → f.F32
  sum_squares acc [] = acc
  sum_squares acc (x ∷ xs) = sum_squares (f.add acc (f.mul x x)) xs

  unfoldable pub rms : List f.F32 → f.F32
  unfolding sum_squares
  rms frame = f.sqrt (f.div (sum_squares f.zero_sample frame) (f.of_usize frame_size))

  abbrev pub sent_packets : List (List ℕ) → Option (List ℕ) → List (List ℕ)
  sent_packets sent none = sent
  sent_packets sent (some packet) = sent ++ packet ∷ []

  -- a frame of the input callback: silence is not encoded
  unfoldable pub encode_frame : d.Encoder × List (List ℕ) → List f.F32 → d.Encoder × List (List ℕ)
  unfolding rms
  encode_frame (e, sent) frame =
      let (e', packet) = d.encode_float e frame in
      if f.greater (rms frame) f.quiet then (e', sent_packets sent packet) else (e, sent)

  -- What the input callback keeps: the processor and its buffer, where echo is cancelled, the samples
  -- that do not make a frame yet, the encoder, and what it sent.
  pub record Input : Type 0 where
    pub capture_half : Option (d.Processor × List f.F32)
    pub opus_acc : List f.F32
    pub encoder : d.Encoder
    pub sent : List (List ℕ)

  unfoldable pub encode_frames : Input → Option (d.Processor × List f.F32) → List f.F32 → Input
  unfolding encode_frame
  encode_frames i half acc =
      let ((e, sent), left) = drain_frames encode_frame frame_size (i.encoder, i.sent) acc in
      record { capture_half = half; opus_acc = left; encoder = e; sent = sent }

  unfoldable pub on_input_from : Input → Option (d.Processor × List f.F32) → List f.F32 → Input
  unfolding process encode_frames
  on_input_from i none samples = encode_frames i none (i.opus_acc ++ samples)
  on_input_from i (some (p, buffer)) samples =
      let ((p', acc), left) = process p buffer samples i.opus_acc in
      encode_frames i (some (p', left)) acc

  unfoldable pub on_input : Input → List f.F32 → Input
  unfolding on_input_from
  on_input i samples = on_input_from i i.capture_half samples

  unfoldable pub soft_clip : f.F32 → f.F32
  soft_clip sample = f.tanh (f.mul sample f.gain)

  -- a buffer added to the output, as far as both reach
  unfoldable pub add_buffer : List f.F32 → List f.F32 → List f.F32
  add_buffer [] buf = []
  add_buffer (s ∷ out) [] = s ∷ out
  add_buffer (s ∷ out) (x ∷ buf) = f.add s x ∷ add_buffer out buf

  -- the buffers that `pop` gives, in their order
  unfoldable pub add_buffers : List f.F32 → List (List f.F32) → List f.F32
  unfolding add_buffer
  add_buffers out [] = out
  add_buffers out (buf ∷ bufs) = add_buffers (add_buffer out buf) bufs

  -- `data.fill(0.0)` on that many samples
  unfoldable pub silence : ℕ → List f.F32
  silence zero = []
  silence (suc n) = f.zero_sample ∷ silence n

  abbrev pub queue_half :
      Option (d.Processor × List f.F32) → List f.F32 → Option (d.Processor × List f.F32)
  queue_half none out = none
  queue_half (some (p, buffer)) out = some (queue p buffer out)

  -- The output callback, with a slice of `n` samples to fill and the buffers that arrived.
  unfoldable pub on_output :
      Option (d.Processor × List f.F32)
      → ℕ
      → List (List f.F32)
      → List f.F32 × Option (d.Processor × List f.F32)
  unfolding silence add_buffers soft_clip queue
  on_output half n bufs =
      let out = map soft_clip (add_buffers (silence n) bufs) in (out, queue_half half out)

  -- `PeerDecoders::decode`
  unfoldable pub decode :
      Dict Text d.Decoder → Text → List ℕ → Dict Text d.Decoder × Option (List f.F32)
  decode decoders nick packet =
      let (decoder, output) =
        d.decode_float (or_else (Dict.get decoders nick) d.fresh_decoder) packet in
      (Dict.insert decoders nick decoder, mapped (λ (o : ℕ × List f.F32). take o.0 o.1) output)
