-- ===== src/Examples/Media.antt =====
-- A file over a data channel, and the sound of a call.
use voirc.Base.{ℕ, ◌+◌, ◌≡◌, true, none, some, [], ◌∷◌, ◌++◌, arith, List, length, ltb}
use voirc.Strings.{lit}
use voirc.WebrtcPeer.Files.{send_file}
use voirc.WebrtcPeer.Delivery.{IsOutcome, receive_all-send_file}
use voirc.VoiceMixer.{Float, Devices, Input, on_input}
use voirc.VoiceMixer.Slices.{on_input-append}
use voirc.Examples.{alice}

abbrev bytes : List ℕ
bytes = 1 ∷ 2 ∷ 3 ∷ []

receive_all-send_file_example :
    IsOutcome alice (lit "a:b.txt") bytes (send_file (some 3) (lit "a:b.txt") bytes) none
receive_all-send_file_example =
    receive_all-send_file alice (lit "a:b.txt") 3 bytes none (omega arith) (omega arith)

-- Natural numbers in place of samples.
abbrev float : Float
float = record {
  F32 = ℕ;
  zero_sample = 0;
  add = λ a b. a + b;
  mul = λ a b. a + b;
  div = λ a b. a;
  sqrt = λ a. a;
  tanh = λ a. a;
  greater = λ a b. ltb b a;
  of_usize = λ n. n;
  gain = 1;
  quiet = 0;
}

-- A processor that counts its frames, and an encoder that sends the length of each frame.
abbrev devices : Devices float
devices = record {
  Processor = ℕ;
  try_lock = λ _. true;
  lock = λ _. true;
  process_render_frame = λ p _. p + 1;
  process_capture_frame = λ p chunk. (p + 1, chunk);
  Encoder = ℕ;
  encode_float = λ e frame. (e + 1, some (length frame ∷ []));
  Decoder = ℕ;
  fresh_decoder = 0;
  decode_float = λ d packet. (d, some (length packet, packet));
  aec_frame = 2;
}

abbrev input : Input float devices
input = record { capture_half = some (0, 9 ∷ []); opus_acc = []; encoder = 0; sent = [] }

on_input-append_example :
    on_input float devices input (bytes ++ bytes)
    ≡ on_input float devices (on_input float devices input bytes) bytes
on_input-append_example = on_input-append float devices input bytes bytes (omega arith)
