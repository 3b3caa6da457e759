-- ===== src/Examples.antt =====
-- Concrete runs: small inputs at which the conditions of the theorems hold, and the answers of the
-- definitions there.
pub mod Server
pub mod Log
pub mod Client
pub mod Session
pub mod Media
pub mod App
pub mod Tasks
pub mod Rooms
pub mod Online
pub mod Windows
use voirc.Base.{ℕ, zero, suc, ◌≡◌, refl, true, some, List, [], ◌∷◌, Text}
use voirc.Crypto.{Crypto}
use voirc.Strings.{lit}

abbrev pub repeat : ℕ → ℕ → List ℕ
repeat zero a = []
repeat (suc n) a = a ∷ repeat n a

-- Functions in place of the crates: hexadecimal digits stand for themselves, each hash is one byte with
-- a set bit, and each signature is accepted.
abbrev pub toy : Crypto
toy = record {
  hex_decode = λ t. some t;
  hex_encode = λ bytes. bytes;
  is_key = λ _. true;
  verify = λ _ _ _. true;
  sign = λ _ _. repeat 64 b's';
  verifying_key = λ _. repeat 32 b'k';
  sha256 = λ _. 0 ∷ 0 ∷ 255 ∷ [];
}

abbrev pub key : Text
key = repeat 32 b'k'

abbrev pub signature : Text
signature = repeat 64 b's'

abbrev pub alice : Text
alice = lit "alice"
