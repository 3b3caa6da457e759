-- ===== src/Crypto.antt =====
-- What the program uses of the crates `hex`, `ed25519_dalek` and `ring`.
use voirc.Base.{ℕ, Bool, Option, List, Text}

pub record Crypto : Type 0 where
  -- `hex::decode` and `hex::encode`
  pub hex_decode : Text → Option (List ℕ)
  pub hex_encode : List ℕ → Text
  -- whether `VerifyingKey::from_bytes` accepts 32 bytes
  pub is_key : List ℕ → Bool
  -- `verify` of a key, a message and a signature
  pub verify : List ℕ → List ℕ → List ℕ → Bool
  -- `sign` of a signing key and a message, and the verifying key of a signing key
  pub sign : List ℕ → List ℕ → List ℕ
  pub verifying_key : List ℕ → List ℕ
  -- `digest(&SHA256, …)`
  pub sha256 : List ℕ → List ℕ
