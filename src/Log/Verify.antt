-- ===== src/Log/Verify.antt =====
-- What `verify` makes of a message that `create` signed.
use voirc.Base.{
  ℕ, ◌≡◌, refl, true, none, some, List, Text, text_eq, eqb_refl, arith, length, ap, sym, ◌∙◌,
}
use voirc.Crypto.{Crypto}
use voirc.Int.{ℤ, leb_ℤ, after}
use voirc.Log.{
  SignedMessage, identity_of, create, compute_chain_hash, canonical_bytes, message_bytes,
  decode_array, signature_valid, check_time, check_chain, verify, ok, timestamp_tolerance_secs,
  last, chain_window,
}
use voirc.Log.Chain.{compute_chain_hash-last}

-- What the crates document: decoding undoes encoding, keys and signatures have their sizes, and a
-- signature is verified by the key that belongs to its signing key.
pub record IsSound (c : Crypto) : Type 0 where
  pub hex_decode-hex_encode : (bytes : List ℕ) → c.hex_decode (c.hex_encode bytes) ≡ some bytes
  pub length-verifying_key : (sk : List ℕ) → length (c.verifying_key sk) ≡ 32
  pub is_key-verifying_key : (sk : List ℕ) → c.is_key (c.verifying_key sk) ≡ true
  pub length-sign : (sk msg : List ℕ) → length (c.sign sk msg) ≡ 64
  pub verify-sign : (sk msg : List ℕ) → c.verify (c.verifying_key sk) msg (c.sign sk msg) ≡ true

module _ (c : Crypto) (sound : IsSound c) (sk : List ℕ) where
  decode_array-key :
      decode_array c 32 (c.hex_encode (c.verifying_key sk)) ≡ some (c.verifying_key sk)
  unfolding decode_array
  decode_array-key =
      ground
        (arith, sound.hex_decode-hex_encode (c.verifying_key sk), sound.length-verifying_key sk)

  decode_array-sign :
      (msg : List ℕ) → decode_array c 64 (c.hex_encode (c.sign sk msg)) ≡ some (c.sign sk msg)
  unfolding decode_array
  decode_array-sign msg =
      ground (arith, sound.hex_decode-hex_encode (c.sign sk msg), sound.length-sign sk msg)

  module _ (id : Text) (time : ℤ) (author channel content : Text) (recent : List ℤ) where
    abbrev pub created : SignedMessage
    created = create c (identity_of c sk) id time author channel content recent

    signature_valid-create : signature_valid c created ≡ true
    unfolding signature_valid create identity_of message_bytes
    signature_valid-create =
        let msg = canonical_bytes id author channel content time (compute_chain_hash c recent) in
        ground (
          arith,
          decode_array-key,
          sound.is_key-verifying_key sk,
          decode_array-sign msg,
          sound.verify-sign sk msg,
        )

    -- Where hex and ed25519 do what they document, a created message is accepted, as long as its time is at
    -- most two minutes ahead: without known timestamps, and with known timestamps whose last five are
    -- those that it was created with.
    pub verify-create :
        (now : ℤ) (known : List ℤ)
        → leb_ℤ time (after now timestamp_tolerance_secs) ≡ true
        → last chain_window known ≡ last chain_window recent
        → (verify c now created none ≡ ok) × (verify c now created (some known) ≡ ok)
    unfolding verify check_chain check_time create
    verify-create now known le e =
        let same : compute_chain_hash c known ≡ compute_chain_hash c recent =
          sym (compute_chain_hash-last c known)
          ∙ ap (compute_chain_hash c) e
          ∙ compute_chain_hash-last c recent in
        (
          rw (signature_valid-create, le) refl,
          rw signature_valid-create
              (rw same (rw (eqb_refl (compute_chain_hash c recent), le) refl)),
        )
