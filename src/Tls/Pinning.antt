-- ===== src/Tls/Pinning.antt =====
-- What a pinned fingerprint of src/tls.rs is worth.
use voirc.Base.{
  if◌then◌else◌, Text, Text, ℕ, ◌≡◌, ◌↔◌, refl, sym, ap, ◌∙◌, none, some, List, text_eq, eqb,
  eqb_iff, eqb_refl, arith,
}
use voirc.Dict
use voirc.Crypto.{Crypto}
use voirc.Log.Verify.{IsSound}
use voirc.Tls.{info_of, sha256_fingerprint, client_config_pinned, verify_server_cert}

module _ (c : Crypto) (sound : IsSound c) where
  hex_encode-injective : (a b : List ℕ) → c.hex_encode a ≡ c.hex_encode b → a ≡ b
  hex_encode-injective a b e =
      some-injective a b
        (sym (sound.hex_decode-hex_encode a) ∙ ap c.hex_decode e ∙ sound.hex_decode-hex_encode b)
    where
      some-injective : (x y : List ℕ) → some x ≡ some y → x ≡ y
      some-injective x y f = ap (λ o. Dict.or_else o x) f

  accepted :
      (fp expected msg : Text) → (if eqb fp expected then none else some msg) ≡ none → fp ≡ expected
  accepted fp expected msg e = ground (arith, eqb_iff fp expected)

  -- A client that pins the fingerprint of a host's certificate accepts that certificate, and accepts
  -- no other whose SHA-256 is not the same, with hexadecimal digits as documented.
  pub verify_server_cert-pinned :
      (cert key other : List ℕ)
      → let v = client_config_pinned c (info_of c cert key).fingerprint in
        (verify_server_cert c v cert ≡ none)
        × ((verify_server_cert c v other ≡ none) ↔ (c.sha256 other ≡ c.sha256 cert))
  unfolding client_config_pinned info_of verify_server_cert sha256_fingerprint
  verify_server_cert-pinned cert key other = (
    rw (eqb_refl (c.hex_encode (c.sha256 cert))) refl,
    (
      λ e. hex_encode-injective _ _ (accepted _ _ _ e),
      λ e.
          rw
            ((eqb_iff (c.hex_encode (c.sha256 other)) (c.hex_encode (c.sha256 cert))).1
              (ap c.hex_encode e))
            refl,
    ),
  )
