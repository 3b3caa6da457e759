-- ===== src/Tls.antt =====
-- src/tls.rs: the certificate of a host, and the test by which a client knows it. The crates `rcgen` and
-- `rustls` are not modelled: a new certificate is an argument, and a handshake asks the verifiers below.
pub mod Files
pub mod Pinning
use voirc.Base.{
  ℕ, Bool, true, false, ◌&&◌, Option, none, some, List, [], ◌∷◌, ◌++◌, Text, text_eq, eqb,
  if◌then◌else◌,
}
use voirc.Dict
use voirc.Dict.{Dict, is_some}
use voirc.Strings.{lit}
use voirc.Crypto.{Crypto}
use voirc.Session.Chat.{join_path}

pub record CertInfo : Type 0 where
  pub cert_der : List ℕ
  pub key_der : List ℕ
  pub fingerprint : Text

-- The files by their paths, those that can be read and written, and the certificate and the key that
-- are generated where that succeeds.
pub record Disk : Type 0 where
  pub files : Dict Text (List ℕ)
  pub readable : Text → Bool
  pub writable : Text → Bool

unfoldable pub exists : Disk → Text → Bool
exists disk path = is_some (Dict.get disk.files path)

unfoldable pub read : Disk → Text → Option (List ℕ)
read disk path = if disk.readable path then Dict.get disk.files path else none

unfoldable pub write : Disk → Text → List ℕ → Option Disk
write disk path bytes =
    if disk.writable path
    then some (record disk { files = Dict.insert disk.files path bytes })
    else none

module _ (c : Crypto) where
  unfoldable pub sha256_fingerprint : List ℕ → Text
  sha256_fingerprint der = c.hex_encode (c.sha256 der)

  unfoldable pub info_of : List ℕ → List ℕ → CertInfo
  unfolding sha256_fingerprint
  info_of cert key = record {
    cert_der = cert;
    key_der = key;
    fingerprint = sha256_fingerprint cert;
  }

  unfoldable pub load : Option (List ℕ) → Option (List ℕ) → Option CertInfo
  unfolding info_of
  load (some cert) (some key) = some (info_of cert key)
  load none key = none
  load (some cert) none = none

  unfoldable pub save_key : Text → List ℕ → List ℕ → Disk → Option Disk → Option CertInfo × Disk
  unfolding info_of
  save_key path cert key disk none = (none, disk)
  save_key path cert key disk (some saved) = (some (info_of cert key), saved)

  unfoldable pub save_both : Text → List ℕ → List ℕ → Disk → Option Disk → Option CertInfo × Disk
  unfolding save_key write
  save_both path cert key disk none = (none, disk)
  save_both path cert key disk (some saved) = save_key path cert key saved (write saved path key)

  unfoldable pub generate : Text → Text → Option (List ℕ × List ℕ) → Disk → Option CertInfo × Disk
  unfolding save_both write
  generate cert_path key_path none disk = (none, disk)
  generate cert_path key_path (some (cert, key)) disk =
      save_both key_path cert key disk (write disk cert_path cert)

  unfoldable pub load_or_generate : Text → Option (List ℕ × List ℕ) → Disk → Option CertInfo × Disk
  unfolding load generate exists read
  load_or_generate dir generated disk =
      let cert_path = join_path dir (lit "cert.der") in
      let key_path = join_path dir (lit "key.der") in
      if exists disk cert_path && exists disk key_path
      then (load (read disk cert_path) (read disk key_path), disk)
      else generate cert_path key_path generated disk

  -- `PinnedCertVerifier`
  pub record PinnedCertVerifier : Type 0 where
    pub expected : Text

  unfoldable pub client_config_pinned : Text → PinnedCertVerifier
  client_config_pinned expected_fingerprint = record { expected = expected_fingerprint }

  -- `verify_server_cert`: `none` is acceptance, an error has its message.
  unfoldable pub verify_server_cert : PinnedCertVerifier → List ℕ → Option Text
  unfolding sha256_fingerprint
  verify_server_cert v end_entity =
      let fp = sha256_fingerprint end_entity in
      if eqb fp v.expected
      then none
      else some (lit "cert fingerprint mismatch: got " ++ (fp ++ (lit " expected " ++ v.expected)))

  -- `verify_tls12_signature` and `verify_tls13_signature` of both verifiers accept whatever they get.
  unfoldable pub verify_tls_signature : List ℕ → List ℕ → List ℕ → Bool
  verify_tls_signature message cert dss = true
