-- ===== src/Tls/Files.antt =====
-- The files of a certificate: what `load_or_generate` of src/tls.rs saves, it loads.
use voirc.Base.{
  ◌⊎◌, ℕ, ◌≡◌, ◌≢◌, inl, inr, refl, sym, ap, ◌∙◌, Bool, true, false, ◌&&◌, Option, none, some, List,
  [], ◌∷◌, ◌++◌, Text, text_eq, eqb_iff, eqb_refl, Bool-cases, if◌then◌else◌, arith,
}
use voirc.Dict
use voirc.Dict.{Dict, is_some}
use voirc.Strings.{lit}
use voirc.Crypto.{Crypto}
use voirc.Session.Chat.{ends_with_slash, join_path}
use voirc.Tls.{
  CertInfo, Disk, exists, read, write, info_of, load, save_key, save_both, generate,
  load_or_generate,
}

append-cancel : (s t u : Text) → s ++ t ≡ s ++ u → t ≡ u
append-cancel [] t u e = e
append-cancel (c ∷ s) t u e = append-cancel s t u (ground (arith, e))

names_differ : lit "cert.der" ≢ lit "key.der"
names_differ e = ground (arith, e)

below_differ : b'/' ∷ lit "cert.der" ≢ b'/' ∷ lit "key.der"
below_differ e = ground (arith, e)

-- The two files have different paths.
paths_differ : (dir : Text) → join_path dir (lit "cert.der") ≢ join_path dir (lit "key.der")
unfolding join_path
paths_differ dir = elim (Bool-cases (ends_with_slash dir)) [
  | inl h ↦ rw h (λ e. names_differ (append-cancel dir _ _ e))
  | inr h ↦ rw h (λ e. below_differ (append-cancel dir _ _ e))
]

none_ne_some : (info : CertInfo) → none ≢ some info
none_ne_some info e = ground (arith, e)

module _ (c : Crypto) (dir : Text) where
  abbrev cert_path : Text
  cert_path = join_path dir (lit "cert.der")

  abbrev key_path : Text
  key_path = join_path dir (lit "key.der")

  record IsSaved (disk : Disk) (info : CertInfo) : Type 0 where
    both : (exists disk cert_path && exists disk key_path) ≡ true
    loaded : load c (read disk cert_path) (read disk key_path) ≡ some info

  load_or_generate-saved :
      (again : Option (List ℕ × List ℕ)) (disk : Disk) (info : CertInfo)
      → IsSaved disk info
      → load_or_generate c dir again disk ≡ (some info, disk)
  unfolding load_or_generate exists read
  load_or_generate-saved again disk info h = rw h.both (ap (λ o. (o, disk)) h.loaded)

  written :
      (disk : Disk) (cert key : List ℕ)
      → disk.readable cert_path ≡ true
      → disk.readable key_path ≡ true
      → IsSaved
          (record disk { files = Dict.insert (Dict.insert disk.files cert_path cert) key_path key })
          (info_of c cert key)
  unfolding exists read load
  written disk cert key rc rk =
      let there : Dict.get (Dict.insert (Dict.insert disk.files cert_path cert) key_path key)
            cert_path
          ≡ some cert =
        ground (
          arith,
          Dict.get-insert (Dict.insert disk.files cert_path cert) key_path key cert_path,
          Dict.get-insert disk.files cert_path cert cert_path,
          eqb_refl cert_path,
          eqb_iff key_path cert_path,
          paths_differ dir,
        ) in
      let key_there : Dict.get (Dict.insert (Dict.insert disk.files cert_path cert) key_path key)
            key_path
          ≡ some key =
        ground (
          arith,
          Dict.get-insert (Dict.insert disk.files cert_path cert) key_path key key_path,
          eqb_refl key_path,
        ) in
      record { both = rw (there, key_there) refl; loaded = rw (rc, rk, there, key_there) refl }

  module _ (disk : Disk) (info : CertInfo) (rc : disk.readable cert_path ≡ true)
      (rk : disk.readable key_path ≡ true) where
    -- Either both files are written, or there is an error.
    generate-cases :
        (cert key : List ℕ)
        → (generate c cert_path key_path (some (cert, key)) disk ≡ (
          some (info_of c cert key),
          record disk { files = Dict.insert (Dict.insert disk.files cert_path cert) key_path key },
        ))
          ⊎ ((generate c cert_path key_path (some (cert, key)) disk).0 ≡ none)
    unfolding generate save_both save_key write
    generate-cases cert key = elim (Bool-cases (disk.writable cert_path)) [
      | inr w ↦ inr (rw w refl)
      | inl w ↦ elim (Bool-cases (disk.writable key_path)) [
        | inl v ↦ inl (rw (w, v) refl)
        | inr v ↦ inr (rw (w, v) refl)
      ]
    ]

    generate-saved :
        (generated : Option (List ℕ × List ℕ))
        → (generate c cert_path key_path generated disk).0 ≡ some info
        → IsSaved (generate c cert_path key_path generated disk).1 info
    unfolding generate
    generate-saved none e = ground (arith, e)
    generate-saved (some (cert, key)) e = elim (generate-cases cert key) [
      | inl made ↦
          let saved = written disk cert key rc rk in
          rw made
            (record { both = saved.both; loaded = saved.loaded ∙ sym (ap (λ r. r.0) made) ∙ e })
      | inr failed ↦ absurd (none_ne_some info (sym failed ∙ e))
    ]

    saved_by :
        (generated : Option (List ℕ × List ℕ)) (b : Bool)
        → (exists disk cert_path && exists disk key_path) ≡ b
        → let after =
            if b
            then (load c (read disk cert_path) (read disk key_path), disk)
            else generate c cert_path key_path generated disk in
          after.0 ≡ some info → IsSaved after.1 info
    saved_by generated true b e = record { both = b; loaded = e }
    saved_by generated false b e = generate-saved generated e

  -- What was loaded or generated once is loaded again from then on, whatever else would be generated,
  -- as long as both files can be read.
  pub load_or_generate-again :
      (generated again : Option (List ℕ × List ℕ)) (disk : Disk) (info : CertInfo)
      → disk.readable (join_path dir (lit "cert.der")) ≡ true
      → disk.readable (join_path dir (lit "key.der")) ≡ true
      → (load_or_generate c dir generated disk).0 ≡ some info
      → load_or_generate c dir again (load_or_generate c dir generated disk).1
        ≡ (some info, (load_or_generate c dir generated disk).1)
  unfolding load_or_generate exists read
  load_or_generate-again generated again disk info rc rk e =
      load_or_generate-saved again (load_or_generate c dir generated disk).1 info
        (saved_by disk info rc rk generated _ refl e)
