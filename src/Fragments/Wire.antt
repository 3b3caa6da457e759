-- ===== src/Fragments/Wire.antt =====
-- The receiver reads the header that the sender wrote.
use voirc.Base.{
  append_assoc, sym, ap, ℕ, ◌≤◌, ◌≡◌, ◌≢◌, refl, ◌∙◌, false, [], ◌∷◌, ◌++◌, Text, arith, All,
  All-append,
}
use voirc.Strings.{lit, split}
use voirc.Strings.Decimal.{to_dec, usize_max, parse-to_dec, to_dec-All_ne, is_digit}
use voirc.Strings.Laws.{split_once-append, split-append, split-eq_self, strip_prefix-append}
use voirc.Fragments.{
  Buffers, fragment_text, receive_part, read_header, read_content, handle_fragment,
}

-- A message id that a header can hold: the first characters of a uuid are hexadecimal digits.
pub record IsId (msg_id : Text) : Type 0 where
  pub no_bracket : All (λ c. c ≢ b']') msg_id
  pub no_bar : All (λ c. c ≢ b'|') msg_id

module _ (seq total : ℕ) (msg_id : Text) (id_ok : IsId msg_id) where
  abbrev header : Text
  header = to_dec seq ++ b'/' ∷ (to_dec total ++ b'|' ∷ msg_id)

  numbers_ne :
      (c : ℕ) → is_digit c ≡ false → b'/' ≢ c → All (λ d. d ≢ c) (to_dec seq ++ b'/' ∷ to_dec total)
  numbers_ne c h ne =
      All-append (λ (d : ℕ). d ≢ c) (to_dec seq) (b'/' ∷ to_dec total) (to_dec-All_ne c seq h)
        (ne, to_dec-All_ne c total h)

  header_ne : All (λ d. d ≢ b']') header
  header_ne =
      All-append (λ (d : ℕ). d ≢ b']') (to_dec seq) _
        (to_dec-All_ne b']' seq (unfold is_digit in refl))
        (
          omega arith,
          All-append (λ (d : ℕ). d ≢ b']') (to_dec total) (b'|' ∷ msg_id)
              (to_dec-All_ne b']' total (unfold is_digit in refl)) (omega arith, id_ok.no_bracket),
        )

  split-header : split b'|' header ≡ (to_dec seq ++ b'/' ∷ to_dec total) ∷ msg_id ∷ []
  split-header =
      ap (split b'|') (sym (append_assoc (to_dec seq) (b'/' ∷ to_dec total) (b'|' ∷ msg_id)))
      ∙ split-append b'|' (to_dec seq ++ b'/' ∷ to_dec total) msg_id
          (numbers_ne b'|' (unfold is_digit in refl) (omega arith))
      ∙ ap (λ l. (to_dec seq ++ b'/' ∷ to_dec total) ∷ l) (split-eq_self b'|' msg_id id_ok.no_bar)

  split_numbers : split b'/' (to_dec seq ++ b'/' ∷ to_dec total) ≡ to_dec seq ∷ to_dec total ∷ []
  split_numbers =
      split-append b'/' (to_dec seq) (to_dec total)
        (to_dec-All_ne b'/' seq (unfold is_digit in refl))
      ∙ ap (λ l. to_dec seq ∷ l)
          (split-eq_self b'/' (to_dec total) (to_dec-All_ne b'/' total (unfold is_digit in refl)))

  regroup :
      (chunk : Text)
      → to_dec seq ++ b'/' ∷ (to_dec total ++ b'|' ∷ (msg_id ++ b']' ∷ chunk))
        ≡ header ++ b']' ∷ chunk
  regroup chunk = ground (
    arith,
    append_assoc (to_dec seq) (b'/' ∷ (to_dec total ++ b'|' ∷ msg_id)) (b']' ∷ chunk),
    append_assoc (to_dec total) (b'|' ∷ msg_id) (b']' ∷ chunk),
  )

  -- A fragment that was sent is received as the part that it is, with its number, the total, the message
  -- id and the chunk: where the numbers fit a `usize` and the id has no `]` and no `|`.
  pub handle_fragment-fragment_text :
      (m : Buffers) (now : ℕ) (sender chunk : Text)
      → seq ≤ usize_max
      → total ≤ usize_max
      → handle_fragment m now sender (fragment_text seq total msg_id chunk)
        ≡ receive_part m now sender msg_id seq total chunk
  unfolding handle_fragment fragment_text read_content read_header
  handle_fragment-fragment_text m now sender chunk a b = rw (regroup chunk) (
      rw
        (
          strip_prefix-append (lit "WRTC:") (b'[' ∷ (header ++ b']' ∷ chunk)),
          split_once-append b']' (b'[' ∷ header) chunk (omega arith, header_ne),
          split-header,
          split_numbers,
          parse-to_dec usize_max seq a,
          parse-to_dec usize_max total b,
        )
        refl)
