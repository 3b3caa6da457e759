-- ===== src/WebrtcPeer/Delivery.antt =====
-- A file arrives exactly where all of it was sent.
use voirc.Base.{
  ℕ, zero, suc, ◌≡◌, ◌≤◌, ◌<◌, refl, sym, ap, ◌∙◌, Bool, true, false, Option, none, some, List, [],
  ◌∷◌, ◌++◌, Text, if◌then◌else◌, length, take, drop, All, All-append, append_assoc, arith,
  length-drop, min, ltb, ◌≢◌,
}
use voirc.Strings.{trim, lit, as_bytes, strip_prefix}
use voirc.Strings.Decimal.{
  to_dec, parse-to_dec, usize_max, to_dec-All_ne, to_dec-IsNumeral, IsNumeral, is_digit,
}
use voirc.Strings.Lossy.{from_utf8_lossy, IsAscii, from_utf8_lossy-ascii, as_bytes-ascii}
use voirc.Session.Chat.{ReceivedFile}
use voirc.WebrtcPeer.Files.{
  DataChannelMessage, InFlightFile, rsplit_once, with_capacity, begin_file, end_file, on_text,
  on_bytes, on_message, receive_all, chunks, text_message, binary_then_end, send_all, file_messages,
  send_file,
}

joined : List (List ℕ) → List ℕ
joined [] = []
joined (c ∷ cs) = c ++ joined cs

take-drop : (n : ℕ) (s : List ℕ) → take n s ++ drop n s ≡ s
take-drop zero s = refl
take-drop (suc n) [] = refl
take-drop (suc n) (x ∷ s) = ap (λ l. x ∷ l) (take-drop n s)

append_nil : (s : List ℕ) → s ++ [] ≡ s
append_nil [] = refl
append_nil (c ∷ s) = ap (λ l. c ∷ l) (append_nil s)

joined-chunks :
    (size fuel : ℕ) (s : List ℕ) → 1 ≤ size → length s ≤ fuel → joined (chunks size fuel s) ≡ s
unfolding joined chunks
joined-chunks size zero [] h l = refl
joined-chunks size zero (b ∷ s) h l = elim l [ ]
joined-chunks size (suc fuel) [] h l = refl
joined-chunks size (suc fuel) (b ∷ s) h l =
    ap (λ r. take size (b ∷ s) ++ r)
      (joined-chunks size fuel (drop size (b ∷ s)) h (omega (arith, length-drop size (b ∷ s))))
    ∙ take-drop size (b ∷ s)

rsplit_once-none : (c : ℕ) (s : Text) → All (λ d. d ≢ c) s → rsplit_once c s ≡ none
unfolding rsplit_once
rsplit_once-none c [] h = refl
rsplit_once-none c (d ∷ s) h = rw (rsplit_once-none c s h.1) (ground (arith, h.0))

rsplit_once-append :
    (c : ℕ) (s t : Text) → All (λ d. d ≢ c) t → rsplit_once c (s ++ c ∷ t) ≡ some (s, t)
unfolding rsplit_once
rsplit_once-append c [] t h = rw (rsplit_once-none c t h) (ground arith)
rsplit_once-append c (d ∷ s) t h = rw (rsplit_once-append c s t h) refl

digits-IsAscii : (s : Text) → All (λ d. is_digit d ≡ true) s → IsAscii s
unfolding is_digit
digits-IsAscii [] h = tt
digits-IsAscii (c ∷ s) h = (ground (arith, h.0), digits-IsAscii s h.1)

numeral-IsAscii : (s : Text) → IsNumeral s → IsAscii s
unfolding is_digit
numeral-IsAscii [] h = tt
numeral-IsAscii (c ∷ s) h = (ground (arith, h.0), digits-IsAscii s h.1)

to_dec-IsAscii : (n : ℕ) → IsAscii (to_dec n)
to_dec-IsAscii n = numeral-IsAscii (to_dec n) (to_dec-IsNumeral n)

on_message-begin :
    (nick name : Text) (bytes : List ℕ) (f : Option InFlightFile)
    → IsAscii name
    → length bytes ≤ 9223372036854775807
    → on_message nick f (text_message (lit "FILE:" ++ (name ++ b':' ∷ to_dec (length bytes))))
      ≡ some (some (record { name = name; bytes = [] }), [])
unfolding on_message on_text begin_file with_capacity strip_prefix
on_message-begin nick name bytes f a l =
    let line : Text = lit "FILE:" ++ (name ++ b':' ∷ to_dec (length bytes)) in
    let ascii : IsAscii line =
      All-append (λ c. c < 0x80) (lit "FILE:") _ (ground arith)
        (All-append (λ c. c < 0x80) name (b':' ∷ to_dec (length bytes)) a
          (omega arith, to_dec-IsAscii (length bytes))) in
    let text_eq : from_utf8_lossy (as_bytes line) ≡ line =
      rw (as_bytes-ascii line ascii) (from_utf8_lossy-ascii line ascii) in
    rw text_eq (
      rw
        (rsplit_once-append b':' name (to_dec (length bytes))
          (to_dec-All_ne b':' (length bytes) (unfold is_digit in refl)))
        (rw (parse-to_dec usize_max (length bytes) (omega arith)) (ground (arith, l))))

receive_all-cons :
    (nick : Text) (f g h : Option InFlightFile) (m : DataChannelMessage)
    (ms : List DataChannelMessage) (files : List ReceivedFile)
    → on_message nick f m ≡ some (g, [])
    → receive_all nick g ms ≡ some (h, files)
    → receive_all nick f (m ∷ ms) ≡ some (h, files)
unfolding receive_all
receive_all-cons nick f g h m ms files e k = rw (e, receive_all) (rw (k, receive_all) refl)

module _ (nick name : Text) where
  -- What the receiver has after the chunks that were sent, and after the end.
  pub record IsOutcome (bytes : List ℕ) (sent : List DataChannelMessage × Bool)
      (f : Option InFlightFile) : Type 0 where
    pub in_flight : Option InFlightFile
    pub handled :
        receive_all nick f sent.0
        ≡ some (
          in_flight,
          if sent.1 then record { sender = nick; name = name; bytes = bytes } ∷ [] else [],
        )
    pub ended : sent.1 ≡ true → in_flight ≡ none

  receive-chunks :
      (cs : List (List ℕ)) (n : ℕ) (have : List ℕ)
      → IsOutcome
          (have ++ joined cs)
          (send_all n (binary_then_end cs))
          (some (record { name = name; bytes = have }))
  unfolding binary_then_end send_all receive_all joined on_message on_text end_file on_bytes
      strip_prefix trim from_utf8_lossy as_bytes voirc.Base.text_beq
  receive-chunks [] zero have = record {
    in_flight = some (record { name = name; bytes = have });
    handled = refl;
    ended = λ e. ground arith;
  }
  receive-chunks [] (suc n) have = record {
    in_flight = none;
    handled = rw (append_nil have) refl;
    ended = λ e. refl;
  }
  receive-chunks (c ∷ cs) zero have = record {
    in_flight = some (record { name = name; bytes = have });
    handled = refl;
    ended = λ e. ground arith;
  }
  receive-chunks (c ∷ cs) (suc n) have =
      let rest = receive-chunks cs n (have ++ c) in
      record {
        in_flight = rest.in_flight;
        handled = rw (sym (append_assoc have c (joined cs))) (rw rest.handled refl);
        ended = rest.ended;
      }

  -- Whatever the receiver had before, and however many messages of a file the channel takes: no message
  -- panics, and the file arrives, with its name and its bytes and under the nick of the sender, exactly
  -- where `send_file` succeeds. The name is ASCII and the file shorter than 2^63 bytes.
  pub receive_all-send_file :
      (n : ℕ) (bytes : List ℕ) (f : Option InFlightFile)
      → IsAscii name
      → length bytes ≤ 9223372036854775807
      → IsOutcome bytes (send_file (some n) name bytes) f
  unfolding send_file file_messages send_all receive_all
  receive_all-send_file zero bytes f a l = record {
    in_flight = f;
    handled = refl;
    ended = λ e. ground arith;
  }
  receive_all-send_file (suc n) bytes f a l =
      let rest = receive-chunks (chunks 16384 (length bytes) bytes) n [] in
      record {
        in_flight = rest.in_flight;
        handled =
            receive_all-cons nick f _ _
              (text_message (lit "FILE:" ++ (name ++ b':' ∷ to_dec (length bytes))))
              (send_all n (binary_then_end (chunks 16384 (length bytes) bytes))).0 _
              (on_message-begin nick name bytes f a l)
              (rest.handled
                ∙ ap
                    (λ b. some (
                      rest.in_flight,
                      if (send_all n (binary_then_end (chunks 16384 (length bytes) bytes))).1
                          then record { sender = nick; name = name; bytes = b } ∷ []
                          else [],
                    ))
                    (joined-chunks 16384 (length bytes) bytes (omega arith) (omega arith)));
        ended = rest.ended;
      }
