-- ===== src/Relay/Framing.antt =====
-- Audio that is sent through the relay of src/relay.rs arrives as it was sent.
use voirc.Base.{
  ℕ, zero, suc, ◌+◌, ◌*◌, ◌/◌, ◌%◌, ◌≤◌, ◌≡◌, refl, ◌∙◌, ap, some, List, [], ◌∷◌, ◌++◌, Text,
  text_eq, length, map, All, arith, append_assoc, length-append,
}
use voirc.Strings.{as_bytes, len}
use voirc.Strings.Lossy.{as_bytes-ascii, from_utf8_lossy-ascii, IsAscii}
use voirc.Relay.{
  read_exact, read_block, read_nick, read_payload, be_bytes, relay_frame, send_audio,
  send_handshake, relay_loop, serve, receive_frame, receive_loop, receive, concat, max_nick,
  max_payload,
}

read_exact-append : (xs ys : List ℕ) → read_exact (length xs) (xs ++ ys) ≡ some (xs, ys)
unfolding read_exact
read_exact-append [] ys = refl
read_exact-append (x ∷ xs) ys = rw (read_exact-append xs ys) refl

-- A payload that the relay takes.
pub record IsPayload (p : List ℕ) : Type 0 where
  pub nonempty : 1 ≤ length p
  pub bounded : length p ≤ 4096

-- A nick that the relay takes, in ASCII.
pub record IsRelayNick (nick : Text) : Type 0 where
  pub ascii : IsAscii nick
  pub nonempty : 1 ≤ length nick
  pub bounded : length nick ≤ 64

two_bytes : (n : ℕ) → n ≤ 4096 → (n / 256) % 256 * 256 + n % 256 ≡ n
two_bytes n h = omega arith

small : (n : ℕ) → n ≤ 64 → n % 256 ≡ n
small n h = omega arith

read_block-append :
    (limit : ℕ) (p rest : List ℕ)
    → 1 ≤ length p
    → length p ≤ limit
    → read_block limit (length p) (p ++ rest) ≡ some (p, rest)
unfolding read_block
read_block-append limit p rest a b = ground (arith, a, b, read_exact-append p rest)

read_payload-send_audio :
    (p rest : List ℕ) → IsPayload p → read_payload (send_audio p ++ rest) ≡ some (p, rest)
unfolding read_payload send_audio be_bytes
read_payload-send_audio p rest ok =
    ap (λ n. read_block max_payload n (p ++ rest)) (two_bytes (length p) ok.bounded)
    ∙ read_block-append max_payload p rest ok.nonempty ok.bounded

payload_again :
    (p rest : List ℕ)
    → IsPayload p
    → read_payload ((be_bytes (length p) ++ p) ++ rest) ≡ some (p, rest)
unfolding send_audio
payload_again p rest ok = read_payload-send_audio p rest ok

read_nick-block :
    (nick : Text) (rest : List ℕ)
    → IsRelayNick nick
    → read_nick (len nick % 256 ∷ (as_bytes nick ++ rest)) ≡ some (nick, rest)
unfolding read_nick len
read_nick-block nick rest ok = rw (as_bytes-ascii nick ok.ascii) (
    ap (λ n. read_block max_nick n (nick ++ rest)) (small (length nick) ok.bounded)
    ∙ read_block-append max_nick nick rest ok.nonempty ok.bounded)

receive_frame-relay_frame :
    (nick : Text) (p rest : List ℕ)
    → IsRelayNick nick
    → IsPayload p
    → receive_frame (relay_frame nick p ++ rest) ≡ some ((nick, p), rest)
unfolding receive_frame relay_frame
receive_frame-relay_frame nick p rest n ok =
    rw (append_assoc (as_bytes nick) (be_bytes (length p) ++ p) rest) (
      rw
        (
          read_nick-block nick ((be_bytes (length p) ++ p) ++ rest) n,
          payload_again p rest ok,
          from_utf8_lossy-ascii nick n.ascii,
          receive_frame,
        )
        refl)

-- The client's loop reads every frame, given fuel for each.
receive_loop-frames :
    (fuel : ℕ) (nick : Text) (ps : List (List ℕ))
    → IsRelayNick nick
    → All IsPayload ps
    → length ps ≤ fuel
    → receive_loop fuel (concat (map (relay_frame nick) ps)) ≡ map (λ p. (nick, p)) ps
unfolding receive_loop concat
receive_loop-frames zero nick [] n ok enough = refl
receive_loop-frames zero nick (p ∷ ps) n ok enough = ground (arith, enough)
receive_loop-frames (suc fuel) nick [] n ok enough = unfold receive_frame read_nick in refl
receive_loop-frames (suc fuel) nick (p ∷ ps) n ok enough =
    rw (receive_frame-relay_frame nick p (concat (map (relay_frame nick) ps)) n ok.0, receive_loop)
      (ap (λ l. (nick, p) ∷ l) (receive_loop-frames fuel nick ps n ok.1 (omega (arith, enough))))

-- The relay's loop forwards every payload, given fuel for each.
relay_loop-audio :
    (fuel : ℕ) (nick : Text) (ps : List (List ℕ))
    → All IsPayload ps
    → length ps ≤ fuel
    → relay_loop fuel nick (concat (map send_audio ps)) ≡ map (relay_frame nick) ps
unfolding relay_loop concat
relay_loop-audio zero nick [] ok enough = refl
relay_loop-audio zero nick (p ∷ ps) ok enough = ground (arith, enough)
relay_loop-audio (suc fuel) nick [] ok enough = unfold read_payload in refl
relay_loop-audio (suc fuel) nick (p ∷ ps) ok enough =
    rw (read_payload-send_audio p (concat (map send_audio ps)) ok.0, relay_loop)
      (ap (λ l. relay_frame nick p ∷ l)
        (relay_loop-audio fuel nick ps ok.1 (omega (arith, enough))))

length-concat :
    (f : List ℕ → List ℕ)
    → ((p : List ℕ) → 1 ≤ length (f p))
    → (ps : List (List ℕ)) → length ps ≤ length (concat (map f ps))
unfolding concat
length-concat f long [] = omega arith
length-concat f long (p ∷ ps) =
    omega (arith, long p, length-concat f long ps, length-append (f p) (concat (map f ps)))

-- What a client sends, its handshake and then any number of payloads of 1 to 4096 bytes, the relay
-- turns into one frame for each payload, under the nick of the handshake; nothing is left out.
-- The nick is ASCII and has 1 to 64 characters.
pub serve-client :
    (nick : Text) (ps : List (List ℕ))
    → IsRelayNick nick
    → All IsPayload ps
    → serve (send_handshake nick ++ concat (map send_audio ps))
      ≡ some (nick, map (relay_frame nick) ps)
unfolding serve send_handshake
serve-client nick ps n ok =
    rw
      (
        read_nick-block nick (concat (map send_audio ps)) n,
        from_utf8_lossy-ascii nick n.ascii,
        serve,
      )
      (ap (λ l. some (nick, l))
        (relay_loop-audio (length (concat (map send_audio ps))) nick ps ok
          (length-concat send_audio (λ p. unfold send_audio be_bytes in omega arith) ps)))

-- From the frames that the relay makes of payloads of 1 to 4096 bytes, a client reads exactly those
-- payloads, in order and with their sender. The nick is ASCII and has 1 to 64 characters.
pub receive-frames :
    (nick : Text) (ps : List (List ℕ))
    → IsRelayNick nick
    → All IsPayload ps
    → receive (concat (map (relay_frame nick) ps)) ≡ map (λ p. (nick, p)) ps
unfolding receive
receive-frames nick ps n ok =
    receive_loop-frames (length (concat (map (relay_frame nick) ps))) nick ps n ok
      (length-concat (relay_frame nick) (λ p. unfold relay_frame in omega arith) ps)
