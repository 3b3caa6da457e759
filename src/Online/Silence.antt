-- ===== src/Online/Silence.antt =====
-- What the panic in `VOIRC_PUBKEY` of src/irc_client.rs does to the client.
use voirc.Base.{
  ◌≡◌, ◌≢◌, refl, ap, ◌∙◌, Bool, true, false, Option, none, List, [], ◌∷◌, ◌++◌, Text, text_eq, All,
  if◌then◌else◌,
}
use voirc.Strings.{lit}
use voirc.State.{register_peer_pubkey}
use voirc.Client.{Context, Client, Event, Reaction, key_prefix, quiet, register, take_pubkey}
use voirc.Client.Gate.{handle_privmsg-parts}
use voirc.Client.Reader.{Parsed}
use voirc.Session.{World}
use voirc.Online.{
  Online, Happening, line_read, event_taken, woken, heard, refreshed, peer_changed, irc_failed,
  search_ended, role_set, react, client_of, take_next, happen, run,
}
use voirc.Online.Ranks.{Says, expired, happen-Says}

-- What happens, but for the lines that the server sends.
abbrev pub without_lines : List Happening → List Happening
without_lines [] = []
without_lines (line_read k line ∷ hs) = without_lines hs
without_lines (h ∷ hs) = h ∷ without_lines hs

take_next-reading :
    (w : World) (s : Online) (queue : List Event) → (take_next w s queue).reading ≡ s.reading
take_next-reading w s [] = refl
take_next-reading w s (e ∷ queue) = refl

reading-if :
    (b : Bool) (s t : Online) → t.reading ≡ s.reading → (if b then t else s).reading ≡ s.reading
reading-if true s t e = e
reading-if false s t e = refl

module _ (from_str : Text → Parsed) (debug : Option Text → Text) where
  abbrev go : Online → List Happening → Online
  go = run from_str debug

  unread :
      (s : Online) (k : Context) (line : Text)
      → s.reading ≡ false
      → happen from_str debug s (line_read k line) ≡ s
  unfolding happen
  unread s k line ended =
      ap
        (λ b.
          if b
          then react s (voirc.Client.Reader.read_line from_str debug k (client_of s) line)
          else s)
        ended

  -- Once the reader has ended, lines make no difference.
  silent :
      (s : Online) (hs : List Happening) → s.reading ≡ false → go s hs ≡ go s (without_lines hs)
  unfolding run happen
  silent s [] ended = refl
  silent s (line_read k line ∷ hs) ended =
      ap (λ (t : Online). go t hs) (unread s k line ended) ∙ silent s hs ended
  silent s (event_taken w ∷ hs) ended =
      silent (happen from_str debug s (event_taken w)) hs
        (reading-if s.session.running s _ (take_next-reading w s s.queue) ∙ ended)
  silent s (woken w input ∷ hs) ended =
      silent (happen from_str debug s (woken w input)) hs
        (reading-if s.session.running s _ refl ∙ ended)
  silent s (heard nick now ∷ hs) ended = silent (happen from_str debug s (heard nick now)) hs ended
  silent s (refreshed now clock ∷ hs) ended =
      silent (happen from_str debug s (refreshed now clock)) hs ended
  silent s (peer_changed nick state ∷ hs) ended =
      silent (happen from_str debug s (peer_changed nick state)) hs ended
  silent s (irc_failed e ∷ hs) ended = silent (happen from_str debug s (irc_failed e)) hs ended
  silent s (search_ended channel result ∷ hs) ended =
      silent (happen from_str debug s (search_ended channel result)) hs ended
  silent s (role_set role ∷ hs) ended = silent (happen from_str debug s (role_set role)) hs ended

  panicked :
      (h : Client) (name pubkey : Text)
      → (register_peer_pubkey h.app name pubkey).1 ≡ true
      → key_prefix pubkey ≡ none
      → (take_pubkey h (name ∷ pubkey ∷ [])).client.reading ≡ false
  unfolding take_pubkey
  panicked h name pubkey new_key cut = rw (new_key, cut) refl

  -- One message of any peer, which names a key for a nick without a colon, ends the reader where the key
  -- conflicts with none that is known and its byte 8 is inside a character: after it, no line
  -- that the server sends makes any difference, whatever else happens.
  pub one_line_deafens :
      (s : Online) (k : Context) (line nick target name pubkey : Text) (hs : List Happening)
      → s.reading ≡ true
      → All (λ c. c ≢ b':') name
      → (register_peer_pubkey s.session.app name pubkey).1 ≡ true
      → key_prefix pubkey ≡ none
      → Says from_str line nick target (lit "VOIRC_PUBKEY:" ++ (name ++ b':' ∷ pubkey))
      → run from_str debug s (line_read k line ∷ hs)
        ≡ run from_str debug s (line_read k line ∷ without_lines hs)
  unfolding run
  one_line_deafens s k line nick target name pubkey hs reads no_colon new_key cut says =
      let h = expired k (client_of s) in
      silent (happen from_str debug s (line_read k line)) hs (
        ap (λ (t : Online). t.reading)
          (happen-Says from_str debug s k line nick target _ reads says)
        ∙ ap (λ (r : Reaction). r.client.reading)
            (handle_privmsg-parts k h nick target name pubkey no_colon)
        ∙ panicked h name pubkey new_key cut)
