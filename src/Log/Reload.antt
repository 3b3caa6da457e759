-- ===== src/Log/Reload.antt =====
-- What a restart makes of a message that was received twice.
use voirc.Base.{
  ◌∙◌, ap, ◌≡◌, ◌≢◌, refl, true, false, some, [], ◌∷◌, text_eq, eqb, eqb_iff, eqb_refl, arith,
  Bool-cases, inl, inr,
}
use voirc.Dict
use voirc.Dict.{dict_laws, or_else}
use voirc.Int.{ℤ, leb_ℤ, leb_ℤ-total}
use voirc.Log.{
  SignedMessage, Json, MessageLog, empty_log, append, persist_message, add_sorted, has_id,
  sort_by_timestamp, sort_insert, load_channel, parse_lines, get_messages, channel_path,
}

leb_ℤ-refl : (t : ℤ) → leb_ℤ t t ≡ true
leb_ℤ-refl t = elim (Bool-cases (leb_ℤ t t)) [ inl e ↦ e | inr e ↦ cc (e, leb_ℤ-total t t e) ]

abbrev first : Json → SignedMessage → MessageLog
first j m = record {
  messages = (m.channel, m ∷ []) ∷ [];
  files = (channel_path m.channel, j.to_string m ∷ []) ∷ [];
}

append-first : (j : Json) (m : SignedMessage) → (append j true empty_log m).0 ≡ first j m
unfolding append persist_message add_sorted has_id sort_by_timestamp sort_insert Dict.insert
    Dict.get
append-first j m = refl

-- The log with the message in memory once, and on the disk twice.
abbrev second : Json → SignedMessage → MessageLog
second j m = record {
  messages = (m.channel, m ∷ []) ∷ [];
  files = (channel_path m.channel, j.to_string m ∷ j.to_string m ∷ []) ∷ [];
}

append-second : (j : Json) (m : SignedMessage) → (append j true (first j m) m).0 ≡ second j m
unfolding append persist_message add_sorted has_id Dict.insert Dict.get
append-second j m =
    ground (arith, eqb_refl m.channel, eqb_refl m.id, eqb_refl (channel_path m.channel))

abbrev pub twice : Json → SignedMessage → MessageLog
twice j m = (append j true (append j true empty_log m).0 m).0

twice-eq : (j : Json) (m : SignedMessage) → twice j m ≡ second j m
twice-eq j m = ap (λ l. (append j true l m).0) (append-first j m) ∙ append-second j m

load-second :
    (j : Json) (m : SignedMessage)
    → j.from_str (j.to_string m) ≡ some m
    → j.to_string m ≢ []
    → get_messages (load_channel j (second j m) m.channel) m.channel ≡ m ∷ m ∷ []
unfolding load_channel parse_lines get_messages Dict.insert Dict.get sort_by_timestamp sort_insert
load-second j m parses nonempty =
    let full : eqb (j.to_string m) [] ≡ false =
      ground (arith, eqb_iff (j.to_string m) [], nonempty) in
    ground (
      arith,
      eqb_refl m.channel,
      eqb_refl (channel_path m.channel),
      full,
      parses,
      leb_ℤ-refl m.timestamp,
    )

-- A message that is appended twice stands once in the log, as its id is known; but it was written to
-- the disk twice, and after loading the channel again it stands there twice. The JSON of the message
-- is taken to be readable and not empty.
pub load_channel-append_twice :
    (j : Json) (m : SignedMessage)
    → j.from_str (j.to_string m) ≡ some m
    → j.to_string m ≢ []
    → (get_messages (twice j m) m.channel ≡ m ∷ [])
      × (get_messages (load_channel j (twice j m) m.channel) m.channel ≡ m ∷ m ∷ [])
unfolding get_messages Dict.get
load_channel-append_twice j m parses nonempty =
    rw (twice-eq j m) (ground (arith, eqb_refl m.channel), load-second j m parses nonempty)
