-- ===== src/Log/Sync.antt =====
-- What a synchronisation puts into the log, and what it counts.
use voirc.Base.{
  ◌+◌, ◌≡◌, Bool, true, false, List, [], ◌∷◌, ◌++◌, Text, text_eq, arith, length, All, All-append,
  Bool-cases, Option-cases, inl, inr,
}
use voirc.Dict
use voirc.Dict.{Dict, Every, or_else}
use voirc.Crypto.{Crypto}
use voirc.Int.{ℤ}
use voirc.Log.{
  SignedMessage, Json, MessageLog, append, persist_message, has_id, add_sorted, distrusts, passes,
  process_messages, verify, signature_valid, SyncResponse, process_sync_response, check_chain,
}
use voirc.Log.Order.{IsOrdered, append-IsOrdered, All-sort_by_timestamp}

All-add_sorted :
    (P : SignedMessage → Type 0) (ms : List SignedMessage) (m : SignedMessage)
    → P m
    → All P ms
    → All P (add_sorted ms m)
unfolding add_sorted
All-add_sorted P ms m p h = elim (Bool-cases (has_id ms m.id)) [
  | inl e ↦ rw e h
  | inr e ↦ rw e (All-sort_by_timestamp P (ms ++ m ∷ []) (All-append P ms (m ∷ []) h (p, tt)))
]

module _ (c : Crypto) (j : Json) (now : ℤ) (written : SignedMessage → Bool)
    (trusted : Dict Text Text) where
  -- What is known of a message that is handed to the log.
  passes-eq_true :
      (m : SignedMessage)
      → passes c now trusted m ≡ true
      → (signature_valid c m ≡ true) × (distrusts (Dict.get trusted m.author) m.pubkey ≡ false)
  unfolding passes verify check_chain
  passes-eq_true m h = ground arith

  -- A property of logs that an append of a passing message keeps is kept by the whole response.
  process_induction :
      (P : MessageLog → Type 0)
      → ((log : MessageLog) (m : SignedMessage)
          → passes c now trusted m ≡ true
          → P log
          → P (append j (written m) log m).0)
      → (log : MessageLog) (ms : List SignedMessage) → P log
      → P (process_messages c j now written trusted log ms).0
  unfolding process_messages
  process_induction P keep log [] h = h
  process_induction P keep log (m ∷ ms) h = elim (Bool-cases (passes c now trusted m)) [
    | inl e ↦ rw e (process_induction P keep (append j (written m) log m).0 ms (keep log m e h))
    | inr e ↦ rw e (process_induction P keep log ms h)
  ]

  -- After a response the log is ordered as before: each channel sorted by time, with every id once.
  pub process_sync_response-IsOrdered :
      (log : MessageLog) (response : SyncResponse)
      → IsOrdered log
      → IsOrdered (process_sync_response c j now written log response trusted).0
  process_sync_response-IsOrdered log response h =
      process_induction IsOrdered (λ l m _. append-IsOrdered j (written m) l m) log
        response.messages h

  -- A message whose signature is valid, and whose key is not another than the trusted one.
  abbrev pub IsGenuine : SignedMessage → Type 0
  IsGenuine m =
      (signature_valid c m ≡ true) × (distrusts (Dict.get trusted m.author) m.pubkey ≡ false)

  abbrev pub AllGenuine : MessageLog → Type 0
  AllGenuine log = Every (λ _ ms. All IsGenuine ms) log.messages

  All-get :
      (log : MessageLog) (channel : Text)
      → AllGenuine log
      → All IsGenuine (or_else (Dict.get log.messages channel) [])
  All-get log channel h = elim (Option-cases (Dict.get log.messages channel)) [
    | inl e ↦ rw e tt
    | inr (ms, e) ↦ rw e (Dict.Every-get (λ _ ms. All IsGenuine ms) log.messages channel ms h e)
  ]

  append-AllGenuine :
      (log : MessageLog) (m : SignedMessage)
      → passes c now trusted m ≡ true
      → AllGenuine log
      → AllGenuine (append j (written m) log m).0
  unfolding append persist_message
  append-AllGenuine log m p h = elim (Bool-cases (written m)) [
    | inr e ↦ rw e h
    | inl e ↦ rw e (
        Dict.Every-insert (λ _ ms. All IsGenuine ms) log.messages m.channel _ h
          (All-add_sorted IsGenuine _ m (passes-eq_true m p) (All-get log m.channel h)))
  ]

  -- Where each message of the log has a valid signature, and no other key than the one that is trusted
  -- for its author, the same holds after any response.
  pub process_sync_response-AllGenuine :
      (log : MessageLog) (response : SyncResponse)
      → AllGenuine log
      → AllGenuine (process_sync_response c j now written log response trusted).0
  process_sync_response-AllGenuine log response h =
      process_induction AllGenuine append-AllGenuine log response.messages h

-- Where every write succeeds, each message of the response is counted once, as accepted or as
-- rejected.
pub process_sync_response-counts :
    (c : Crypto) (j : Json) (now : ℤ) (trusted : Dict Text Text) (log : MessageLog)
    (ms : List SignedMessage)
    → (process_messages c j now (λ _. true) trusted log ms).1
        + (process_messages c j now (λ _. true) trusted log ms).2
      ≡ length ms
unfolding process_messages append
process_sync_response-counts c j now trusted log [] = omega arith
process_sync_response-counts c j now trusted log (m ∷ ms) =
    elim (Bool-cases (passes c now trusted m)) [
      | inl e ↦
          rw e
            (omega (arith, process_sync_response-counts c j now trusted (append j true log m).0 ms))
      | inr e ↦ rw e (omega (arith, process_sync_response-counts c j now trusted log ms))
    ]
