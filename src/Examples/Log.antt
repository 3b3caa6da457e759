-- ===== src/Examples/Log.antt =====
-- Runs of the signed log of src/persistence.rs and of the mining of src/pow.rs.
use voirc.Base.{◌≡◌, refl, true, none, some, [], ◌∷◌, text_eq, arith}
use voirc.Strings.{lit}
use voirc.Int.{pos, to_text}
use voirc.Log.{
  SignedMessage, Json, MessageLog, SyncResponse, empty_log, append, process_sync_response, create,
  identity_of,
}
use voirc.Log.Order.{IsOrdered, append-IsOrdered}
use voirc.Log.Sync.{process_sync_response-AllGenuine, AllGenuine}
use voirc.Log.Verify.{IsSound}
use voirc.Log.Canonical.{IsClean, message_bytes-injective}
use voirc.Pow.{mine_nick, MinedNick, candidate}
use voirc.Pow.Mining.{IsFirst, AllFail, mine_nick-IsFirst}
use voirc.Strings.Decimal.{to_dec}
use voirc.Examples.{toy, key, signature, alice}

abbrev pub hi : SignedMessage
hi = record {
  id = lit "i";
  author = lit "a";
  pubkey = key;
  channel = lit "c";
  content = lit "hi";
  timestamp = pos 7;
  chain_hash = lit "h";
  signature = signature;
}

-- JSON that knows one message.
abbrev pub json : Json
json = record { to_string = λ _. lit "m"; from_str = λ _. some hi }

abbrev one : MessageLog
one = (append json true empty_log hi).0

abbrev response : SyncResponse
response = record { channel = lit "c"; messages = hi ∷ hi ∷ [] }

append-IsOrdered_example : IsOrdered one
append-IsOrdered_example = append-IsOrdered json true empty_log hi tt

process_sync_response-AllGenuine_example :
    AllGenuine toy json
      (pos 9)
      (λ _. true)
      []
      (process_sync_response toy json (pos 9) (λ _. true) empty_log response []).0
process_sync_response-AllGenuine_example =
    process_sync_response-AllGenuine toy json (pos 9) (λ _. true) [] empty_log response tt

pub toy-IsSound : IsSound toy
toy-IsSound = record {
  hex_decode-hex_encode = λ _. refl;
  length-verifying_key = λ _. refl;
  is_key-verifying_key = λ _. refl;
  length-sign = λ _ _. refl;
  verify-sign = λ _ _. refl;
}

abbrev mine : SignedMessage
mine = create toy (identity_of toy []) (lit "i") (pos 7) (lit "a") (lit "c") (lit "hi") (pos 3 ∷ [])

hi-IsClean : IsClean hi
unfolding to_text to_dec
hi-IsClean = record {
  id = ground arith;
  author = ground arith;
  channel = ground arith;
  content = ground arith;
  scalars = ground arith;
}

message_bytes-injective_example :
    (hi.id ≡ hi.id)
    × (hi.author ≡ hi.author)
    × (hi.channel ≡ hi.channel)
    × (hi.content ≡ hi.content)
    × (hi.timestamp ≡ hi.timestamp)
    × (hi.chain_hash ≡ hi.chain_hash)
message_bytes-injective_example = message_bytes-injective hi hi hi-IsClean hi-IsClean refl

abbrev mined : MinedNick
mined = record { nick = candidate alice 0; nonce = 0; bits = 16; attempts = 1 }

mine_nick-IsFirst_example :
    ((m : MinedNick)
      → mine_nick toy.sha256 alice key 16 5 ≡ some m
      → IsFirst toy.sha256 alice key 16 0 5 m)
    × (mine_nick toy.sha256 alice key 16 5 ≡ none → AllFail toy.sha256 alice key 16 0 5)
mine_nick-IsFirst_example = mine_nick-IsFirst toy.sha256 alice key 16 5 (omega arith)
