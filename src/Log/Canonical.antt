-- ===== src/Log/Canonical.antt =====
-- The bytes that are signed determine the message, where no field holds a NUL.
use mathlib.Core.List.{append_assoc}
use voirc.Base.{◌≡◌, ◌≢◌, ◌∷◌, ◌++◌, Text, All}
use voirc.Strings.Laws.{cut-injective}
use voirc.Strings.Utf8.{AreScalars, as_bytes-injective}
use voirc.Int.{ℤ, to_text, to_text-injective, to_text-All_ne_nul}
use voirc.Log.{canonical_bytes, message_bytes, SignedMessage}

abbrev pub HasNoNul : Text → Type 0
HasNoNul = All (λ c. c ≢ 0)

-- The text before it is encoded.
abbrev joined : Text → Text → Text → Text → ℤ → Text → Text
joined id author channel content t hash =
    id ++ 0 ∷ (author ++ 0 ∷ (channel ++ 0 ∷ (content ++ 0 ∷ (to_text t ++ 0 ∷ hash))))

joined-injective :
    (i a ch co : Text) (t : ℤ) (h i' a' ch' co' : Text) (t' : ℤ) (h' : Text)
    → HasNoNul i
    → HasNoNul a
    → HasNoNul ch
    → HasNoNul co
    → HasNoNul i'
    → HasNoNul a'
    → HasNoNul ch'
    → HasNoNul co'
    → joined i a ch co t h ≡ joined i' a' ch' co' t' h'
    → (i ≡ i') × (a ≡ a') × (ch ≡ ch') × (co ≡ co') × (t ≡ t') × (h ≡ h')
joined-injective i a ch co t h i' a' ch' co' t' h' n1 n2 n3 n4 m1 m2 m3 m4 e =
    let (e1, r1) = cut-injective 0 i _ i' _ n1 m1 e in
    let (e2, r2) = cut-injective 0 a _ a' _ n2 m2 r1 in
    let (e3, r3) = cut-injective 0 ch _ ch' _ n3 m3 r2 in
    let (e4, r4) = cut-injective 0 co _ co' _ n4 m4 r3 in
    let (e5, e6) =
      cut-injective 0 (to_text t) h (to_text t') h' (to_text-All_ne_nul t) (to_text-All_ne_nul t')
        r4 in
    (e1, e2, e3, e4, to_text-injective t t' e5, e6)

-- Fields without NUL, of Unicode code points.
pub record IsClean (m : SignedMessage) : Type 0 where
  pub id : HasNoNul m.id
  pub author : HasNoNul m.author
  pub channel : HasNoNul m.channel
  pub content : HasNoNul m.content
  pub scalars : AreScalars (joined m.id m.author m.channel m.content m.timestamp m.chain_hash)

-- Two messages whose signed bytes are equal agree in every field that is signed, where their ids,
-- authors, channels and contents hold no NUL.
pub message_bytes-injective :
    (m n : SignedMessage)
    → IsClean m
    → IsClean n
    → message_bytes m ≡ message_bytes n
    → (m.id ≡ n.id)
      × (m.author ≡ n.author)
      × (m.channel ≡ n.channel)
      × (m.content ≡ n.content)
      × (m.timestamp ≡ n.timestamp)
      × (m.chain_hash ≡ n.chain_hash)
unfolding message_bytes canonical_bytes
message_bytes-injective m n p q e =
    joined-injective _ _ _ _ m.timestamp m.chain_hash _ _ _ _ n.timestamp n.chain_hash p.id p.author
      p.channel p.content q.id q.author q.channel q.content
      (as_bytes-injective _ _ p.scalars q.scalars e)

-- With a NUL inside a field the boundary is lost: a channel that ends in NUL and some text is signed
-- as the channel before the NUL, with that text in front of the content.
pub canonical_bytes_shift :
    (id author channel text content : Text) (t : ℤ) (hash : Text)
    → canonical_bytes id author (channel ++ 0 ∷ text) content t hash
      ≡ canonical_bytes id author channel (text ++ 0 ∷ content) t hash
unfolding canonical_bytes
canonical_bytes_shift id author channel text content t hash = simp append_assoc
