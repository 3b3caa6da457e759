-- ===== src/Server/Admission.antt =====
-- How many clients the accept loop lets in, in all and from one IP address.
use voirc.Base.{
  text_eq, ℕ, suc, ◌+◌, ◌≤◌, ◌<◌, ◌≡◌, ◌≢◌, refl, Bool, true, false, none, some, List, [], ◌∷◌,
  Text, nat_eq, eqb_iff, eqb_refl, ◌==◌, arith, length, Bool-cases, Option-cases, inl, inr,
}
use voirc.Dict
use voirc.Dict.{Dict}
use voirc.Crypto.{Crypto}
use voirc.Server.{Addr, addr_eq, Client, ServerState, count_clients, count_ip, leave}
use voirc.Server.Auth.{mark_authenticated, authenticate}
use voirc.Server.Commands.{set_nick}
use voirc.Server.Connection.{accepts, connect, arrive, close, cleanup, quit, fail}
use voirc.Server.Run.{Reach, Reach_induction}
use voirc.Server.Changes.{bind, Change, same, renamed, claimed, pow_set, entered, kicked, parted}

abbrev one_if : Bool → ℕ
one_if true = 1
one_if false = 0

module _ (ip : ℕ) where
  count_clients-insert_le :
      (m : Dict Addr Client) (a : Addr) (c : Client)
      → count_clients ip (Dict.insert m a c) ≤ one_if (c.ip == ip) + count_clients ip m
  unfolding count_clients Dict.insert
  count_clients-insert_le [] a c = ground arith
  count_clients-insert_le ((j, d) ∷ m) a c = ground (arith, count_clients-insert_le m a c)

  count_clients-insert_fresh :
      (m : Dict Addr Client) (a : Addr) (c : Client)
      → Dict.get m a ≡ none
      → count_clients ip (Dict.insert m a c) ≡ one_if (c.ip == ip) + count_clients ip m
  unfolding count_clients Dict.insert Dict.get
  count_clients-insert_fresh [] a c h = ground arith
  count_clients-insert_fresh ((j, d) ∷ m) a c h = ground (arith, count_clients-insert_fresh m a c)

  -- A new value for a client that keeps its IP address.
  count_clients-update :
      (m : Dict Addr Client) (a : Addr) (old c : Client)
      → Dict.get m a ≡ some old
      → c.ip ≡ old.ip
      → count_clients ip (Dict.insert m a c) ≡ count_clients ip m
  unfolding count_clients Dict.insert Dict.get
  count_clients-update [] a old c h e = cc
  count_clients-update ((j, d) ∷ m) a old c h e = ground (arith, count_clients-update m a old c)

  count_clients-remove :
      (m : Dict Addr Client) (a : Addr) → count_clients ip (Dict.remove m a) ≤ count_clients ip m
  unfolding count_clients Dict.remove
  count_clients-remove [] a = omega arith
  count_clients-remove ((j, d) ∷ m) a = ground (arith, count_clients-remove m a)

length-update :
    (m : Dict Addr Client) (a : Addr) (old c : Client)
    → Dict.get m a ≡ some old
    → length (Dict.insert m a c) ≡ length m
unfolding Dict.insert Dict.get
length-update [] a old c h = cc
length-update ((j, d) ∷ m) a old c h = ground (arith, length-update m a old c)

length-insert_fresh :
    (m : Dict Addr Client) (a : Addr) (c : Client)
    → Dict.get m a ≡ none
    → length (Dict.insert m a c) ≡ suc (length m)
unfolding Dict.insert Dict.get
length-insert_fresh [] a c h = refl
length-insert_fresh ((j, d) ∷ m) a c h = ground (arith, length-insert_fresh m a c)

remove-insert_fresh :
    (m : Dict Addr Client) (a : Addr) (c : Client)
    → Dict.get m a ≡ none
    → Dict.remove (Dict.insert m a c) a ≡ m
unfolding Dict.insert Dict.get Dict.remove
remove-insert_fresh [] a c h = ground (arith, eqb_refl a)
remove-insert_fresh ((j, d) ∷ m) a c h = ground (arith, remove-insert_fresh m a c, eqb_iff j a)

-- The limits that the accept loop is there to keep.
pub record IsAdmitted (s : ServerState) : Type 0 where
  pub total : length s.clients ≤ 100
  pub per_ip : (ip : ℕ) → count_ip s ip ≤ 5

-- A connection that is accepted, and whose task starts at once, keeps the limits.
pub arrive-IsAdmitted : (s : ServerState) (a : Addr) → IsAdmitted s → IsAdmitted (arrive s a)
unfolding arrive accepts connect count_ip
arrive-IsAdmitted s a h =
    let c : Client = record { nick = none; pubkey = none; authenticated = false; ip = a.ip } in
    elim (Bool-cases (accepts s a)) [
      | inr e ↦ rw (e, arrive) h
      | inl e ↦
          rw (e, arrive)
            (record {
              total = ground (arith, Dict.length-insert s.clients a c, e);
              per_ip =
                  λ ip. ground (arith, count_clients-insert_le ip s.clients a c, h.per_ip ip, e);
            })
    ]

module _ (s : ServerState) (h : IsAdmitted s) where
  put-IsAdmitted :
      (a : Addr) (old c : Client)
      → Dict.get s.clients a ≡ some old
      → c.ip ≡ old.ip
      → (keys : Dict.Dict Text Text)
      → IsAdmitted (record s { clients = Dict.insert s.clients a c; nick_pubkeys = keys })
  unfolding count_ip
  put-IsAdmitted a old c e i keys = record {
    total = omega (arith, length-update s.clients a old c e, h.total);
    per_ip = λ ip. omega (arith, count_clients-update ip s.clients a old c e i, h.per_ip ip);
  }

  set_nick-IsAdmitted : (a : Addr) (nick : Text) → IsAdmitted (set_nick s a nick)
  unfolding set_nick
  set_nick-IsAdmitted a nick = elim (Option-cases (Dict.get s.clients a)) [
    | inl e ↦ rw (e, set_nick) h
    | inr (old, e) ↦
        rw (e, set_nick)
          (put-IsAdmitted a old (record old { nick = some nick }) e refl s.nick_pubkeys)
  ]

  bind-IsAdmitted : (a : Addr) (nick pubkey : Text) → IsAdmitted (bind s a nick pubkey)
  unfolding mark_authenticated
  bind-IsAdmitted a nick pubkey = elim (Option-cases (Dict.get s.clients a)) [
    | inl e ↦
        rw (e, mark_authenticated)
          (record { total = h.total; per_ip = unfold count_ip in h.per_ip })
    | inr (old, e) ↦
        rw (e, mark_authenticated) (put-IsAdmitted a old (authenticate pubkey old) e refl _)
  ]

  leave-IsAdmitted : (channel : Text) (a : Addr) → IsAdmitted (leave s channel a)
  unfolding leave
  leave-IsAdmitted channel a = elim (Option-cases (Dict.get s.channels channel)) [
    | inl e ↦ rw (e, leave) h
    | inr (members, e) ↦
        rw (e, leave) (record { total = h.total; per_ip = unfold count_ip in h.per_ip })
  ]

  close-IsAdmitted : (a : Addr) → IsAdmitted (close s a).0
  unfolding close count_ip
  close-IsAdmitted a =
      let left : IsAdmitted (record s { clients = Dict.remove s.clients a }) = record {
        total = omega (arith, Dict.length-remove s.clients a, h.total);
        per_ip = λ ip. omega (arith, count_clients-remove ip s.clients a, h.per_ip ip);
      } in
      elim (Option-cases (Dict.get s.clients a)) [
        | inl e ↦ rw e h
        | inr (client, e) ↦ elim (Option-cases client.nick) [
          | inl n ↦ rw e (rw (n, cleanup) left)
          | inr (nick, n) ↦
              rw e (
                rw (n, cleanup)
                  (unfold quit in record { total = left.total; per_ip = left.per_ip }))
        ]
      ]

Change-IsAdmitted :
    (c : Crypto) (s : ServerState) (a : Addr) (t : ServerState)
    → Change c s a t
    → IsAdmitted s
    → IsAdmitted t
unfolding count_ip
Change-IsAdmitted c s a t (same e) h = rw e h
Change-IsAdmitted c s a t (renamed nick g e) h = rw e (set_nick-IsAdmitted s h a nick)
Change-IsAdmitted c s a t (claimed nick pubkey p n d o e) h =
    rw e (bind-IsAdmitted s h a nick pubkey)
Change-IsAdmitted c s a t (pow_set bits le g e) h =
    rw e (record { total = h.total; per_ip = h.per_ip })
Change-IsAdmitted c s a t (entered channel n e) h =
    rw e (record { total = h.total; per_ip = h.per_ip })
Change-IsAdmitted c s a t (kicked channel target_nick target g f e) h =
    rw e (leave-IsAdmitted s h channel target)
Change-IsAdmitted c s a t (parted channel e) h = rw e (leave-IsAdmitted s h channel a)

-- In every run in which each accepted connection starts before the next event, there are at most
-- 100 clients, and at most 5 of any IP address.
pub Reach-IsAdmitted :
    (c : Crypto) (bits : ℕ) {returned : List Addr} {s : ServerState}
    → Reach c bits returned s
    → IsAdmitted s
Reach-IsAdmitted c bits r =
    Reach_induction c bits (λ _ s. IsAdmitted s)
      (record { total = omega arith; per_ip = λ ip. unfold count_ip count_clients in omega arith })
      (λ _ s a h. arrive-IsAdmitted s a h) (λ _ s a t. Change-IsAdmitted c s a t)
      (λ _ s a h. close-IsAdmitted s h a) r

-- With 99 clients, two connections from new addresses whose IP addresses have slots left are both
-- accepted, and where both tasks start after that there are 101 clients.
pub two_pending_pass_limit :
    (s : ServerState) (a b : Addr)
    → a ≢ b
    → Dict.get s.clients a ≡ none
    → Dict.get s.clients b ≡ none
    → length s.clients ≡ 99
    → count_ip s a.ip < 5
    → count_ip s b.ip < 5
    → (accepts s a ≡ true) × (accepts s b ≡ true) × (length (connect (connect s a) b).clients ≡ 101)
unfolding connect accepts
two_pending_pass_limit s a b ne fa fb n ia ib =
    let new_client : ℕ → Client =
      λ ip. record { nick = none; pubkey = none; authenticated = false; ip = ip } in
    (
      ground arith,
      ground arith,
      omega (
        arith,
        length-insert_fresh (Dict.insert s.clients a (new_client a.ip)) b (new_client b.ip)
            (ground (arith, Dict.get-insert s.clients a (new_client a.ip) b, eqb_iff a b, fb, ne)),
        length-insert_fresh s.clients a (new_client a.ip) fa,
      ),
    )

-- A connection from a new address that is accepted takes one of the slots of its IP address. Its
-- orderly end gives the slot back; an error while reading does not.
pub slot_leak :
    (s : ServerState) (a : Addr)
    → Dict.get s.clients a ≡ none
    → accepts s a ≡ true
    → (count_ip (close (arrive s a) a).0 a.ip ≡ count_ip s a.ip)
      × (count_ip (fail (arrive s a) a) a.ip ≡ suc (count_ip s a.ip))
unfolding arrive connect close count_ip
slot_leak s a fresh ok =
    let c : Client = record { nick = none; pubkey = none; authenticated = false; ip = a.ip } in
    rw ok (
      rw (Dict.get-insert s.clients a c a, eqb_refl a, cleanup)
          (rw (remove-insert_fresh s.clients a c fresh) refl),
      ground (arith, count_clients-insert_fresh a.ip s.clients a c fresh),
    )
