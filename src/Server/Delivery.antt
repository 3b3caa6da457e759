-- ===== src/Server/Delivery.antt =====
-- Who gets a message: the members of a channel, and those who share a channel with a client.
use voirc.Base.{
  ap, ◌∙◌, ◌≡◌, refl, Bool, false, not, ◌&&◌, ◌||◌, some, List, [], ◌∷◌, ◌++◌, Text, text_eq, eqb,
  eqb_iff, arith, contains, keep, set_insert, set_remove, contains-append, contains-set_insert,
  contains-set_remove, Bool-cases, inl, inr, if◌then◌else◌,
}
use voirc.Dict
use voirc.Dict.{Dict, is_some, or_else}
use voirc.Server.{
  Addr, addr_eq, ServerState, Send, send_to, send_all, others, co_members, co_members_from, add_all,
}
use voirc.Server.Commands.{relay_privmsg, deliver, is_impostor}

-- The clients that the sends go to.
abbrev pub targets : List Send → List Addr
targets [] = []
targets (x ∷ sends) = x.target ∷ targets sends

targets-append : (xs ys : List Send) → targets (xs ++ ys) ≡ targets xs ++ targets ys
targets-append [] ys = refl
targets-append (x ∷ xs) ys = ap (λ (l : List Addr). x.target ∷ l) (targets-append xs ys)

module _ (s : ServerState) (msg : Text) (b : Addr) where
  contains-send_to :
      (a : Addr)
      → contains (targets (send_to s a msg)) b ≡ (eqb a b && is_some (Dict.get s.clients b))
  unfolding send_to contains
  contains-send_to a = ground (arith, eqb_iff a b)

  contains-send_all :
      (members : List Addr)
      → contains (targets (send_all s members msg)) b
        ≡ (contains members b && is_some (Dict.get s.clients b))
  unfolding send_all contains
  contains-send_all [] = refl
  contains-send_all (a ∷ members) =
      rw targets-append
        (rw contains-append (ground (arith, contains-send_to a, contains-send_all members)))

contains-others :
    (addr b : Addr) (members : List Addr)
    → contains (others addr members) b ≡ (contains members b && not (eqb b addr))
unfolding keep contains
contains-others addr b [] = refl
contains-others addr b (a ∷ members) =
    ground (arith, contains-others addr b members, eqb_iff a b, eqb_iff a addr, eqb_iff b addr)

-- A message to a channel that exists goes to exactly the connected members other than its sender, and
-- to nobody where the sender claims a bound nick without being authenticated. The state does not
-- change.
pub contains-relay_privmsg :
    (s : ServerState) (addr : Addr) (channel text : Text) (members : List Addr) (b : Addr)
    → Dict.get s.channels channel ≡ some members
    → (contains (targets (relay_privmsg s addr channel text).1) b ≡ (
        if is_impostor s addr
        then false
        else contains members b && not (eqb b addr) && is_some (Dict.get s.clients b)))
      × ((relay_privmsg s addr channel text).0 ≡ s)
unfolding relay_privmsg deliver contains
contains-relay_privmsg s addr channel text members b e = elim (Bool-cases (is_impostor s addr)) [
  | inl i ↦ rw i (refl, refl)
  | inr i ↦
      rw (i, e, deliver)
        (
          contains-send_all s _ b (others addr members)
              ∙ ground (arith, contains-others addr b members),
          refl,
        )
]

-- Whether some channel holds both.
abbrev pub share : Dict Text (List Addr) → Addr → Addr → Bool
share [] a b = false
share ((channel, members) ∷ m) a b = (contains members a && contains members b) || share m a b

contains-add_all :
    (members seen : List Addr) (b : Addr)
    → contains (add_all members seen) b ≡ (contains members b || contains seen b)
unfolding add_all contains
contains-add_all [] seen b = refl
contains-add_all (a ∷ members) seen b = ground (
  arith,
  contains-add_all members (set_insert seen a) b,
  contains-set_insert seen a b,
  eqb_iff a b,
)

contains-co_members_from :
    (addr b : Addr) (m : Dict Text (List Addr)) (seen : List Addr)
    → contains (co_members_from addr m seen) b
      ≡ ((share m addr b && not (eqb addr b)) || contains seen b)
unfolding co_members_from
contains-co_members_from addr b [] seen = refl
contains-co_members_from addr b ((channel, members) ∷ m) seen =
    elim (Bool-cases (contains members addr)) [
      | inl e ↦ rw e (
          ground (
            arith,
            contains-co_members_from addr b m (add_all (set_remove members addr) seen),
            contains-add_all (set_remove members addr) seen b,
            contains-set_remove members addr b,
          ))
      | inr e ↦ rw e (ground (arith, contains-co_members_from addr b m seen))
    ]

-- `co_members`, to whom a QUIT and an accepted key are announced, are exactly the others who share a
-- channel with the client.
pub contains-co_members :
    (s : ServerState) (addr b : Addr)
    → contains (co_members s addr) b ≡ (share s.channels addr b && not (eqb addr b))
unfolding co_members contains
contains-co_members s addr b = contains-co_members_from addr b s.channels [] ∙ ground arith
