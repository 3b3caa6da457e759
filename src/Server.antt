-- ===== src/Server.antt =====
-- src/irc_server.rs: the state of the embedded server, and what its handlers share.
-- A send into a client's queue is a `Send` of the result; the writer task, TLS and the log are not
-- modelled. Sends go out in the order of the maps' entries, which Rust leaves open.
pub mod Admission
pub mod Auth
pub mod Authentication
pub mod Bindings
pub mod Changes
pub mod Commands
pub mod Connection
pub mod Delivery
pub mod Members
pub mod Run
pub mod Sections
pub mod Interleaving
pub mod Safety
pub mod Untouched
pub mod Claims
pub mod Races
pub mod Signers
pub mod Deadlock
pub mod Locks
use voirc.Base.{
  ℕ, suc, ◌+◌, ◌≡◌, ◌↔◌, refl, Bool, true, false, not, ◌&&◌, Option, none, some, List, [], ◌∷◌,
  ◌++◌, Text, text_eq, Eq, eqb, eqb_iff, ◌==◌, ==_iff, contains, set_insert, set_remove, keep,
  length, if◌then◌else◌, arith,
}
use voirc.Dict
use voirc.Dict.{Dict, and_then}
use voirc.Strings.{lit}

-- `SocketAddr`; an IP address is a number.
pub record Addr : Type 0 where
  pub ip : ℕ
  pub port : ℕ

unfoldable pub addr_beq : Addr → Addr → Bool
addr_beq a b = a.ip == b.ip && a.port == b.port

pub addr_beq_iff : (a b : Addr) → (addr_beq a b ≡ true) ↔ (a ≡ b)
unfolding addr_beq
addr_beq_iff a b = ground arith

instance abbrev pub addr_eq : Eq Addr
addr_eq = record { beq = addr_beq; beq_iff = addr_beq_iff }

abbrev pub max_msg_len : ℕ
max_msg_len = 512

abbrev pub max_clients_per_ip : ℕ
max_clients_per_ip = 5

abbrev pub max_total_clients : ℕ
max_total_clients = 100

pub record Client : Type 0 where
  pub nick : Option Text
  pub pubkey : Option Text
  pub authenticated : Bool
  pub ip : ℕ

pub record ServerState : Type 0 where
  pub clients : Dict Addr Client
  pub channels : Dict Text (List Addr)
  pub nick_pubkeys : Dict Text Text
  pub pow_required_bits : ℕ

abbrev pub new : ℕ → ServerState
new bits = record { clients = []; channels = []; nick_pubkeys = []; pow_required_bits = bits }

-- A message put into the queue of the client at `target`.
pub record Send : Type 0 where
  pub target : Addr
  pub msg : Text

-- The state after a handler, and what it sent.
abbrev pub Outcome : Type 0
Outcome = ServerState × List Send

-- the first entry whose client has the nick
addr_with_nick : Text → Dict Addr Client → Option Addr
addr_with_nick nick [] = none
addr_with_nick nick ((a, c) ∷ m) =
    let rest = addr_with_nick nick m in
    elim c.nick [ none ↦ rest | some n ↦ if eqb n nick then some a else rest ]

unfoldable pub find_addr_by_nick : ServerState → Text → Option Addr
unfolding addr_with_nick
find_addr_by_nick s nick = addr_with_nick nick s.clients

unfoldable pub count_clients : ℕ → Dict Addr Client → ℕ
count_clients ip [] = 0
count_clients ip ((a, c) ∷ m) =
    let rest = count_clients ip m in if c.ip == ip then suc rest else rest

unfoldable pub count_ip : ServerState → ℕ → ℕ
unfolding count_clients
count_ip s ip = count_clients ip s.clients

-- whether a binding is there, for another key
abbrev pub is_other : Option Text → Text → Bool
is_other none pubkey = false
is_other (some existing) pubkey = not (eqb existing pubkey)

unfoldable pub try_bind_nick_pubkey : ServerState → Text → Text → ServerState × Bool
try_bind_nick_pubkey s nick pubkey =
    if is_other (Dict.get s.nick_pubkeys nick) pubkey
    then (s, false)
    else (record s { nick_pubkeys = Dict.insert s.nick_pubkeys nick pubkey }, true)

-- `s.clients.get(&addr).and_then(|c| c.nick.clone())`
abbrev pub nick_of : ServerState → Addr → Option Text
nick_of s addr = and_then (Dict.get s.clients addr) (λ c. c.nick)

abbrev pub pubkey_of : ServerState → Addr → Option Text
pubkey_of s addr = and_then (Dict.get s.clients addr) (λ c. c.pubkey)

abbrev pub authed : Option Client → Bool
authed none = false
authed (some c) = c.authenticated

-- `s.clients.get(&addr).map(|c| c.authenticated).unwrap_or(false)`
abbrev pub is_authed : ServerState → Addr → Bool
is_authed s addr = authed (Dict.get s.clients addr)

-- `if let Some(c) = s.clients.get(&addr) { let _ = c.tx.send(msg); }`
unfoldable pub send_to : ServerState → Addr → Text → List Send
send_to s addr msg = elim (Dict.get s.clients addr) [
  | none ↦ []
  | some c ↦ record { target = addr; msg = msg } ∷ []
]

-- The same for each of a list of members.
unfoldable pub send_all : ServerState → List Addr → Text → List Send
unfolding send_to
send_all s [] msg = []
send_all s (a ∷ members) msg = send_to s a msg ++ send_all s members msg

abbrev pub others : Addr → List Addr → List Addr
others addr members = keep (λ m. not (eqb m addr)) members

abbrev pub members_of : ServerState → Text → List Addr
members_of s channel = Dict.or_else (Dict.get s.channels channel) []

-- `get_mut(&channel)` followed by `members.remove(&addr)`
unfoldable pub leave : ServerState → Text → Addr → ServerState
leave s channel addr = elim (Dict.get s.channels channel) [
  | none ↦ s
  | some members ↦ record s { channels = Dict.insert s.channels channel (set_remove members addr) }
]

unfoldable pub add_all : List Addr → List Addr → List Addr
add_all [] seen = seen
add_all (a ∷ members) seen = add_all members (set_insert seen a)

unfoldable pub co_members_from : Addr → Dict Text (List Addr) → List Addr → List Addr
co_members_from addr [] seen = seen
co_members_from addr ((channel, members) ∷ m) seen =
    co_members_from addr m
      (if contains members addr then add_all (set_remove members addr) seen else seen)

-- Those who share a channel with `addr`, each once: whom its QUIT and its key are announced to.
unfoldable pub co_members : ServerState → Addr → List Addr
unfolding co_members_from add_all
co_members s addr = co_members_from addr s.channels []

abbrev pub crlf : Text
crlf = 13 ∷ 10 ∷ []

-- `format!("{}!voirc@127.0.0.1", nick)`
abbrev pub full_mask : Text → Text
full_mask nick = nick ++ lit "!voirc@127.0.0.1"
