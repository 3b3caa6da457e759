-- ===== src/Config/Recent.antt =====
-- The list of recent servers, and the names of the roles.
use voirc.Base.{
  ℕ, zero, suc, ◌≤◌, ◌≡◌, ◌≢◌, refl, List, [], ◌∷◌, Text, eqb, eqb_iff, text_eq, text_beq, not,
  keep, take, arith, length, All, All-keep, length-take,
}
use voirc.Config.{
  Role, host, moderator, peer, as_str, from_str, RecentServer, UserConfig, add_recent_server,
}

-- No two entries have one connection string.
abbrev pub HasDistinctServers : List RecentServer → Type 0
HasDistinctServers [] = Unit
HasDistinctServers (x ∷ xs) =
    All (λ y. y.connection_string ≢ x.connection_string) xs × HasDistinctServers xs

module _ (target : Text) where
  keep-others :
      (xs : List RecentServer)
      → All
          (λ y. y.connection_string ≢ target)
          (keep (λ s. not (eqb s.connection_string target)) xs)
  unfolding keep
  keep-others [] = tt
  keep-others (x ∷ xs) = ground (arith, eqb_iff x.connection_string target, keep-others xs)

  keep-HasDistinctServers :
      (xs : List RecentServer)
      → HasDistinctServers xs
      → HasDistinctServers (keep (λ s. not (eqb s.connection_string target)) xs)
  unfolding keep
  keep-HasDistinctServers [] h = tt
  keep-HasDistinctServers (x ∷ xs) h = ground (
    arith,
    keep-HasDistinctServers xs h.1,
    All-keep (λ (y : RecentServer). y.connection_string ≢ x.connection_string)
        (λ (s : RecentServer). not (eqb s.connection_string target)) xs h.0,
  )

All-take :
    (P : RecentServer → Type 0) (n : ℕ) (xs : List RecentServer) → All P xs → All P (take n xs)
All-take P zero xs h = tt
All-take P (suc n) [] h = tt
All-take P (suc n) (x ∷ xs) h = (h.0, All-take P n xs h.1)

take-HasDistinctServers :
    (n : ℕ) (xs : List RecentServer) → HasDistinctServers xs → HasDistinctServers (take n xs)
take-HasDistinctServers zero xs h = tt
take-HasDistinctServers (suc n) [] h = tt
take-HasDistinctServers (suc n) (x ∷ xs) h = (All-take _ n xs h.0, take-HasDistinctServers n xs h.1)

-- From a list in which no two entries have one connection string, `add_recent_server` makes such a
-- list again, with at most ten entries.
pub add_recent_server-HasDistinctServers :
    (c : UserConfig) (name conn now : Text)
    → HasDistinctServers c.recent_servers
    → HasDistinctServers (add_recent_server c name conn now).recent_servers
      × (length (add_recent_server c name conn now).recent_servers ≤ 10)
unfolding add_recent_server
add_recent_server-HasDistinctServers c name conn now h =
    let others : List RecentServer =
      keep (λ s. not (eqb s.connection_string conn)) c.recent_servers in
    let all : List RecentServer =
      record { name = name; connection_string = conn; last_connected = now } ∷ others in
    (
      take-HasDistinctServers 10 all
          (keep-others conn c.recent_servers, keep-HasDistinctServers conn c.recent_servers h),
      omega (arith, length-take 10 all),
    )

-- Reading the printed name of a role gives the role back.
pub from_str-as_str : (r : Role) → from_str (as_str r) ≡ r
unfolding from_str as_str text_beq
from_str-as_str host = refl
from_str-as_str moderator = refl
from_str-as_str peer = refl
