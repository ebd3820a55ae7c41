-- ===== src/Gateway/Hub/Table.antt =====
-- The table of connections after `add`.
use wire_server.Prelude.{
  ℕ, ◌+◌, ◌-◌, ◌≤◌, ◌<◌, Bool, true, false, Option, none, some, List, [], ◌∷◌, ◌≡◌, refl, nat_eq,
  ltb, arith, All, length, inl, inr, Bool-cases, if◌then◌else◌,
}
use wire_server.Gateway.Hub.{Connection, Hub, without_fd, add, check_heartbeats}

-- The map's entry of a descriptor.
abbrev pub find_fd : ℕ → List Connection → Option Connection
find_fd fd [] = none
find_fd fd (c ∷ cs) = if nat_eq c.fd fd then some c else find_fd fd cs

abbrev pub is_none : Option Connection → Bool
is_none none = true
is_none (some c) = false

-- One entry a descriptor.
abbrev pub OneEach : List Connection → Type 0
OneEach [] = Unit
OneEach (c ∷ cs) = (is_none (find_fd c.fd cs) ≡ true) × OneEach cs

find_fd-without_fd :
    (f g : ℕ) (cs : List Connection)
    → find_fd g (without_fd f cs) ≡ (if nat_eq f g then none else find_fd g cs)
find_fd-without_fd f g [] = ground arith
find_fd-without_fd f g (c ∷ cs) = elim (Bool-cases (nat_eq c.fd f)) [
  | inl hit ↦ ground (arith, find_fd-without_fd f g cs)
  | inr miss ↦ ground (arith, find_fd-without_fd f g cs)
]

pub OneEach-without_fd : (f : ℕ) (cs : List Connection) → OneEach cs → OneEach (without_fd f cs)
OneEach-without_fd f [] d = tt
OneEach-without_fd f (c ∷ cs) d = elim (Bool-cases (nat_eq c.fd f)) [
  | inl hit ↦ rw hit (OneEach-without_fd f cs d.1)
  | inr miss ↦
      rw miss (ground (arith, find_fd-without_fd f c.fd cs, d.0), OneEach-without_fd f cs d.1)
]

nat_eq_refl : (n : ℕ) → nat_eq n n ≡ true
nat_eq_refl n = ground arith

find_fd-add :
    (f g : ℕ) (c : Connection) (cs : List Connection)
    → (if nat_eq f g then some c else (if nat_eq f g then none else find_fd g cs))
      ≡ (if nat_eq f g then some c else find_fd g cs)
find_fd-add f g c cs = elim (Bool-cases (nat_eq f g)) [
  | inl hit ↦ rw hit refl
  | inr miss ↦ rw miss refl
]

-- `add` makes the connection the one entry of its descriptor, changes no other entry, and keeps one
-- entry a descriptor.
pub add-OneEach :
    (c : Connection) (h : Hub) (g : ℕ)
    → OneEach h.conns
    → OneEach (add c h).conns
      × (find_fd g (add c h).conns ≡ (if nat_eq c.fd g then some c else find_fd g h.conns))
unfolding add
add-OneEach c h g d = (
  (
    rw (find_fd-without_fd c.fd c.fd h.conns, nat_eq_refl c.fd) refl,
    OneEach-without_fd c.fd h.conns d,
  ),
  rw (find_fd-without_fd c.fd g h.conns) (find_fd-add c.fd g c h.conns),
)

-- `checkHeartbeats` gives up exactly those connections that have been silent for more than 40
-- seconds, and pings all others.
pub check_heartbeats_lem :
    (now : ℕ) (cs : List Connection)
    → All (λ c. 40000000000 < now - c.last_pong) (check_heartbeats now cs).0
      × All (λ c. now - c.last_pong ≤ 40000000000) (check_heartbeats now cs).1
      × (length (check_heartbeats now cs).0 + length (check_heartbeats now cs).1 ≡ length cs)
unfolding check_heartbeats
check_heartbeats_lem now [] = (tt, tt, refl)
check_heartbeats_lem now (c ∷ cs) =
    let (stale, pinged, all) = check_heartbeats_lem now cs in
    elim (Bool-cases (ltb 40000000000 (now - c.last_pong))) [
      | inl silent ↦ rw silent ((ground arith, stale), pinged, omega (arith, all))
      | inr alive ↦ rw alive (stale, (ground arith, pinged), omega (arith, all))
    ]
