-- ===== src/Gateway/Hub/Reached.antt =====
-- Whom `deliver` reaches after `add` and after `remove`.
use wire_server.Prelude.{
  ℕ, ◌+◌, String, Bool, true, List, [], ◌∷◌, ◌++◌, ◌==◌, ◌≡◌, refl, inl, inr, Bool-cases, nat_eq,
  count, count-append, arith, eq_refl,
}
use wire_server.Gateway.Hub.{
  Connection, Hub, without_fd, send_each, send_to_phone, add, remove, deliver,
}

-- The frames sent on a descriptor.
abbrev pub sent_on : ℕ → Hub → ℕ
sent_on fd h = count (λ s. nat_eq s.0 fd) h.sends

module _ (fd : ℕ) (payload : String) where
  abbrev on_fd : List (ℕ × String) → ℕ
  on_fd sends = count (λ s. nat_eq s.0 fd) sends

  send_each-without_fd : (cs : List Connection) → on_fd (send_each payload (without_fd fd cs)) ≡ 0
  send_each-without_fd [] = refl
  send_each-without_fd (c ∷ cs) = elim (Bool-cases (nat_eq c.fd fd)) [
    | inl hit ↦ rw hit (send_each-without_fd cs)
    | inr miss ↦ rw (miss, miss) (omega (arith, send_each-without_fd cs))
  ]

  send_to_phone-without_fd :
      (phone : String) (cs : List Connection)
      → on_fd (send_to_phone payload phone (without_fd fd cs)) ≡ 0
  send_to_phone-without_fd phone [] = refl
  send_to_phone-without_fd phone (c ∷ cs) = elim (Bool-cases (nat_eq c.fd fd)) [
    | inl hit ↦ rw hit (send_to_phone-without_fd phone cs)
    | inr miss ↦ elim (Bool-cases (c.phone == phone)) [
      | inl theirs ↦ rw (miss, theirs, miss) (omega (arith, send_to_phone-without_fd phone cs))
      | inr other ↦ rw (miss, other) (send_to_phone-without_fd phone cs)
    ]
  ]

nat_eq_refl : (n : ℕ) → nat_eq n n ≡ true
nat_eq_refl n = ground arith

one_more :
    (fd : ℕ) (payload : String) (sends : List (ℕ × String))
    → count (λ s. nat_eq s.0 fd) ((fd, payload) ∷ sends) ≡ 1 + count (λ s. nat_eq s.0 fd) sends
one_more fd payload sends = rw (nat_eq_refl fd) refl

-- After `add` of a connection, whatever was in the table under its descriptor, a delivery to its phone
-- and a delivery to everybody each send exactly one frame on the descriptor; after `remove` of
-- the connection they send none on it, whichever calls of Redis and of the bus fail.
pub deliver_reach :
    (c : Connection) (payload : String) (h : Hub)
    → (sent_on c.fd (deliver payload (c.phone ∷ []) (add c h)) ≡ sent_on c.fd h + 1)
      × (sent_on c.fd (deliver payload [] (add c h)) ≡ sent_on c.fd h + 1)
      × (sent_on c.fd (deliver payload (c.phone ∷ []) (remove c h)) ≡ sent_on c.fd h)
      × (sent_on c.fd (deliver payload [] (remove c h)) ≡ sent_on c.fd h)
unfolding deliver add remove
deliver_reach c payload h =
    let f : ℕ × String → Bool = λ s. nat_eq s.0 c.fd in
    let rest = without_fd c.fd h.conns in
    let phone = send_to_phone payload c.phone rest in
    let none_sent = send_to_phone-without_fd c.fd payload c.phone h.conns in
    let none_each = send_each-without_fd c.fd payload h.conns in
    (
      rw (eq_refl c.phone) (
          omega (
            arith,
            count-append f h.sends (((c.fd, payload) ∷ phone) ++ []),
            count-append f phone [],
            one_more c.fd payload phone,
            none_sent,
          )),
      omega (
        arith,
        count-append f h.sends ((c.fd, payload) ∷ send_each payload rest),
        one_more c.fd payload (send_each payload rest),
        none_each,
      ),
      omega (arith, count-append f h.sends (phone ++ []), count-append f phone [], none_sent),
      omega (arith, count-append f h.sends (send_each payload rest), none_each),
    )
