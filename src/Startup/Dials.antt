-- ===== src/Startup/Dials.antt =====
-- `dialWithCircuit` of services/api-gateway/internal/clients/clients.go. The breaker of gobreaker counts
-- failures in a row, and after one asks `ReadyToTrip` whether to open; an open one refuses the next
-- attempt. `backoff.Retry` tries once and then as often as it may retry.
use wire_server.Prelude.{
  ℕ, zero, suc, ◌+◌, ◌≤◌, Bool, true, false, ◌||◌, ◌≡◌, refl, leb, inl, inr, Bool-cases, arith,
  if◌then◌else◌,
}

-- Whether the dial succeeded, how many attempts were made, and whether the breaker ever opened.
pub record Dialled : Type 0 where
  pub connected : Bool
  pub tries : ℕ
  pub opened : Bool

unfoldable pub ready_to_trip : ℕ → Bool
ready_to_trip consecutive_failures = leb 5 consecutive_failures

-- The attempts that are left, after as many failures as `n` says.
unfoldable pub retry_dial : (left n : ℕ) → (ℕ → Bool) → Dialled
unfolding ready_to_trip
retry_dial zero n attempt = record { connected = false; tries = n; opened = ready_to_trip n }
retry_dial (suc left) n attempt =
    let more = retry_dial left (n + 1) attempt in
    if ready_to_trip n
    then record { connected = false; tries = n; opened = true }
    else if attempt n
    then record { connected = true; tries = n + 1; opened = false }
    else more

-- One attempt and three retries.
unfoldable pub dial_with_circuit : (ℕ → Bool) → Dialled
unfolding retry_dial
dial_with_circuit attempt = retry_dial 4 0 attempt

-- The dial succeeds if and only if one of the first four attempts does; no more are made, and the breaker
-- never opens.
pub dial_with_circuit_lem :
    (attempt : ℕ → Bool)
    → ((dial_with_circuit attempt).connected
        ≡ (attempt 0 || (attempt 1 || (attempt 2 || attempt 3))))
      × ((dial_with_circuit attempt).tries ≤ 4)
      × ((dial_with_circuit attempt).opened ≡ false)
unfolding dial_with_circuit
dial_with_circuit_lem attempt = elim (Bool-cases (attempt 0)) [
  | inl h0 ↦ rw h0 (refl, omega arith, refl)
  | inr f0 ↦ elim (Bool-cases (attempt 1)) [
    | inl h1 ↦ rw (f0, h1) (refl, omega arith, refl)
    | inr f1 ↦ elim (Bool-cases (attempt 2)) [
      | inl h2 ↦ rw (f0, f1, h2) (refl, omega arith, refl)
      | inr f2 ↦ elim (Bool-cases (attempt 3)) [
        | inl h3 ↦ rw (f0, f1, f2, h3) (refl, omega arith, refl)
        | inr f3 ↦ rw (f0, f1, f2, f3) (refl, omega arith, refl)
      ]
    ]
  ]
]
