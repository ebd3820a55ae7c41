-- ===== src/Services/Notifications.antt =====
-- `sendWithRetry` of internal/notification/worker.go. `sends` says which attempts the push service
-- takes, and `cancels` during which waits the context is cancelled; times in milliseconds.
pub mod Queue
use wire_server.Prelude.{
  ℕ, zero, suc, ◌+◌, ◌*◌, ◌≤◌, Bool, false, ◌||◌, List, [], ◌∷◌, ◌≡◌, refl, if◌then◌else◌, arith,
  Bool-cases, inl, inr,
}

pub data Outcome : Type 0 where
  delivered : Outcome
  cancelled : Outcome
  gave_up : Outcome

module _ (sends cancels : ℕ → Bool) where
  -- `left` attempts from attempt `n` on: the outcome, and the waits.
  unfoldable pub retry : (left n backoff : ℕ) → Outcome × List ℕ
  retry zero n backoff = (gave_up, [])
  retry (suc left) n backoff =
      let (outcome, waits) = retry left (n + 1) (backoff * 2) in
      if sends n
      then (delivered, [])
      else if cancels n
      then (cancelled, backoff ∷ [])
      else (outcome, backoff ∷ waits)

  unfoldable pub send_with_retry : Outcome × List ℕ
  unfolding retry
  send_with_retry = retry 4 0 200

abbrev pub total : List ℕ → ℕ
total [] = 0
total (w ∷ ws) = w + total ws

-- Whether one of `left` attempts from attempt `n` on is taken.
abbrev pub any_taken : (ℕ → Bool) → (left n : ℕ) → Bool
any_taken sends zero n = false
any_taken sends (suc left) n = sends n || any_taken sends left (n + 1)

-- `left` waits that double.
abbrev span : (left backoff : ℕ) → ℕ
span zero backoff = 0
span (suc left) backoff = backoff + span left (backoff * 2)

module _ (sends cancels : ℕ → Bool) where
  retry-outcome :
      (left n backoff : ℕ)
      → ((k : ℕ) → cancels k ≡ false)
      → (retry sends cancels left n backoff).0
        ≡ (if any_taken sends left n then delivered else gave_up)
  unfolding retry
  retry-outcome zero n backoff calm = refl
  retry-outcome (suc left) n backoff calm = elim (Bool-cases (sends n)) [
    | inl taken ↦ rw taken refl
    | inr refused ↦ rw (refused, calm n) (retry-outcome left (n + 1) (backoff * 2) calm)
  ]

  retry-total :
      (left n backoff : ℕ) → total (retry sends cancels left n backoff).1 ≤ span left backoff
  unfolding retry
  retry-total zero n backoff = omega arith
  retry-total (suc left) n backoff = elim (Bool-cases (sends n)) [
    | inl taken ↦ rw taken (omega arith)
    | inr refused ↦ elim (Bool-cases (cancels n)) [
      | inl stopped ↦ rw (refused, stopped) (omega arith)
      | inr running ↦ rw (refused, running) (omega (arith, retry-total left (n + 1) (backoff * 2)))
    ]
  ]

  -- Unless the context is cancelled, `sendWithRetry` delivers if and only if one of its four
  -- attempts is taken, and gives up otherwise.
  pub send_with_retry_lem :
      ((k : ℕ) → cancels k ≡ false)
      → (send_with_retry sends cancels).0 ≡ (if any_taken sends 4 0 then delivered else gave_up)
  unfolding send_with_retry
  send_with_retry_lem calm = retry-outcome 4 0 200 calm

  -- `sendWithRetry` waits three seconds at most, cancelled or not.
  pub send_with_retry_waits : total (send_with_retry sends cancels).1 ≤ 3000
  unfolding send_with_retry
  send_with_retry_waits = retry-total 4 0 200
