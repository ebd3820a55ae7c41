-- ===== src/Services/Backoff.antt =====
-- The delays between the connection attempts of pkg/eventbus/kafka.go, in seconds.
use wire_server.Prelude.{ℕ, zero, suc, ◌*◌, ◌^◌, ltb, ◌≡◌, refl, ap, false, if◌then◌else◌, arith}

pub record BackoffCfg : Type 0 where
  pub max : ℕ
  pub current : ℕ

-- The delay, and the state that `NextBackOff` leaves.
unfoldable pub next_back_off : BackoffCfg → ℕ × BackoffCfg
next_back_off b =
    (b.current, if ltb b.current b.max then record b { current = b.current * 2 } else b)

unfoldable pub backoff2 : BackoffCfg
backoff2 = record { max = 30; current = 1 }

-- The state after `n` calls.
unfoldable pub after_calls : ℕ → BackoffCfg → BackoffCfg
unfolding next_back_off
after_calls zero b = b
after_calls (suc n) b = (next_back_off (after_calls n b)).1

after_more :
    (n : ℕ)
    → after_calls (suc (suc (suc (suc (suc n))))) backoff2 ≡ record { max = 30; current = 32 }
unfolding after_calls backoff2
after_more zero = refl
after_more (suc n) = rw (after_more n) refl

ltb_five : (n : ℕ) → ltb (suc (suc (suc (suc (suc n))))) 5 ≡ false
ltb_five n = ground arith

-- The delay doubles from one second up to 32 seconds and stays there, so it passes the configured
-- maximum of 30 seconds once, and no more.
pub next_back_off_lem :
    (n : ℕ) → (next_back_off (after_calls n backoff2)).0 ≡ (if ltb n 5 then 2 ^ n else 32)
unfolding next_back_off after_calls backoff2
next_back_off_lem zero = refl
next_back_off_lem (suc zero) = refl
next_back_off_lem (suc (suc zero)) = refl
next_back_off_lem (suc (suc (suc zero))) = refl
next_back_off_lem (suc (suc (suc (suc zero)))) = refl
next_back_off_lem (suc (suc (suc (suc (suc n))))) =
    rw (ltb_five n) (ap (λ b. b.current) (after_more n))
