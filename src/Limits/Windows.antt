-- ===== src/Limits/Windows.antt =====
-- How many requests of a window get through.
use wire_server.Prelude.{
  ℕ, ◌+◌, String, Bool, true, false, not, ◌&&◌, List, [], ◌∷◌, ◌==◌, ◌≡◌, refl, sym, ltb,
  if◌then◌else◌, eq_iff, arith, inl, inr, Bool-cases, text_cases,
}
use mathlib.Core.Path.{subst}
use wire_server.Limits.{
  Counters, incr, client_ip, Request, Verdict, no_ip, redis_failed, exceeded, served, rate_key,
  rate_limit, verdicts,
}

abbrev pub least : ℕ → ℕ → ℕ
least a b = if ltb a b then a else b

-- The requests that reach the counter of a key.
abbrev pub asked : ℕ → String → List Request → ℕ
asked window key [] = 0
asked window key (r ∷ rs) =
    (if not (client_ip r.origin == "") && (not r.lost && (key == rate_key window r)) then 1 else 0)
    + asked window key rs

abbrev pub is_served : Verdict → Bool
is_served served = true
is_served exceeded = false
is_served no_ip = false
is_served redis_failed = false

-- The requests with a key that the next handler gets.
abbrev pub passed : String → List (String × Verdict) → ℕ
passed key [] = 0
passed key ((k, v) ∷ vs) = (if (key == k) && is_served v then 1 else 0) + passed key vs

is_served-if : (b : Bool) → is_served (if b then exceeded else served) ≡ not b
is_served-if true = refl
is_served-if false = refl

counted :
    (limit n p a : ℕ)
    → least limit (n + 1) + p ≡ least limit (n + 1 + a)
    → least limit n + ((if not (ltb limit (n + 1)) then 1 else 0) + p) ≡ least limit (n + (1 + a))
counted limit n p a h = ground arith

uncounted :
    (limit n p a : ℕ)
    → least limit n + p ≡ least limit (n + a)
    → least limit n + (0 + p) ≡ least limit (n + (0 + a))
uncounted limit n p a h = ground arith

rate_limit-counted :
    (limit window : ℕ) (r : Request) (c : Counters)
    → (client_ip r.origin == "") ≡ false
    → r.lost ≡ false
    → rate_limit limit window r c ≡ (
      if ltb limit (c (rate_key window r) + 1) then exceeded else served,
      (incr (rate_key window r) c).1,
    )
unfolding rate_limit incr
rate_limit-counted limit window r c known fine = rw (known, fine) refl

incr-at :
    (key k : String) (c : Counters) → (incr k c).1 key ≡ (if key == k then c key + 1 else c key)
unfolding incr
incr-at key k c = refl

and_false : (b : Bool) → (b && false) ≡ false
and_false true = refl
and_false false = refl

-- A request that does not reach the counter.
turned_away :
    (limit window : ℕ) (key : String) (r : Request) (c : Counters) (p a : ℕ) (v : Verdict)
    → is_served v ≡ false
    → least limit (c key) + p ≡ least limit (c key + a)
    → least limit (c key) + ((if (key == rate_key window r) && is_served v then 1 else 0) + p)
      ≡ least limit (c key + (0 + a))
turned_away limit window key r c p a v away h =
    rw (away, and_false (key == rate_key window r)) (uncounted limit (c key) p a h)

-- A request that reaches its counter, whether that is the key's or another.
reached :
    (limit window : ℕ) (key : String) (r : Request) (c : Counters) (p a : ℕ)
    → least limit ((incr (rate_key window r) c).1 key) + p
      ≡ least limit ((incr (rate_key window r) c).1 key + a)
    → least limit (c key)
        + ((if (key == rate_key window r)
                && is_served (if ltb limit (c (rate_key window r) + 1) then exceeded else served)
              then 1
              else 0)
            + p)
      ≡ least limit (c key + ((if key == rate_key window r then 1 else 0) + a))
unfolding incr
reached limit window key r c p a h = elim (text_cases key (rate_key window r)) [
  | inr (_, other) ↦ rw other (
      uncounted limit (c key) p a (
        subst
          (λ b.
            least limit (if b then c key + 1 else c key) + p
            ≡ least limit ((if b then c key + 1 else c key) + a))
          {x = key == rate_key window r} {y = false} other h))
  | inl same ↦
      let hit = (eq_iff key (rate_key window r)).1 same in
      rw (hit, sym same, is_served-if (ltb limit (c key + 1)))
        (counted limit (c key) p a (
          subst
            (λ b.
              least limit (if b then c key + 1 else c key) + p
              ≡ least limit ((if b then c key + 1 else c key) + a))
            {x = key == rate_key window r} {y = true} hit h))
]

verdicts-from :
    (limit window : ℕ) (key : String) (rs : List Request) (c : Counters)
    → least limit (c key) + passed key (verdicts limit window rs c)
      ≡ least limit (c key + asked window key rs)
unfolding verdicts rate_limit rate_key
verdicts-from limit window key [] c = ground arith
verdicts-from limit window key (r ∷ rs) c = elim (Bool-cases (client_ip r.origin == "")) [
  | inl blank ↦
      rw (rate_limit, blank)
        (turned_away limit window key r c _ (asked window key rs) no_ip refl
          (verdicts-from limit window key rs c))
  | inr known ↦ elim (Bool-cases r.lost) [
    | inl lost ↦
        rw (rate_limit, known, lost)
          (turned_away limit window key r c _ (asked window key rs) redis_failed refl
            (verdicts-from limit window key rs c))
    | inr fine ↦
        rw (rate_limit-counted limit window r c known fine, known, fine)
          (reached limit window key r c _ (asked window key rs)
            (verdicts-from limit window key rs (incr (rate_key window r) c).1))
  ]
]

-- Of the requests that share an address and a window, from the first one of the window on, the
-- next handler gets exactly as many as there are, and no more than the limit, whatever requests
-- come between; those that Redis did not answer do not count.
pub verdicts_lem :
    (limit window : ℕ) (key : String) (rs : List Request) (c : Counters)
    → c key ≡ 0
    → passed key (verdicts limit window rs c) ≡ least limit (asked window key rs)
verdicts_lem limit window key rs c fresh = ground (arith, verdicts-from limit window key rs c)
