-- ===== src/Limits.antt =====
-- The counters in Redis that limit requests: `RateLimitMiddleware` and `clientIP` of
-- pkg/middleware/middleware.go, `allowWSMessage` of
-- services/api-gateway/internal/gateway/hub.go. Each key holds the number of its window, and lives
-- for a window's length from its first request on, so within its window no counter expires.
pub mod Windows
use wire_server.Prelude.{
  ℕ, ◌+◌, ◌/◌, String, Bool, true, false, ◌||◌, Option, none, some, List, [], ◌∷◌, ◌==◌, leb, ltb,
  nat_eq, code, if◌then◌else◌,
}
use wire_server.Text.{trim_space, ◌<>◌, decimal}

abbrev pub Counters : Type 0
Counters = String → ℕ

-- `Incr`: the count with this request.
unfoldable pub incr : String → Counters → ℕ × Counters
incr key c = (c key + 1, λ k. if k == key then c k + 1 else c k)

-- The headers that `clientIP` reads, and the host of `RemoteAddr` as `net.SplitHostPort` has it.
pub record Origin : Type 0 where
  pub real_ip : String
  pub forwarded_for : String
  pub remote_host : String

-- `strings.Split(x, ",")[0]`
abbrev before_comma : String → String
before_comma String.[] = ""
before_comma (String.◌∷◌ c s) =
    let rest = before_comma s in if nat_eq (code c) 44 then "" else String.◌∷◌ c rest

unfoldable pub client_ip : Origin → String
client_ip r =
    if r.real_ip == ""
    then (if r.forwarded_for == ""
        then r.remote_host
        else trim_space (before_comma r.forwarded_for))
    else r.real_ip

-- A request at a time in seconds; `lost` says that Redis does not answer.
pub record Request : Type 0 where
  pub origin : Origin
  pub now : ℕ
  pub lost : Bool

-- What becomes of a request: 429 without an address, 500 without Redis, 429 over the limit, or the
-- next handler.
pub data Verdict : Type 0 where
  no_ip : Verdict
  redis_failed : Verdict
  exceeded : Verdict
  served : Verdict

unfoldable pub rate_key : ℕ → Request → String
rate_key window r = "rl:" <> (client_ip r.origin <> (":" <> decimal (r.now / window)))

unfoldable pub rate_limit : ℕ → ℕ → Request → Counters → Verdict × Counters
unfolding incr
rate_limit limit window r c =
    if client_ip r.origin == ""
    then (no_ip, c)
    else if r.lost
    then (redis_failed, c)
    else (let (count, c') = incr (rate_key window r) c in
        (if ltb limit count then exceeded else served, c'))

-- Requests one after the other, each verdict with the key of its request.
unfoldable pub verdicts : ℕ → ℕ → List Request → Counters → List (String × Verdict)
verdicts limit window [] c = []
verdicts limit window (r ∷ rs) c =
    let (v, c') = rate_limit limit window r c in
    (rate_key window r, v) ∷ verdicts limit window rs c'

unfoldable pub ws_key : String → ℕ → String
ws_key user_phone now = "rl_ws:" <> (user_phone <> (":" <> decimal (now / 60)))

-- `allowWSMessage`: 60 messages a minute.
unfoldable pub allow_ws_message : String → ℕ → Bool → Counters → Bool × Counters
unfolding incr
allow_ws_message user_phone now lost c =
    if lost
    then (false, c)
    else (let (count, c') = incr (ws_key user_phone now) c in (leb count 60, c'))

-- A user's messages one after the other, each at its time.
unfoldable pub ws_allowed : String → List (ℕ × Bool) → Counters → List Bool
ws_allowed user_phone [] c = []
ws_allowed user_phone ((now, lost) ∷ rest) c =
    let (allowed, c') = allow_ws_message user_phone now lost c in
    allowed ∷ ws_allowed user_phone rest c'
