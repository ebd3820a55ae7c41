-- ===== src/Gateway/Router/Throttle.antt =====
-- How many requests of an address get past the limit of the router.
use wire_server.Prelude.{
  ℕ, ◌+◌, String, Bool, true, false, not, ◌&&◌, List, [], ◌∷◌, ◌≡◌, ◌==◌, if◌then◌else◌,
}
use wire_server.Gateway.Router.{
  System, HttpRequest, Response, limited, healthy, refreshed, upgrade_failed, upgraded,
  message_sent, history, upload_url, call_started, user_found, presence_found, group_reply,
  limit_request,
}
use wire_server.Limits.{Counters, rate_key}

abbrev is_limited : Response → Bool
is_limited (limited code text) = true
is_limited healthy = false
is_limited (refreshed a) = false
is_limited (upgrade_failed code text) = false
is_limited upgraded = false
is_limited (message_sent a) = false
is_limited (history a) = false
is_limited (upload_url a) = false
is_limited (call_started a) = false
is_limited (user_found a) = false
is_limited (presence_found a) = false
is_limited (group_reply a) = false

-- The requests of a key that a handler has answered.
abbrev pub answered_by_handler : String → List HttpRequest → List Response → ℕ
answered_by_handler key [] answers = 0
answered_by_handler key (r ∷ rs) [] = 0
answered_by_handler key (r ∷ rs) (a ∷ answers) =
    (if (key == rate_key 60 (limit_request r)) && not (is_limited a) then 1 else 0)
    + answered_by_handler key rs answers

-- A handler's answer, which leaves the counters as they are.
abbrev Handled : Counters → Response × System → Type 0
Handled c (a, s) = (is_limited a ≡ false) × (s.limits ≡ c)
