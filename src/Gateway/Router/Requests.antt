-- ===== src/Gateway/Router/Requests.antt =====
-- What sequences of requests to the gateway do to the groups.
use wire_server.Prelude.{ℕ, Bool, true, false, Option, some, List, [], ◌∷◌, ◌≡◌, sym, All}
use mathlib.Core.Path.{subst}
use wire_server.Gateway.Groups.Governed.{Governed}
use wire_server.Gateway.Groups.Governance.Admins.{
  promote_group_admin-Governed, demote_group_admin-Governed,
}
use wire_server.Gateway.Groups.Governance.Create.{create_group-Governed}
use wire_server.Gateway.Groups.Governance.Leave.{leave_group-Governed}
use wire_server.Gateway.Groups.Governance.Members.{
  add_group_members-Governed, remove_group_member-Governed,
}
use wire_server.Gateway.Groups.Governance.Rows.{
  update_group-Governed, reset_group_invite-Governed, join_by_invite-Governed,
}
use wire_server.Gateway.Groups.Reads.{
  list_groups-tables, get_group-tables, get_group_invite-tables, lookup_users-tables,
}
use wire_server.Gateway.Http.{Claims}
use wire_server.Gateway.Router.{
  Setup, System, HttpRequest, Route, health, refresh, api, ApiRoute, ws_connect, messages, message,
  upload, calls, user, presence, group, GroupRoute, lookup, create, list, get, update, add_members,
  remove_member, promote, demote, leave, get_invite, reset_invite, join, group_handler, claims_for,
  world_of, api_handler, route_handler, after_limit, handle, handle_all,
}
use wire_server.Limits.{Verdict, no_ip, redis_failed, exceeded, served}
use wire_server.Storage.Rows.{Tables}

-- The read whose failure a handler takes for "no admin" succeeds: it is the second call of the
-- database in `removeGroupMember` and the third in `leaveGroup`.
abbrev pub GroupReads : GroupRoute → (ℕ → Bool) → Type 0
GroupReads (remove_member id phone) fails = fails 1 ≡ false
GroupReads (leave id) fails = fails 2 ≡ false
GroupReads (lookup body) fails = Unit
GroupReads (create body rand) fails = Unit
GroupReads list fails = Unit
GroupReads (get id cut) fails = Unit
GroupReads (update id body) fails = Unit
GroupReads (add_members id body) fails = Unit
GroupReads (promote id phone) fails = Unit
GroupReads (demote id phone) fails = Unit
GroupReads (get_invite id) fails = Unit
GroupReads (reset_invite id rand) fails = Unit
GroupReads (join body) fails = Unit

abbrev pub ApiReads : ApiRoute → (ℕ → Bool) → Type 0
ApiReads (group g) fails = GroupReads g fails
ApiReads (ws_connect upgraded connected fd) fails = Unit
ApiReads (messages body) fails = Unit
ApiReads (message id) fails = Unit
ApiReads (upload body) fails = Unit
ApiReads (calls decoded random) fails = Unit
ApiReads (user phone) fails = Unit
ApiReads (presence phone) fails = Unit

abbrev pub RouteReads : Route → (ℕ → Bool) → Type 0
RouteReads (api a) fails = ApiReads a fails
RouteReads health fails = Unit
RouteReads (refresh built upstream) fails = Unit

abbrev pub Read : HttpRequest → Type 0
Read r = RouteReads r.route r.db_fails

kept : (t t' : Tables) → t' ≡ t → Governed t → Governed t'
kept t t' e v = subst Governed {x = t} {y = t'} (sym e) v

group_handler-Governed :
    (g : GroupRoute) (claims : Option Claims) (r : HttpRequest) (s : System)
    → GroupReads g r.db_fails
    → Governed s.tables
    → Governed (group_handler g claims (world_of r s)).1.tables
unfolding group_handler
group_handler-Governed (lookup body) claims r s h v =
    kept s.tables _ (lookup_users-tables body (world_of r s)) v
group_handler-Governed (create body rand) claims r s h v =
    create_group-Governed claims body rand (world_of r s) v
group_handler-Governed list claims r s h v =
    kept s.tables _ (list_groups-tables claims (world_of r s)) v
group_handler-Governed (get id cut) claims r s h v =
    kept s.tables _ (get_group-tables cut claims id (world_of r s)) v
group_handler-Governed (update id body) claims r s h v =
    update_group-Governed claims id body (world_of r s) v
group_handler-Governed (add_members id body) claims r s h v =
    add_group_members-Governed claims id body (world_of r s) v
group_handler-Governed (remove_member id phone) claims r s h v =
    remove_group_member-Governed claims id phone (world_of r s) h v
group_handler-Governed (promote id phone) claims r s h v =
    promote_group_admin-Governed claims id phone (world_of r s) v
group_handler-Governed (demote id phone) claims r s h v =
    demote_group_admin-Governed claims id phone (world_of r s) v
group_handler-Governed (leave id) claims r s h v = leave_group-Governed claims id (world_of r s) h v
group_handler-Governed (get_invite id) claims r s h v =
    kept s.tables _ (get_group_invite-tables claims id (world_of r s)) v
group_handler-Governed (reset_invite id rand) claims r s h v =
    reset_group_invite-Governed claims id rand (world_of r s) v
group_handler-Governed (join body) claims r s h v =
    join_by_invite-Governed claims body (world_of r s) v

module _ (setup : Setup) where
  api_handler-Governed :
      (r : HttpRequest) (a : ApiRoute) (claims : Claims) (s : System)
      → ApiReads a r.db_fails
      → Governed s.tables
      → Governed (api_handler setup r a claims s).1.tables
  unfolding api_handler
  api_handler-Governed r (ws_connect false connected fd) claims s h v = v
  api_handler-Governed r (ws_connect true false fd) claims s h v = v
  api_handler-Governed r (ws_connect true true fd) claims s h v = v
  api_handler-Governed r (messages body) claims s h v = v
  api_handler-Governed r (message id) claims s h v = v
  api_handler-Governed r (upload body) claims s h v = v
  api_handler-Governed r (calls decoded random) claims s h v = v
  api_handler-Governed r (user phone) claims s h v = v
  api_handler-Governed r (presence phone) claims s h v = v
  api_handler-Governed r (group g) claims s h v = group_handler-Governed g (some claims) r s h v

  route_handler-Governed :
      (r : HttpRequest) (route : Route) (s : System)
      → RouteReads route r.db_fails
      → Governed s.tables
      → Governed (route_handler setup r route s).1.tables
  unfolding route_handler
  route_handler-Governed r health s h v = v
  route_handler-Governed r (refresh built upstream) s h v = v
  route_handler-Governed r (api a) s h v =
      let (claims, jwks') = claims_for setup r s in
      api_handler-Governed r a claims (record s { jwks = jwks' }) h v

  after_limit-Governed :
      (r : HttpRequest) (verdict : Verdict) (s : System)
      → Read r
      → Governed s.tables
      → Governed (after_limit setup r verdict s).1.tables
  after_limit-Governed r no_ip s h v = v
  after_limit-Governed r redis_failed s h v = v
  after_limit-Governed r exceeded s h v = v
  after_limit-Governed r served s h v = route_handler-Governed r r.route s h v

  -- After any sequence of requests to the gateway, every group that has a row or members has an admin
  -- and nobody is a member of a group twice, when this holds before them and no removal of a member
  -- and no leaving of a group has its query fail whether that member is an admin; every other call,
  -- to whatever service, may fail.
  pub handle_all-Governed :
      (rs : List HttpRequest) (s : System)
      → All Read rs
      → Governed s.tables
      → Governed (handle_all setup rs s).1.tables
  unfolding handle_all handle
  handle_all-Governed [] s h v = v
  handle_all-Governed (r ∷ rs) s (h, hs) v =
      handle_all-Governed rs (handle setup r s).1 hs (after_limit-Governed r _ _ h v)
