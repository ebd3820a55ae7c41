-- ===== src/Gateway/Groups/Create.antt =====
-- `createGroup` and `randomHex`.
use wire_server.Prelude.{
  ℕ, String, Bool, true, false, not, Option, none, some, List, [], ◌∷◌, ◌==◌, if◌then◌else◌,
}
use wire_server.Text.{trim_space, ◌<>◌, decimal, hex_encode}
use wire_server.Storage.Rows.{Group}
use wire_server.Storage.Statements.{insert_group, insert_creator, insert_member, nullif_empty}
use wire_server.Storage.Pool.{World, begin, tx_exec, commit, rollback}
use wire_server.Gateway.Http.{
  Claims, Reply, Handler, group_created, write_json, write_error, ◌>>=◌, ◌>>◌, op, ensure, unwrap,
  reply, serve, current_user_phone, missing_claims,
}
use wire_server.Gateway.Groups.Access.{dedupe_ids}

pub record CreateGroupRequest : Type 0 where
  pub name : String
  pub description : String
  pub avatar_url : String
  pub member_phones : List String

-- `randomHex(12)`; the bytes are those that `crypto/rand` gave, `none` its failure.
unfoldable pub random_hex : Option (List ℕ) → Option String
unfolding hex_encode
random_hex none = none
random_hex (some bytes) = some (hex_encode bytes)

-- The loop over `memberPhones`, inside the transaction.
unfoldable pub tx_add_each : String → String → List String → World → Bool × World
unfolding tx_exec insert_member
tx_add_each g by [] w = (true, w)
tx_add_each g by (p ∷ ps) w =
    let (ok, w') = tx_exec (insert_member g p by w.now) w in
    let rest = tx_add_each g by ps w' in if ok then rest else (false, w')

-- `fmt.Sprintf("grp_%d", time.Now().UTC().UnixNano())`
unfoldable pub group_id_at : ℕ → String
unfolding decimal
group_id_at now = "grp_" <> decimal now

unfoldable pub new_group : String → CreateGroupRequest → String → String → ℕ → Group
unfolding nullif_empty trim_space
new_group g req user code now = record {
  id = g;
  name = trim_space req.name;
  description = nullif_empty req.description;
  avatar_url = nullif_empty req.avatar_url;
  created_by_phone = user;
  invite_code = code;
  created_at = now;
  updated_at = now;
}

-- The statements between `Begin` and the reply.
unfoldable pub create_in_tx : String → CreateGroupRequest → String → String → Handler Reply
create_in_tx g req user code w =
    (do
      began ← op begin
      ensure began (write_error 500 "db begin failed")
      inserted ← op (tx_exec (insert_group (new_group g req user code w.now)))
      ensure inserted (write_error 500 "group create failed")
      creator ← op (tx_exec (insert_creator g user w.now))
      ensure creator (write_error 500 "creator membership failed")
      added ← op (tx_add_each g user (dedupe_ids req.member_phones user))
      ensure added (write_error 500 "add member failed")
      committed ← op commit
      ensure committed (write_error 500 "db commit failed")
      reply (write_json 201 (group_created g code)))
      w

-- `defer tx.Rollback`
abbrev pub deferring_rollback : Handler Reply → Handler Reply
deferring_rollback h w = let (r, w') = h w in (r, rollback w')

unfoldable pub create_group :
    Option Claims → Option CreateGroupRequest → Option (List ℕ) → World → Reply × World
create_group claims body rand w =
    serve
      (do
        user ← unwrap (current_user_phone claims) missing_claims
        req ← unwrap body (write_error 400 "invalid payload")
        ensure (not (trim_space req.name == "")) (write_error 400 "name is required")
        code ← unwrap (random_hex rand) (write_error 500 "invite generation failed")
        deferring_rollback (create_in_tx (group_id_at w.now) req user code))
      w
