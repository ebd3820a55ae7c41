-- ===== src/Gateway/Groups/Denied.antt =====
-- What a caller who is no admin of the group gets from the handlers for admins.
use wire_server.Prelude.{ℕ, String, false, Option, some, List, ◌≡◌, refl, inl, inr, Bool-cases}
use wire_server.Storage.Pool.{World, query, tick}
use wire_server.Gateway.Http.{Claims, Reply, write_error, ◌>>=◌, current_user_phone}
use wire_server.Gateway.Groups.Access.{admin_in, is_group_admin}
use wire_server.Gateway.Groups.Members.{add_group_members, remove_group_member}
use wire_server.Gateway.Groups.Admins.{promote_group_admin, demote_group_admin}
use wire_server.Gateway.Groups.Invites.{reset_group_invite}

-- 403, and the tables as they were.
abbrev pub Refused : World → Reply × World → Type 0
Refused w (r, w') = (r.code ≡ 403) × (r.success ≡ false) × (w'.tables ≡ w.tables)

is_group_admin-false :
    (g p : String) (w : World)
    → admin_in g p w.tables ≡ false
    → is_group_admin g p w ≡ (false, tick w)
unfolding is_group_admin query
is_group_admin-false g p w h = elim (Bool-cases (w.fails w.calls)) [
  | inl lost ↦ rw lost refl
  | inr fine ↦ rw (fine, h) refl
]

module _ (claims : Option Claims) (g user : String) (w : World)
    (caller : current_user_phone claims ≡ some user)
    (outsider : admin_in g user w.tables ≡ false) where
  remove_group_member-Refused :
      (target : String) → Refused w (remove_group_member claims g target w)
  unfolding remove_group_member ◌>>=◌ write_error
  remove_group_member-Refused target =
      rw (remove_group_member, caller, is_group_admin-false g user w outsider) (refl, refl, refl)

  add_group_members-Refused :
      (body : Option (List String)) → Refused w (add_group_members claims g body w)
  unfolding add_group_members ◌>>=◌ write_error
  add_group_members-Refused body =
      rw (add_group_members, caller, is_group_admin-false g user w outsider) (refl, refl, refl)

  promote_group_admin-Refused :
      (target : String) → Refused w (promote_group_admin claims g target w)
  unfolding promote_group_admin ◌>>=◌ write_error
  promote_group_admin-Refused target =
      rw (promote_group_admin, caller, is_group_admin-false g user w outsider) (refl, refl, refl)

  demote_group_admin-Refused : (target : String) → Refused w (demote_group_admin claims g target w)
  unfolding demote_group_admin ◌>>=◌ write_error
  demote_group_admin-Refused target =
      rw (demote_group_admin, caller, is_group_admin-false g user w outsider) (refl, refl, refl)

  reset_group_invite-Refused :
      (rand : Option (List ℕ)) → Refused w (reset_group_invite claims g rand w)
  unfolding reset_group_invite ◌>>=◌ write_error
  reset_group_invite-Refused rand =
      rw (reset_group_invite, caller, is_group_admin-false g user w outsider) (refl, refl, refl)

-- A caller with a phone who is no admin of the group gets 403 from `removeGroupMember`,
-- `addGroupMembers`, `promoteGroupAdmin`, `demoteGroupAdmin` and `resetGroupInvite`, whatever else
-- the request holds and whatever calls of the database fail, and none of them changes a table.
pub admins_only :
    (claims : Option Claims) (g user : String) (w : World) (target : String)
    (body : Option (List String)) (rand : Option (List ℕ))
    → current_user_phone claims ≡ some user
    → admin_in g user w.tables ≡ false
    → Refused w (remove_group_member claims g target w)
      × Refused w (add_group_members claims g body w)
      × Refused w (promote_group_admin claims g target w)
      × Refused w (demote_group_admin claims g target w)
      × Refused w (reset_group_invite claims g rand w)
admins_only claims g user w target body rand caller outsider = (
  remove_group_member-Refused claims g user w caller outsider target,
  add_group_members-Refused claims g user w caller outsider body,
  promote_group_admin-Refused claims g user w caller outsider target,
  demote_group_admin-Refused claims g user w caller outsider target,
  reset_group_invite-Refused claims g user w caller outsider rand,
)
