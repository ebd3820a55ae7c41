-- ===== src/Storage/Statements.antt =====
-- The SQL statements of services/api-gateway/internal/gateway/server.go as functions on the tables.
-- A statement that violates a constraint is `none`: `groups.id` is the primary key and
-- `groups.invite_code` is unique; (`group_id`, `user_phone`) is the key of `group_members`.
-- Rows stand in the order of their insertion.
use wire_server.Prelude.{
  ℕ, ◌+◌, String, Bool, false, not, ◌&&◌, ◌||◌, Option, none, some, List, [], ◌∷◌, ◌++◌, ◌==◌, leb,
  if◌then◌else◌,
}
use wire_server.Storage.Rows.{Role, admin, member, is_admin_role, Group, GroupMember, Tables}

-- Rows chosen by a WHERE clause: counted, tested for, deleted, updated.
module _ {ℓ} {A : Type ℓ} (where_clause : A → Bool) where
  unfoldable pub count_rows : List A → ℕ
  count_rows [] = 0
  count_rows (r ∷ rs) = (if where_clause r then 1 else 0) + count_rows rs

  unfoldable pub exists_row : List A → Bool
  exists_row [] = false
  exists_row (r ∷ rs) = where_clause r || exists_row rs

  unfoldable pub select_rows : List A → List A
  select_rows [] = []
  select_rows (r ∷ rs) = let rest = select_rows rs in if where_clause r then r ∷ rest else rest

  unfoldable pub delete_rows : List A → List A
  delete_rows [] = []
  delete_rows (r ∷ rs) = let rest = delete_rows rs in if where_clause r then rest else r ∷ rest

  unfoldable pub update_rows : (A → A) → List A → List A
  update_rows u [] = []
  update_rows u (r ∷ rs) = (if where_clause r then u r else r) ∷ update_rows u rs

  unfoldable pub first_row : List A → Option A
  first_row [] = none
  first_row (r ∷ rs) = if where_clause r then some r else first_row rs

-- ORDER BY a time, ascending; rows with equal times keep their order.
module _ {ℓ} {A : Type ℓ} (time : A → ℕ) where
  unfoldable pub insert_by : A → List A → List A
  insert_by r [] = r ∷ []
  insert_by r (q ∷ qs) = if leb (time r) (time q) then r ∷ q ∷ qs else q ∷ insert_by r qs

  unfoldable pub order_by : List A → List A
  unfolding insert_by
  order_by [] = []
  order_by (r ∷ rs) = insert_by r (order_by rs)

abbrev pub in_group : String → GroupMember → Bool
in_group g m = m.group_id == g

abbrev pub is_row : String → String → GroupMember → Bool
is_row g p m = (m.group_id == g) && (m.user_phone == p)

abbrev pub is_admin_row : String → String → GroupMember → Bool
is_admin_row g p m = (m.group_id == g) && (m.user_phone == p) && is_admin_role m.role

abbrev pub is_group_admin_row : String → GroupMember → Bool
is_group_admin_row g m = (m.group_id == g) && is_admin_role m.role

abbrev pub has_id : String → Group → Bool
has_id g r = r.id == g

abbrev pub has_invite : String → Group → Bool
has_invite c r = r.invite_code == c

abbrev pub conflicts : Group → Group → Bool
conflicts g r = (r.id == g.id) || (r.invite_code == g.invite_code)

-- INSERT INTO groups
unfoldable pub insert_group : Group → Tables → Option Tables
unfolding exists_row
insert_group g t =
    if exists_row (conflicts g) t.groups
    then none
    else some (record t { groups = t.groups ++ g ∷ [] })

-- INSERT INTO group_members … ON CONFLICT DO UPDATE SET role = 'admin'
unfoldable pub creator_rows : String → String → ℕ → List GroupMember → List GroupMember
unfolding exists_row update_rows
creator_rows g p now ms =
    if exists_row (is_row g p) ms
    then update_rows (is_row g p) (λ m. record m { role = admin }) ms
    else ms
      ++ record { group_id = g; user_phone = p; created_at = now; role = admin; added_by = some p }
        ∷ []

unfoldable pub insert_creator : String → String → ℕ → Tables → Option Tables
unfolding creator_rows
insert_creator g p now t = some (record t { group_members = creator_rows g p now t.group_members })

-- INSERT INTO group_members … ON CONFLICT DO NOTHING
unfoldable pub insert_member : String → String → String → ℕ → Tables → Option Tables
unfolding exists_row
insert_member g p by now t =
    if exists_row (is_row g p) t.group_members
    then some t
    else some (record t {
      group_members =
          t.group_members
          ++ record {
            group_id = g;
            user_phone = p;
            created_at = now;
            role = member;
            added_by = some by;
          }
            ∷ [];
    })

-- COALESCE(NULLIF($2, ''), name)
unfoldable pub coalesce_nonempty : Option String → String → String
coalesce_nonempty none old = old
coalesce_nonempty (some s) old = if s == "" then old else s

-- COALESCE($3, description)
unfoldable pub coalesce : Option String → Option String → Option String
coalesce none old = old
coalesce (some s) old = some s

-- NULLIF($3, '')
unfoldable pub nullif_empty : String → Option String
nullif_empty s = if s == "" then none else some s

-- UPDATE groups SET name, description, avatar_url, updated_at
unfoldable pub update_group_row :
    String → Option String → Option String → Option String → ℕ → Tables → Option Tables
unfolding update_rows coalesce_nonempty coalesce
update_group_row g name description avatar now t = some (record t {
  groups =
      update_rows (has_id g)
        (λ r. record r {
          name = coalesce_nonempty name r.name;
          description = coalesce description r.description;
          avatar_url = coalesce avatar r.avatar_url;
          updated_at = now;
        })
        t.groups;
})

-- UPDATE groups SET updated_at = NOW()
unfoldable pub touch_group : String → ℕ → Tables → Option Tables
unfolding update_rows
touch_group g now t =
    some
      (record t { groups = update_rows (has_id g) (λ r. record r { updated_at = now }) t.groups })

-- UPDATE groups SET invite_code, updated_at: refused if another group has the code.
unfoldable pub set_invite : String → String → ℕ → Tables → Option Tables
unfolding update_rows exists_row
set_invite g c now t =
    if exists_row (has_id g) t.groups
      && exists_row (λ r. not (r.id == g) && (r.invite_code == c)) t.groups
    then none
    else some (record t {
      groups =
          update_rows (has_id g) (λ r. record r { invite_code = c; updated_at = now }) t.groups;
    })

-- UPDATE group_members SET role
unfoldable pub set_role : Role → String → String → Tables → Option Tables
unfolding update_rows
set_role role g p t = some (record t {
  group_members = update_rows (is_row g p) (λ m. record m { role = role }) t.group_members;
})

-- DELETE FROM group_members WHERE group_id AND user_phone
unfoldable pub delete_member : String → String → Tables → Option Tables
unfolding delete_rows
delete_member g p t = some (record t { group_members = delete_rows (is_row g p) t.group_members })

-- DELETE FROM groups WHERE id
unfoldable pub delete_group : String → Tables → Option Tables
unfolding delete_rows
delete_group g t = some (record t { groups = delete_rows (has_id g) t.groups })

-- SELECT user_phone … WHERE group_id AND user_phone <> … ORDER BY created_at ASC LIMIT 1
unfoldable pub oldest_other : String → String → Tables → Option String
unfolding order_by first_row
oldest_other g p t =
    elim (first_row (λ m. (m.group_id == g) && not (m.user_phone == p))
      (order_by (λ m. m.created_at) t.group_members)) [ none ↦ none | some m ↦ some m.user_phone ]
