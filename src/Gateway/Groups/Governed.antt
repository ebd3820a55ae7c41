-- ===== src/Gateway/Groups/Governed.antt =====
-- Every group that has members, or a row, has an admin, and nobody is a member twice: what each
-- statement needs to keep that.
use wire_server.Prelude.{
  ℕ, ◌≤◌, ◌<◌, String, true, some, List, [], ◌∷◌, ◌++◌, ◌⊎◌, ◌≡◌, refl, inl, inr, eq_iff, eq_refl,
  arith, Bool-cases,
}
use mathlib.Core.Path.{subst}
use wire_server.Storage.Rows.{Role, admin, member, is_admin_role, Group, GroupMember, Tables}
use wire_server.Storage.Statements.{
  count_rows, exists_row, update_rows, in_group, is_row, is_admin_row, is_group_admin_row, has_id,
  insert_creator, insert_member,
}
use wire_server.Storage.Counts.{
  count_rows-append, count_rows-pos, count_rows-zero, count_rows_mono, count_rows-le-update_rows,
  count_rows-update_rows, count_rows-update_rows-ge,
}
use wire_server.Gateway.Groups.Access.{admin_in, admins_of, members_of}

pub record Governed (t : Tables) : Type 0 where
  pub unique : (g p : String) → count_rows (is_row g p) t.group_members ≤ 1
  pub led : (g : String) → 0 < members_of g t → 0 < admins_of g t
  pub listed : (g : String) → 0 < count_rows (has_id g) t.groups → 0 < admins_of g t

-- An admin's row is one of the group's admin rows.
pub admins_of-pos : (g p : String) (t : Tables) → admin_in g p t ≡ true → 0 < admins_of g t
unfolding admin_in admins_of
admins_of-pos g p t h = omega (
  arith,
  count_rows-pos (is_admin_row g p) t.group_members h,
  count_rows_mono (is_admin_row g p) (is_group_admin_row g) (λ m. ground arith) t.group_members,
)

module _ (m : GroupMember) (t : Tables)
    (fresh : count_rows (is_row m.group_id m.user_phone) t.group_members ≡ 0) (v : Governed t) where
  append_unique : (g p : String) → count_rows (is_row g p) (t.group_members ++ m ∷ []) ≤ 1
  unfolding count_rows
  append_unique g p = ground (
    arith,
    count_rows-append (is_row g p) t.group_members (m ∷ []),
    v.unique g p,
    eq_iff m.group_id g,
    eq_iff m.user_phone p,
  )

  append_led :
      (0 < admins_of m.group_id t) ⊎ (is_admin_role m.role ≡ true)
      → (g : String) → 0 < count_rows (in_group g) (t.group_members ++ m ∷ [])
      → 0 < count_rows (is_group_admin_row g) (t.group_members ++ m ∷ [])
  unfolding count_rows admins_of members_of
  append_led led g = ground (
    arith,
    count_rows-append (is_group_admin_row g) t.group_members (m ∷ []),
    count_rows-append (in_group g) t.group_members (m ∷ []),
    v.led g,
    eq_iff m.group_id g,
  )

abbrev pub with_members : Tables → List GroupMember → Tables
with_members t ms = record t { group_members = ms }

append-Governed :
    (m : GroupMember) (t : Tables)
    → count_rows (is_row m.group_id m.user_phone) t.group_members ≡ 0
    → (0 < admins_of m.group_id t) ⊎ (is_admin_role m.role ≡ true)
    → Governed t
    → Governed (with_members t (t.group_members ++ m ∷ []))
unfolding admins_of members_of
append-Governed m t fresh led v = record {
  unique = append_unique m t fresh v;
  led = append_led m t fresh v led;
  listed = λ g h.
      omega
        (arith, v.listed g h, count_rows-append (is_group_admin_row g) t.group_members (m ∷ []));
}

pub insert_member-Governed :
    (g p by : String) (now : ℕ) (t : Tables) {t' : Tables}
    → insert_member g p by now t ≡ some t'
    → 0 < admins_of g t
    → Governed t
    → Governed t'
unfolding insert_member
insert_member-Governed g p by now t {t'} inserted led v =
    elim (Bool-cases (exists_row (is_row g p) t.group_members)) [
      | inl old ↦ subst Governed (ground arith) v
      | inr new ↦ subst Governed {y = t'} (ground arith) (
          append-Governed
            (record {
              group_id = g;
              user_phone = p;
              created_at = now;
              role = member;
              added_by = some by;
            })
            t (count_rows-zero (is_row g p) t.group_members new) (inl led) v)
    ]

pub admins_of-le-insert_member :
    (g p by : String) (now : ℕ) (t : Tables) {t' : Tables}
    → insert_member g p by now t ≡ some t'
    → admins_of g t ≤ admins_of g t'
unfolding insert_member admins_of
admins_of-le-insert_member g p by now t h = ground (
  arith,
  count_rows-append (is_group_admin_row g) t.group_members (
      record { group_id = g; user_phone = p; created_at = now; role = member; added_by = some by }
      ∷ []),
)

abbrev pub with_role : Role → GroupMember → GroupMember
with_role r m = record m { role = r }

-- Making somebody an admin.
pub set_admin-Governed :
    (g p : String) (t : Tables)
    → Governed t
    → Governed (with_members t (update_rows (is_row g p) (with_role admin) t.group_members))
unfolding admins_of members_of
set_admin-Governed g p t v = record {
  unique = λ h q. omega (
    arith,
    v.unique h q,
    count_rows-update_rows (is_row h q) (is_row g p) (with_role admin) (λ m _. refl)
        t.group_members,
  );
  led = λ h some_member. omega (
    arith,
    v.led h (
        omega (
          arith,
          some_member,
          count_rows-update_rows (in_group h) (is_row g p) (with_role admin) (λ m _. refl)
              t.group_members,
        )),
    count_rows-le-update_rows (is_group_admin_row h) (is_row g p) (with_role admin)
        (λ m. ground arith) t.group_members,
  );
  listed = λ h row. omega (
    arith,
    v.listed h row,
    count_rows-le-update_rows (is_group_admin_row h) (is_row g p) (with_role admin)
        (λ m. ground arith) t.group_members,
  );
}

-- An update of a group's row that keeps its id.
pub touched-Governed :
    (g : String) (u : Group → Group) (t : Tables)
    → ((r : Group) → (u r).id ≡ r.id)
    → Governed t
    → Governed (record t { groups = update_rows (has_id g) u t.groups })
unfolding admins_of members_of
touched-Governed g u t same v = record {
  unique = v.unique;
  led = v.led;
  listed = λ h row. v.listed h (
      omega
        (arith, row, count_rows-update_rows (has_id h) (has_id g) u (λ r _. rw (same r)) t.groups));
}

abbrev creator_row : String → String → ℕ → GroupMember
creator_row g p now = record {
  group_id = g;
  user_phone = p;
  created_at = now;
  role = admin;
  added_by = some p;
}

set_admin_admins :
    (g p : String) (t : Tables)
    → exists_row (is_row g p) t.group_members ≡ true
    → 0 < admins_of g (with_members t (update_rows (is_row g p) (with_role admin) t.group_members))
unfolding admins_of
set_admin_admins g p t old = omega (
  arith,
  count_rows-pos (is_row g p) t.group_members old,
  count_rows-update_rows-ge (is_group_admin_row g) (is_row g p) (with_role admin)
      (λ m hit. ground arith) t.group_members,
)

creator_admins :
    (g p : String) (now : ℕ) (t : Tables)
    → 0 < admins_of g (with_members t (t.group_members ++ creator_row g p now ∷ []))
unfolding admins_of count_rows
creator_admins g p now t = ground (
  arith,
  eq_refl g,
  count_rows-append (is_group_admin_row g) t.group_members (creator_row g p now ∷ []),
)

-- The creator's row makes the group governed, whatever rows it had.
pub creator-Governed :
    (g p : String) (now : ℕ) (t : Tables) {t' : Tables}
    → insert_creator g p now t ≡ some t'
    → Governed t
    → Governed t' × (0 < admins_of g t')
unfolding insert_creator
creator-Governed g p now t {t'} inserted v =
    elim (Bool-cases (exists_row (is_row g p) t.group_members)) [
      | inl old ↦
          subst (λ t. Governed t × (0 < admins_of g t)) {y = t'} (ground arith)
            (set_admin-Governed g p t v, set_admin_admins g p t old)
      | inr new ↦
          subst (λ t. Governed t × (0 < admins_of g t)) {y = t'} (ground arith)
            (
              append-Governed (creator_row g p now) t
                  (count_rows-zero (is_row g p) t.group_members new) (inr refl) v,
              creator_admins g p now t,
            )
    ]

-- The new group's row, once it has an admin.
pub new_group-Governed :
    (r : Group) (t : Tables)
    → 0 < admins_of r.id t
    → Governed t
    → Governed (record t { groups = t.groups ++ r ∷ [] })
unfolding admins_of members_of count_rows
new_group-Governed r t pos v = record {
  unique = v.unique;
  led = v.led;
  listed = λ h row.
      ground (arith, v.listed h, eq_iff r.id h, count_rows-append (has_id h) t.groups (r ∷ []));
}
