-- ===== src/Gateway/Groups/Departure.antt =====
-- A departure on the tables: a successor is found among the other members, or nobody is left.
use wire_server.Prelude.{
  ◌<◌, String, Bool, true, not, ◌&&◌, none, some, ◌≡◌, ◌≢◌, ◌⊎◌, inl, inr, ◌==◌, eq_iff, eq_refl,
  arith, Option-cases,
}
use wire_server.Storage.Rows.{admin, GroupMember, Tables}
use wire_server.Storage.Statements.{
  count_rows, delete_rows, update_rows, in_group, is_row, is_admin_row, is_group_admin_row, has_id,
  oldest_other, first_row, order_by,
}
use wire_server.Storage.Counts.{
  count_rows-pos, count_rows-delete_rows_ne, count_rows_mono, count_rows-delete_rows-le,
  count_rows-update_rows-ge, count_rows-delete_rows-le_of, count_rows-order_by, first_row-none,
  first_row-some,
}
use wire_server.Gateway.Groups.Access.{admins_of, members_of, member_in}
use wire_server.Gateway.Groups.Governed.{Governed, with_members, with_role, set_admin-Governed}
use wire_server.Gateway.Groups.Removal.{removed, removed-Governed, emptied-Governed}

abbrev other_row : String → String → GroupMember → Bool
other_row g p m = (m.group_id == g) && not (m.user_phone == p)

-- Once `p` is gone the group has an admin, or no members.
pub record Leavable (g p : String) (t : Tables) : Type 0 where
  pub governed : Governed t
  pub left : (0 < admins_of g (removed g p t)) ⊎ (members_of g (removed g p t) ≡ 0)

abbrev pub promoted : String → String → Tables → Tables
promoted g q t = with_members t (update_rows (is_row g q) (with_role admin) t.group_members)

pub nobody_else :
    (g p : String) (t : Tables) → oldest_other g p t ≡ none → members_of g (removed g p t) ≡ 0
unfolding oldest_other members_of
nobody_else g p t h =
    elim (Option-cases (first_row (other_row g p) (order_by (λ m. m.created_at) t.group_members))) [
      | inl missing ↦ omega (
        arith,
        first_row-none (other_row g p) (order_by (λ m. m.created_at) t.group_members) missing,
        count_rows-order_by (λ m. m.created_at) (other_row g p) t.group_members,
        count_rows-delete_rows-le_of (in_group g) (is_row g p) (other_row g p)
            (λ m a b. ground arith) t.group_members,
      )
      | inr (m, found) ↦ absurd (ground arith)
    ]

-- Whom the query finds is another member of the group.
other_member :
    (g p q : String) (t : Tables)
    → oldest_other g p t ≡ some q
    → (q ≢ p) × (0 < count_rows (is_row g q) t.group_members)
unfolding oldest_other
other_member g p q t h =
    elim (Option-cases (first_row (other_row g p) (order_by (λ m. m.created_at) t.group_members))) [
      | inl missing ↦ absurd (ground arith)
      | inr (m, found) ↦
          let (other, counted) =
            first_row-some (other_row g p) (order_by (λ m. m.created_at) t.group_members) {r = m}
              found in
          let e : m.user_phone ≡ q = ground arith in
          (
            ground (arith, eq_iff q p),
            omega (
              arith,
              counted (is_row g q) (ground (arith, eq_refl q)),
              count_rows-order_by (λ m. m.created_at) (is_row g q) t.group_members,
            ),
          )
    ]

pub promoted-Leavable :
    (g p q : String) (t : Tables)
    → oldest_other g p t ≡ some q
    → Governed t
    → Leavable g p (promoted g q t)
unfolding admins_of
promoted-Leavable g p q t h v = record {
  governed = set_admin-Governed g q t v;
  left = inl (
      omega (
        arith,
        (other_member g p q t h).1,
        count_rows-update_rows-ge (is_admin_row g q) (is_row g q) (with_role admin)
            (λ m hit. ground arith) t.group_members,
        count_rows-delete_rows_ne (is_admin_row g q) (is_row g p)
            (λ m hit.
              ground
                (arith, (other_member g p q t h).0, eq_iff m.user_phone p, eq_iff m.user_phone q))
            (promoted g q t).group_members,
        count_rows_mono (is_admin_row g q) (is_group_admin_row g) (λ m. ground arith)
            (removed g p (promoted g q t)).group_members,
      ));
}

-- After the departure: the tables are governed, or they are once the empty group's row is gone.
abbrev pub without_group : String → Tables → Tables
without_group g t = record t { groups = delete_rows (has_id g) t.groups }

pub record Left (g : String) (t : Tables) : Type 0 where
  pub dropped : Governed (without_group g t)
  pub kept : members_of g t ≢ 0 → Governed t

without_group-Governed : (g : String) (t : Tables) → Governed t → Governed (without_group g t)
unfolding admins_of members_of
without_group-Governed g t v = record {
  unique = v.unique;
  led = v.led;
  listed = λ h row.
      v.listed h (omega (arith, row, count_rows-delete_rows-le (has_id h) (has_id g) t.groups));
}

pub removed-Left : (g p : String) (t : Tables) → Leavable g p t → Left g (removed g p t)
removed-Left g p t l = elim l.left [
  | inl led ↦
      let v = removed-Governed g p t led l.governed in
      record { dropped = without_group-Governed g (removed g p t) v; kept = λ _. v }
  | inr empty ↦ record {
    dropped = emptied-Governed g p t empty l.governed;
    kept = λ h. absurd (h empty);
  }
]

-- A member's group has members.
pub members_of-pos : (g p : String) (t : Tables) → member_in g p t ≡ true → 0 < members_of g t
unfolding member_in members_of
members_of-pos g p t h = omega (
  arith,
  count_rows-pos (is_row g p) t.group_members h,
  count_rows_mono (is_row g p) (in_group g) (λ m. ground arith) t.group_members,
)
