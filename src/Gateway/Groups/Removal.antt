-- ===== src/Gateway/Groups/Removal.antt =====
-- Demotions, removals and departures keep every group governed, under what the handlers check first.
use wire_server.Prelude.{
  ◌+◌, ◌≤◌, ◌<◌, String, true, ◌≡◌, refl, ◌≢◌, inl, inr, eq_iff, arith, Bool-cases, text_cases,
}
use mathlib.Core.Path.{subst}
use wire_server.Storage.Rows.{member, Tables}
use wire_server.Storage.Statements.{
  count_rows, exists_row, delete_rows, update_rows, in_group, is_row, is_admin_row,
  is_group_admin_row, has_id,
}
use wire_server.Storage.Counts.{
  count_rows-zero, count_rows-le-delete_rows, count_rows-delete_rows-le, count_rows-delete_rows_ne,
  count_rows-le-update_rows_add, count_rows-update_rows, count_rows-le-delete_rows_both,
  count_rows-delete_rows_self,
}
use wire_server.Gateway.Groups.Access.{admin_in, admins_of, members_of}
use wire_server.Gateway.Groups.Governed.{Governed, with_members, with_role}

module _ (g p : String) (t : Tables) where
  abbrev pub demoted : Tables
  demoted = with_members t (update_rows (is_row g p) (with_role member) t.group_members)

  abbrev pub removed : Tables
  removed = with_members t (delete_rows (is_row g p) t.group_members)

  -- Another group's admins are untouched.
  demoted_other : (h : String) → g ≢ h → admins_of h demoted ≡ admins_of h t
  unfolding admins_of
  demoted_other h apart =
      count_rows-update_rows (is_group_admin_row h) (is_row g p) (with_role member)
        (λ m hit. ground (arith, eq_iff m.group_id g, eq_iff m.group_id h)) t.group_members

  removed_other : (h : String) → g ≢ h → admins_of h removed ≡ admins_of h t
  unfolding admins_of
  removed_other h apart =
      count_rows-delete_rows_ne (is_group_admin_row h) (is_row g p)
        (λ m hit. ground (arith, eq_iff m.group_id g, eq_iff m.group_id h)) t.group_members

  demoted_members : (h : String) → members_of h demoted ≡ members_of h t
  unfolding members_of
  demoted_members h =
      count_rows-update_rows (in_group h) (is_row g p) (with_role member) (λ m _. refl)
        t.group_members

  removed_members : (h : String) → members_of h removed ≤ members_of h t
  unfolding members_of
  removed_members h = count_rows-delete_rows-le (in_group h) (is_row g p) t.group_members

  -- A demotion costs the group at most one admin.
  demoted_admins : Governed t → admins_of g t ≤ admins_of g demoted + 1
  unfolding admins_of
  demoted_admins v = omega (
    arith,
    v.unique g p,
    count_rows-le-update_rows_add (is_group_admin_row g) (is_row g p) (with_role member)
        t.group_members,
  )

  pub demoted-Governed : 2 ≤ admins_of g t → Governed t → Governed demoted
  demoted-Governed two v = record {
    unique = λ h q. omega (
      arith,
      v.unique h q,
      count_rows-update_rows (is_row h q) (is_row g p) (with_role member) (λ m _. refl)
          t.group_members,
    );
    led = λ h some_member. admins h (v.led h (omega (arith, some_member, demoted_members h)));
    listed = λ h row. admins h (v.listed h row);
  }
    where
      admins : (h : String) → 0 < admins_of h t → 0 < admins_of h demoted
      admins h pos = elim (text_cases g h) [
        | inl same ↦ subst (λ k. 0 < admins_of k demoted) same (omega (arith, demoted_admins v))
        | inr (apart, _) ↦ omega (arith, demoted_other h apart)
      ]

  removed_unique : Governed t → (h q : String) → count_rows (is_row h q) removed.group_members ≤ 1
  removed_unique v h q =
      omega
        (arith, v.unique h q, count_rows-delete_rows-le (is_row h q) (is_row g p) t.group_members)

  -- A removal that leaves the group an admin.
  pub removed-Governed : 0 < admins_of g removed → Governed t → Governed removed
  removed-Governed left v = record {
    unique = removed_unique v;
    led = λ h some_member. admins h (v.led h (omega (arith, some_member, removed_members h)));
    listed = λ h row. admins h (v.listed h row);
  }
    where
      admins : (h : String) → 0 < admins_of h t → 0 < admins_of h removed
      admins h pos = elim (text_cases g h) [
        | inl same ↦ subst (λ k. 0 < admins_of k removed) same left
        | inr (apart, _) ↦ omega (arith, removed_other h apart)
      ]

  -- Removing somebody who is no admin, or one admin of two, leaves the group an admin.
  pub removed_admins :
      Governed t
      → 0 < admins_of g t
      → (admin_in g p t ≡ true → 2 ≤ admins_of g t)
      → 0 < admins_of g removed
  unfolding admins_of admin_in
  removed_admins v pos spare = elim (Bool-cases (exists_row (is_admin_row g p) t.group_members)) [
    | inl is_admin ↦ omega (
      arith,
      spare is_admin,
      v.unique g p,
      count_rows-le-delete_rows (is_group_admin_row g) (is_row g p) t.group_members,
    )
    | inr is_member ↦ omega (
      arith,
      count_rows-zero (is_admin_row g p) t.group_members is_member,
      count_rows-le-delete_rows_both (is_group_admin_row g) (is_row g p) (is_admin_row g p)
          (λ m a b. ground arith) t.group_members,
    )
  ]

  -- The last member is gone, and the group's row with it.
  pub emptied-Governed :
      members_of g removed ≡ 0
      → Governed t
      → Governed (record removed { groups = delete_rows (has_id g) t.groups })
  unfolding admins_of members_of
  emptied-Governed empty v = record {
    unique = removed_unique v;
    led = λ h some_member. elim (text_cases g h) [
      | inl same ↦ absurd (
          omega (
            arith,
            subst (λ k. count_rows (in_group k) (delete_rows (is_row g p) t.group_members) ≡ 0) same
                empty,
          ))
      | inr (apart, _) ↦
          omega (arith, v.led h (omega (arith, removed_members h)), removed_other h apart)
    ];
    listed = λ h row. elim (text_cases g h) [
      | inl same ↦ absurd (
          omega (
            arith,
            row,
            subst (λ k. count_rows (has_id k) (delete_rows (has_id g) t.groups) ≡ 0) same
                (count_rows-delete_rows_self (has_id g) t.groups),
          ))
      | inr (apart, _) ↦ omega (
        arith,
        v.listed h (omega (arith, row, count_rows-delete_rows-le (has_id h) (has_id g) t.groups)),
        removed_other h apart,
      )
    ];
  }
