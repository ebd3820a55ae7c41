-- ===== src/Gateway/Groups/Access.antt =====
-- Who may do what: `isGroupMember`, `isGroupAdmin`, `adminCount` and `dedupeIDs`. The first three
-- answer "no" and 0 where the query fails.
use wire_server.Prelude.{
  ℕ, String, Bool, false, not, ◌&&◌, ◌||◌, Option, none, some, List, [], ◌∷◌, ◌++◌, ◌==◌, elem,
  if◌then◌else◌,
}
use wire_server.Text.{trim_space}
use wire_server.Storage.Rows.{Tables}
use wire_server.Storage.Statements.{
  exists_row, count_rows, is_row, is_admin_row, is_group_admin_row, in_group,
}
use wire_server.Storage.Pool.{World, query}

abbrev or_false : Option Bool → Bool
or_false none = false
or_false (some b) = b

abbrev or_zero : Option ℕ → ℕ
or_zero none = 0
or_zero (some n) = n

unfoldable pub member_in : String → String → Tables → Bool
unfolding exists_row
member_in g p t = exists_row (is_row g p) t.group_members

unfoldable pub admin_in : String → String → Tables → Bool
unfolding exists_row
admin_in g p t = exists_row (is_admin_row g p) t.group_members

unfoldable pub admins_of : String → Tables → ℕ
unfolding count_rows
admins_of g t = count_rows (is_group_admin_row g) t.group_members

unfoldable pub members_of : String → Tables → ℕ
unfolding count_rows
members_of g t = count_rows (in_group g) t.group_members

-- `isGroupMember`
unfoldable pub is_group_member : String → String → World → Bool × World
unfolding query
is_group_member g p w = let (r, w') = query (member_in g p) w in (or_false r, w')

-- `isGroupAdmin`
unfoldable pub is_group_admin : String → String → World → Bool × World
unfolding query
is_group_admin g p w = let (r, w') = query (admin_in g p) w in (or_false r, w')

-- `adminCount`
unfoldable pub admin_count : String → World → ℕ × World
unfolding query
admin_count g w = let (r, w') = query (admins_of g) w in (or_zero r, w')

-- The loop of `dedupeIDs`; `out` holds what `seen` holds.
unfoldable pub dedupe_from : (String → Bool) → List String → List String → List String
unfolding trim_space
dedupe_from skip out [] = out
dedupe_from skip out (id ∷ ids) =
    let s = trim_space id in
    dedupe_from skip (if (s == "") || skip s || elem s out then out else out ++ s ∷ []) ids

-- `dedupeIDs`
unfoldable pub dedupe_ids : List String → String → List String
unfolding dedupe_from
dedupe_ids ids skip = dedupe_from (λ s. not (skip == "") && (s == skip)) [] ids
