-- ===== src/Storage/Rows.antt =====
-- The rows of the tables (pkg/db/sqlc/models.go). A nullable column is an `Option`; a time is a
-- number. `group_members.role` is checked to be one of two texts (migration 0005).
use wire_server.Prelude.{ℕ, String, Option, List, Bool, true, false}

pub data Role : Type 0 where
  admin member : Role

abbrev pub is_admin_role : Role → Bool
is_admin_role admin = true
is_admin_role member = false

pub record Group : Type 0 where
  pub id : String
  pub name : String
  pub description : Option String
  pub avatar_url : Option String
  pub created_by_phone : String
  pub invite_code : String
  pub created_at : ℕ
  pub updated_at : ℕ

pub record GroupMember : Type 0 where
  pub group_id : String
  pub user_phone : String
  pub created_at : ℕ
  pub role : Role
  pub added_by : Option String

pub record User : Type 0 where
  pub id : String
  pub phone : Option String
  pub created_at : ℕ

-- The tables that the gateway reads and writes itself.
pub record Tables : Type 0 where
  pub groups : List Group
  pub group_members : List GroupMember
  pub users : List User
