-- ===== src/Assignment/Rows.antt =====
-- The rows of api/app/models/assignment.py, and the rule configurations of the six strategies.
use configurable_crm.Prelude.{Integer, ℕ, String, Bool, Option, List}
use configurable_crm.Filters.Dsl.{FilterNode}

pub data AssignmentStrategy : Type 0 where
  round_robin weighted field_value sales_group fixed unassigned : AssignmentStrategy

-- The keys of `config` that some strategy reads; a missing key is `none` or an empty list, and a
-- weighted row without a weight has `none` there.
pub record Config : Type 0 where
  pub membership_ids : List ℕ
  pub members : List (ℕ × Option ℕ)
  pub group_id : Option ℕ
  pub field_key : Option String
  pub mapping : List (String × ℕ)
  pub fallback : Option ℕ
  pub membership_id : Option ℕ

-- `conditions` is `none` for `{}`, the catch-all.
pub record AssignmentRule : Type 0 where
  pub id : ℕ
  pub name : String
  pub priority : ℕ
  pub conditions : Option FilterNode
  pub strategy : AssignmentStrategy
  pub config : Config
  pub skip_unavailable : Bool
  pub is_active : Bool

pub record SalesGroup : Type 0 where
  pub id : ℕ
  pub name : String
  pub description : Option String
  pub is_archived : Bool

pub record SalesGroupMember : Type 0 where
  pub group_id : ℕ
  pub membership_id : ℕ
  pub weight : ℕ

pub record AssignmentCursor : Type 0 where
  pub rule_id : ℕ
  pub position : Integer
  pub last_membership_id : Option ℕ
