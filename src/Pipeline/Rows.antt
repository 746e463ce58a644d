-- ===== src/Pipeline/Rows.antt =====
-- The rows of api/app/models/pipeline.py with those of custom action types, and the stage kinds.
use configurable_crm.Prelude.{ℕ, String, Bool, true, false, Option, Integer}

pub data StageKind : Type 0 where
  initial active won lost : StageKind

pub record Stage : Type 0 where
  pub id : ℕ
  pub kind : StageKind
  pub label : String
  pub color : String
  pub sort_order : ℕ
  pub is_archived : Bool

pub record LostReason : Type 0 where
  pub id : ℕ
  pub label : String
  pub sort_order : ℕ
  pub is_default : Bool
  pub is_archived : Bool

pub record CallDisposition : Type 0 where
  pub id : ℕ
  pub label : String
  pub is_default : Bool
  pub is_system : Bool
  pub is_archived : Bool
  pub sort_order : ℕ

pub data ActionDirection : Type 0 where
  inbound outbound information : ActionDirection

pub record CustomActionType : Type 0 where
  pub id : ℕ
  pub code : ℕ
  pub name : String
  pub icon : Option String
  pub score : Integer
  pub direction : ActionDirection
  pub description : Option String
  pub allow_predated : Bool
  pub is_archived : Bool

-- A field of a custom action's form. The field that every form starts with is a text.
pub record ActionField : Type 0 where
  pub action_type_id : ℕ
  pub key : String
  pub label : String
  pub is_required : Bool
  pub sort_order : ℕ

-- A lead in such a stage is history, not pipeline.
unfoldable pub is_closed : StageKind → Bool
is_closed won = true
is_closed lost = true
is_closed initial = false
is_closed active = false
