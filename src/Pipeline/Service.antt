-- ===== src/Pipeline/Service.antt =====
-- What the services of api/app/services/pipeline.py share: the tables of a workspace's taxonomy and the
-- check of labels.
use configurable_crm.Prelude.{
  ℕ, String, Bool, true, false, ◌&&◌, Option, none, some, List, leb, if◌then◌else◌,
}
use configurable_crm.Errors.{invalid_label, Result, ok, raise, unprocessable, ◌>>=◌}
use configurable_crm.Pipeline.Rows.{
  Stage, LostReason, CallDisposition, CustomActionType, ActionField,
}

abbrev pub max_stage_label : ℕ
max_stage_label = 28

-- Python's `str.strip`, and `len` of a text.
pub record Texts : Type 0 where
  pub strip : String → String
  pub chars : String → ℕ

pub record Taxonomy : Type 0 where
  pub stages : List Stage
  pub lost_reasons : List LostReason
  pub dispositions : List CallDisposition
  pub action_types : List CustomActionType
  pub action_fields : List ActionField

abbrev pub or_keep {ℓ} : {A : Type ℓ} → Option A → A → A
or_keep none old = old
or_keep (some new) old = new

abbrev pub given {ℓ} : {A : Type ℓ} → Option A → Bool
given none = false
given (some a) = true

module _ (python : Texts) where
  -- A stripped label of 1 to `limit` characters.
  unfoldable pub valid_label : ℕ → String → Result String
  valid_label limit label =
      let stripped = python.strip label in
      let n = python.chars stripped in
      if leb 1 n && leb n limit then ok stripped else raise (unprocessable invalid_label)

  -- `if label is not None: … validate …`
  unfoldable pub checked_label : ℕ → Option String → Result (Option String)
  unfolding valid_label
  checked_label limit none = ok none
  checked_label limit (some label) = do name ← valid_label limit label; ok (some name)
