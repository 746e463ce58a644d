-- ===== src/Pipeline/Requests.antt =====
-- A request to the three services of api/app/services/pipeline.py.
use configurable_crm.Prelude.{ℕ, String, Bool, Option, List, Integer}
use configurable_crm.Errors.{Result}
use configurable_crm.Pipeline.Rows.{ActionDirection}
use configurable_crm.Pipeline.Service.{Texts, Taxonomy}
use configurable_crm.Pipeline.Stages.{create_stage, update_stage, archive_stage, reorder_stages}
use configurable_crm.Pipeline.Reasons.{create_lost_reason, update_lost_reason, archive_lost_reason}
use configurable_crm.Pipeline.Dispositions.{
  create_disposition, update_disposition, set_default, archive_disposition,
}
use configurable_crm.Pipeline.ActionTypes.{create_type, update_type, archive_type}

-- With the key that the database gives to a new row.
pub data Request : Type 0 where
  creating_stage : ℕ → String → Option String → Request
  updating_stage : ℕ → Option String → Option String → Request
  archiving_stage : ℕ → Request
  reordering : List ℕ → Request
  creating_reason : ℕ → String → Request
  updating_reason : ℕ → Option String → Option ℕ → Request
  archiving_reason : ℕ → Request
  creating_disposition : ℕ → String → Request
  updating_disposition : ℕ → Option String → Option ℕ → Request
  setting_default : ℕ → Request
  archiving_disposition : ℕ → Request
  creating_type :
      ℕ → String → Option String → Integer → ActionDirection → Option String → Bool → Request
  updating_type :
      ℕ
      → Option String
      → Option String
      → Option Integer
      → Option ActionDirection
      → Option String
      → Option Bool
      → Request
  archiving_type : ℕ → Request

unfoldable pub perform : Texts → Request → Taxonomy → Result Taxonomy
perform python (creating_stage id label color) t = create_stage python id label color t
perform python (updating_stage i label color) t = update_stage python i label color t
perform python (archiving_stage i) t = archive_stage i t
perform python (reordering ids) t = reorder_stages ids t
perform python (creating_reason id label) t = create_lost_reason python id label t
perform python (updating_reason i label order) t = update_lost_reason python i label order t
perform python (archiving_reason i) t = archive_lost_reason i t
perform python (creating_disposition id label) t = create_disposition python id label t
perform python (updating_disposition i label order) t = update_disposition python i label order t
perform python (setting_default i) t = set_default i t
perform python (archiving_disposition i) t = archive_disposition i t
perform python (creating_type id name icon score direction description predated) t =
    create_type python id name icon score direction description predated t
perform python (updating_type i name icon score direction description predated) t =
    update_type python i name icon score direction description predated t
perform python (archiving_type i) t = archive_type i t
