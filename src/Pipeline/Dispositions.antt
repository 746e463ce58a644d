-- ===== src/Pipeline/Dispositions.antt =====
-- `DispositionService` (api/app/services/pipeline.py). A new row's key is a parameter.
use configurable_crm.Prelude.{
  ℕ, String, true, false, not, ◌&&◌, Option, none, some, [], ◌∷◌, ◌++◌, map, ◌==◌, keep, length,
  if◌then◌else◌,
}
use configurable_crm.Prelude.Table.{find, update}
use configurable_crm.Errors.{
  system_disposition, disposition_archived, default_disposition, Result, ok, raise, raise_if,
  not_found, conflict, forbidden, ◌>>=◌, ◌>>◌,
}
use configurable_crm.Pipeline.Rows.{CallDisposition}
use configurable_crm.Pipeline.Service.{Texts, Taxonomy, or_keep, given, valid_label, checked_label}

abbrev pub disposition_key : CallDisposition → ℕ
disposition_key x = x.id

unfoldable pub get_disposition : ℕ → Taxonomy → Result CallDisposition
get_disposition i t = elim (find disposition_key i t.dispositions) [
  | none ↦ raise not_found
  | some x ↦ ok x
]

abbrev pub clear_default : ℕ → CallDisposition → CallDisposition
clear_default i x =
    if not x.is_archived && x.is_default && not (x.id == i)
    then record x { is_default = false }
    else x

-- `set_default`: the other live defaults are cleared, then this one is set.
unfoldable pub set_default : ℕ → Taxonomy → Result Taxonomy
set_default i t = elim (find disposition_key i t.dispositions) [
  | none ↦ raise not_found
  | some d ↦ do
    raise_if d.is_archived (conflict disposition_archived)
    ok (record t {
      dispositions =
          update disposition_key i (λ x. record x { is_default = true })
            (map (clear_default i) t.dispositions);
    })
]

unfoldable pub archive_disposition : ℕ → Taxonomy → Result Taxonomy
archive_disposition i t = elim (find disposition_key i t.dispositions) [
  | none ↦ raise not_found
  | some d ↦ do
    raise_if d.is_default (conflict default_disposition)
    ok (record t {
      dispositions = update disposition_key i (λ x. record x { is_archived = true }) t.dispositions;
    })
]

module _ (python : Texts) where
  unfoldable pub create_disposition : ℕ → String → Taxonomy → Result Taxonomy
  unfolding valid_label
  create_disposition id label t = do
    name ← valid_label python 80 label
    let row : CallDisposition = record {
      id = id;
      label = name;
      is_default = false;
      is_system = false;
      is_archived = false;
      sort_order = length (keep (λ (x : CallDisposition). not x.is_archived) t.dispositions);
    }
    ok (record t { dispositions = t.dispositions ++ row ∷ [] })

  unfoldable pub update_disposition : ℕ → Option String → Option ℕ → Taxonomy → Result Taxonomy
  unfolding get_disposition checked_label
  update_disposition i label order t = do
    d ← get_disposition i t
    raise_if (d.is_system && given label) (forbidden system_disposition)
    name ← checked_label python 80 label
    ok (record t {
      dispositions =
          update disposition_key i
            (λ x. record x {
              label = or_keep name x.label;
              sort_order = or_keep order x.sort_order;
            })
            t.dispositions;
    })
