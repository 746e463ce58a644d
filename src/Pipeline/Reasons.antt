-- ===== src/Pipeline/Reasons.antt =====
-- The lost reasons of `PipelineService` (api/app/services/pipeline.py). A new row's key is a parameter.
use configurable_crm.Prelude.{
  ℕ, String, true, false, not, Option, none, some, [], ◌∷◌, ◌++◌, leb, keep, length,
}
use configurable_crm.Prelude.Table.{find, update}
use configurable_crm.Errors.{
  lost_reason_limit, Result, ok, raise, raise_if, not_found, conflict, ◌>>=◌, ◌>>◌,
}
use configurable_crm.Pipeline.Rows.{LostReason}
use configurable_crm.Pipeline.Service.{Texts, Taxonomy, or_keep, valid_label, checked_label}

abbrev pub max_lost_reasons : ℕ
max_lost_reasons = 25

abbrev pub reason_key : LostReason → ℕ
reason_key x = x.id

unfoldable pub get_lost_reason : ℕ → Taxonomy → Result LostReason
get_lost_reason i t = elim (find reason_key i t.lost_reasons) [
  | none ↦ raise not_found
  | some x ↦ ok x
]

unfoldable pub archive_lost_reason : ℕ → Taxonomy → Result Taxonomy
archive_lost_reason i t = elim (find reason_key i t.lost_reasons) [
  | none ↦ raise not_found
  | some r ↦ ok (record t {
    lost_reasons = update reason_key i (λ x. record x { is_archived = true }) t.lost_reasons;
  })
]

module _ (python : Texts) where
  unfoldable pub create_lost_reason : ℕ → String → Taxonomy → Result Taxonomy
  unfolding valid_label
  create_lost_reason id label t = do
    name ← valid_label python 80 label
    let live = length (keep (λ (x : LostReason). not x.is_archived) t.lost_reasons)
    raise_if (leb max_lost_reasons live) (conflict lost_reason_limit)
    let row : LostReason = record {
      id = id;
      label = name;
      sort_order = live;
      is_default = false;
      is_archived = false;
    }
    ok (record t { lost_reasons = t.lost_reasons ++ row ∷ [] })

  unfoldable pub update_lost_reason : ℕ → Option String → Option ℕ → Taxonomy → Result Taxonomy
  unfolding get_lost_reason checked_label
  update_lost_reason i label order t = do
    get_lost_reason i t
    name ← checked_label python 80 label
    ok (record t {
      lost_reasons =
          update reason_key i
            (λ x. record x {
              label = or_keep name x.label;
              sort_order = or_keep order x.sort_order;
            })
            t.lost_reasons;
    })
