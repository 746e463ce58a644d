-- ===== src/Pipeline/Stages.antt =====
-- The stages of `PipelineService` (api/app/services/pipeline.py). A new row's key is a parameter.
use configurable_crm.Prelude.{
  ℕ, suc, max, String, Bool, true, false, not, ◌&&◌, ◌||◌, Option, none, some, List, [], ◌∷◌, ◌++◌,
  ◌==◌, ltb, keep, sort_by, str_eq, text_before, if◌then◌else◌,
}
use configurable_crm.Prelude.Table.{find, update}
use configurable_crm.Prelude.Positions.{place_each}
use configurable_crm.Errors.{
  stage_cardinality, unknown_stage, stage_not_reorderable, Result, ok, raise, raise_if, not_found,
  conflict, unprocessable, ◌>>=◌, ◌>>◌,
}
use configurable_crm.Pipeline.Rows.{Stage, StageKind, active}
use configurable_crm.Pipeline.Service.{
  max_stage_label, Texts, Taxonomy, or_keep, valid_label, checked_label,
}

abbrev pub stage_key : Stage → ℕ
stage_key x = x.id

abbrev pub is_active_kind : StageKind → Bool
is_active_kind active = true
is_active_kind _ = false

-- `list_stages`, by position and then by label.
unfoldable pub list_stages : Bool → Taxonomy → List Stage
unfolding sort_by
list_stages include_archived t =
    sort_by
      (λ (a : Stage) (b : Stage).
        ltb a.sort_order b.sort_order
        || (a.sort_order == b.sort_order && text_before a.label b.label))
      (keep (λ (x : Stage). include_archived || not x.is_archived) t.stages)

unfoldable pub get_stage : ℕ → Taxonomy → Result Stage
get_stage i t = elim (find stage_key i t.stages) [ none ↦ raise not_found | some x ↦ ok x ]

-- `coalesce(max(sort_order), -1) + 1`
unfoldable pub next_stage_order : List Stage → ℕ
next_stage_order [] = 0
next_stage_order (x ∷ xs) = max (suc x.sort_order) (next_stage_order xs)

unfoldable pub archive_stage : ℕ → Taxonomy → Result Taxonomy
unfolding get_stage
archive_stage i t = do
  x ← get_stage i t
  raise_if (not (is_active_kind x.kind)) (conflict stage_cardinality)
  ok (record t { stages = update stage_key i (λ x. record x { is_archived = true }) t.stages })

-- The checks of `reorder_stages`, against the live stages.
unfoldable pub check_order : List ℕ → List Stage → Result (Unit {0})
check_order [] live = ok tt
check_order (i ∷ ids) live = elim (find stage_key i live) [
  | none ↦ raise (unprocessable unknown_stage)
  | some x ↦
      if not (is_active_kind x.kind)
      then raise (unprocessable stage_not_reorderable)
      else check_order ids live
]

abbrev pub set_order : ℕ → Stage → Stage
set_order position x = record x { sort_order = position }

unfoldable pub reorder_stages : List ℕ → Taxonomy → Result Taxonomy
unfolding check_order place_each
reorder_stages ids t = do
  check_order ids (keep (λ (x : Stage). not x.is_archived) t.stages)
  ok (record t { stages = place_each stage_key set_order 0 ids t.stages })

module _ (python : Texts) where
  unfoldable pub create_stage : ℕ → String → Option String → Taxonomy → Result Taxonomy
  unfolding valid_label next_stage_order
  create_stage id label color t = do
    name ← valid_label python max_stage_label label
    let row : Stage = record {
      id = id;
      kind = active;
      label = name;
      color = (elim color [ none ↦ "#6b7280" | some c ↦ if str_eq c "" then "#6b7280" else c ]);
      sort_order = next_stage_order t.stages;
      is_archived = false;
    }
    ok (record t { stages = t.stages ++ row ∷ [] })

  unfoldable pub update_stage : ℕ → Option String → Option String → Taxonomy → Result Taxonomy
  unfolding get_stage checked_label
  update_stage i label color t = do
    get_stage i t
    name ← checked_label python max_stage_label label
    ok (record t {
      stages =
          update stage_key i
            (λ x. record x { label = or_keep name x.label; color = or_keep color x.color })
            t.stages;
    })
