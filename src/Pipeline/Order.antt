-- ===== src/Pipeline/Order.antt =====
-- The order of the stages after `reorder_stages`.
use configurable_crm.Prelude.{
  ℕ, true, not, some, List, [], ◌∷◌, ◌≡◌, refl, sym, ◌∙◌, ap, inl, inr, keep, arith, Option-cases,
  All,
}
use mathlib.Core.Option
use configurable_crm.Prelude.Table.{find}
use configurable_crm.Prelude.Positions.{find-place_each, position_of, placed}
use configurable_crm.Errors.{ok, >>=-eq-ok, ok_inj}
use configurable_crm.Pipeline.Rows.{Stage}
use configurable_crm.Pipeline.Service.{Taxonomy}
use configurable_crm.Pipeline.Stages.{
  stage_key, is_active_kind, check_order, set_order, reorder_stages,
}

-- A live stage of the kind `active` has this key.
abbrev pub IsMovable : List Stage → ℕ → Type 0
IsMovable live i = (x : Stage) × (find stage_key i live ≡ some x) × (is_active_kind x.kind ≡ true)

check_order-IsMovable :
    (ids : List ℕ) (live : List Stage) → check_order ids live ≡ ok tt → All (IsMovable live) ids
unfolding check_order
check_order-IsMovable [] live h = tt
check_order-IsMovable (i ∷ ids) live h = elim (Option-cases (find stage_key i live)) [
  | inl absent ↦ absurd (ground (arith, absent, h))
  | inr (x, here) ↦
      ((x, here, ground (arith, here, h)), check_order-IsMovable ids live (ground (arith, here, h)))
]

-- A reordering that succeeds names live active stages alone, and gives each of them its last position
-- in the order, from 0 on; every other stage, and every other column, stays as it was.
pub reorder_stages-placed :
    (ids : List ℕ) (t u : Taxonomy)
    → reorder_stages ids t ≡ ok u
    → All (IsMovable (keep (λ (x : Stage). not x.is_archived) t.stages)) ids
      × ((j : ℕ)
          → find stage_key j u.stages
            ≡ Option.map (placed set_order (position_of 0 j ids)) (find stage_key j t.stages))
unfolding reorder_stages
reorder_stages-placed ids t u h =
    let live = keep (λ (x : Stage). not x.is_archived) t.stages in
    let (_, checked, e) = >>=-eq-ok (check_order ids live) (λ _. _) h in
    (
      check_order-IsMovable ids live checked,
      λ j.
          ap (λ (v : Taxonomy). find stage_key j v.stages) (sym (ok_inj e))
          ∙ find-place_each stage_key set_order (λ _ _. refl) (λ _ _ _. refl) 0 j ids t.stages,
    )
