-- ===== src/Undo/Roundtrip.antt =====
-- An edit and its undo: every target of a lead holds again what it held.
use configurable_crm.Prelude.{
  ℕ, String, false, ◌||◌, List, [], ◌∷◌, ◌≡◌, inl, inr, refl, sym, ap, ◌∙◌, map, any, any-sort_by,
  arith, Bool-cases, All, All-sort_by,
}
use configurable_crm.Timeline.{Lead, Ledger, Action, ActionWriter, FieldDelta}
use configurable_crm.Undo.Plan.{
  Target, target_eq, value_eq, current_value, Entry, collapse, Reversal, reversal_of, plan_for,
}
use configurable_crm.Undo.Service.{apply_reversal, apply_reversals, revert_lead}
use configurable_crm.Undo.Values.{
  target_eq_iff, value_eq_refl, Fits, current_value-Fits, apply_reversal-current,
  record_field_changes-current,
}
use configurable_crm.Undo.Tracks.{Records, Reverts, Expects, Tracks, listed, collapse-Tracks}

-- The reversals put back what the first lead held, in any order and however often.
apply_reversals-restores :
    (w : ActionWriter) (now : ℕ) (first : Lead) (rs : List Reversal) (lead : Lead)
    (deltas : List FieldDelta) (l : Ledger) (t : Target)
    → All (λ (r : Reversal). r.revert_to ≡ current_value first r.target) rs
    → (any (λ (r : Reversal). target_eq r.target t) rs ≡ false
        → current_value lead t ≡ current_value first t)
    → current_value (apply_reversals w now rs lead deltas l).0 t ≡ current_value first t
unfolding apply_reversals
apply_reversals-restores w now first [] lead deltas l t all untouched = untouched refl
apply_reversals-restores w now first (r ∷ rs) lead deltas l t (h, all) untouched =
    let step = apply_reversal w now r lead deltas l in
    let fit : Fits r.target r.revert_to = rw h (current_value-Fits first r.target) in
    let moved = apply_reversal-current w now lead deltas l r t fit in
    apply_reversals-restores w now first rs step.0 step.1 step.2 t all (λ absent.
      elim (Bool-cases (target_eq r.target t)) [
        | inl here ↦
            ground
              (arith, moved, here, h, ap (current_value first) ((target_eq_iff r.target t).0 here))
        | inr other ↦ ground (arith, moved, other, untouched (ground (arith, other, absent)))
      ])

module _ (labels : List (String × String)) (first last : Lead) (actions : List Action)
    (recorded : Records labels first actions last) where
  entries : List Entry
  entries = collapse labels actions []

  tracked : Tracks first last entries
  unfolding entries
  tracked =
      collapse-Tracks labels first first last actions [] recorded
        record { once = tt; reverts = tt; expects = tt; kept = λ t absent. refl }

  reversals-Reverts :
      (es : List Entry)
      → Reverts first es
      → All
          (λ (r : Reversal). r.revert_to ≡ current_value first r.target)
          (map (reversal_of last) es)
  unfolding reversal_of
  reversals-Reverts [] all = tt
  reversals-Reverts (e ∷ es) (h, all) = (h, reversals-Reverts es all)

  reversals-listed :
      (es : List Entry) (t : Target)
      → any (λ (r : Reversal). target_eq r.target t) (map (reversal_of last) es) ≡ listed t es
  unfolding reversal_of
  reversals-listed [] t = refl
  reversals-listed (e ∷ es) t = ap (λ b. target_eq e.target t || b) (reversals-listed es t)

  reversals-unconflicted :
      (es : List Entry)
      → Expects last es
      → any (λ (r : Reversal). r.conflicted) (map (reversal_of last) es) ≡ false
  unfolding reversal_of
  reversals-unconflicted [] all = refl
  reversals-unconflicted (e ∷ es) (h, all) = ground (
    arith,
    ap (value_eq (current_value last e.target)) h,
    value_eq_refl (current_value last e.target),
    reversals-unconflicted es all,
  )

  restored :
      (w : ActionWriter) (now : ℕ) (l : Ledger) (t : Target)
      → current_value (revert_lead w now (plan_for last actions labels) last l).0 t
        ≡ current_value first t
  unfolding revert_lead plan_for entries
  restored w now l t =
      let rs = plan_for last actions labels in
      let applied = apply_reversals w now rs last [] l in
      let same =
        any-sort_by _ (λ (r : Reversal). target_eq r.target t) (map (reversal_of last) entries) in
      record_field_changes-current w now applied.0 applied.1 applied.2 t
      ∙ apply_reversals-restores w now first rs last [] l t
          (All-sort_by (λ (r : Reversal). r.revert_to ≡ current_value first r.target) _
            (map (reversal_of last) entries) (reversals-Reverts entries tracked.reverts))
          (λ absent. tracked.kept t (sym (reversals-listed entries t) ∙ sym same ∙ absent))

  -- If the actions of a changeset record how a lead went from what it was to what it is, each with
  -- its target and the values before and after, then the plan has no conflict, and applying it leaves
  -- every field, the stage, the assignee and the rating as they were before the changeset.
  pub revert_lead-plan_for :
      (any (λ (r : Reversal). r.conflicted) (plan_for last actions labels) ≡ false)
      × ((w : ActionWriter) (now : ℕ) (l : Ledger) (t : Target)
          → current_value (revert_lead w now (plan_for last actions labels) last l).0 t
            ≡ current_value first t)
  unfolding plan_for entries
  revert_lead-plan_for = (
    any-sort_by _ (λ (r : Reversal). r.conflicted) (map (reversal_of last) entries)
        ∙ reversals-unconflicted entries tracked.expects,
    restored,
  )
