-- ===== src/Undo/Safety.antt =====
-- An undo happens once, and clobbers nothing.
use configurable_crm.Prelude.{
  ◌⊎◌, ℕ, Bool, true, false, not, ◌&&◌, Option, none, some, List, [], ◌∷◌, ◌++◌, ◌≡◌, inl, inr,
  refl, sym, ap, ◌∙◌, ◌==◌, keep, any, length, ltb, if◌then◌else◌, arith, Option-cases,
}
use configurable_crm.Prelude.Table.{find, update, find-update, find-append, find-key}
use configurable_crm.Errors.{already_undone, ok, raise, conflict}
use configurable_crm.Timeline.{
  Action, Lead, Changeset, open_changeset, single_edit, bulk_edit, undid,
}
use configurable_crm.Undo.Conflicts.{HoldsAnother, plan_for-conflicted}
use configurable_crm.Undo.Preview.{
  outcome_of, Store, Caller, LeadUndoPlan, UndoReport, changeset_key, lead_key, can_see,
  is_reversible, is_conflicted, plan_of_lead, preview, actions_of,
}
use configurable_crm.Undo.Service.{apply_plans, reverse_plans, mark_undone, mark_undo_of, undo}
use configurable_crm.Undo.Kept.{apply_plans-changesets, find-apply_plans, preview-unsafe}

-- What a successful undo found, and what it did.
undo-eq-ok :
    (by : Caller) (now i : ℕ) (skip : Bool) (s t : Store) (report : UndoReport)
    → undo by now i skip s ≡ ok (t, report)
    → (c : Changeset) × (find changeset_key i s.ledger.changesets ≡ some c)
      × (c.is_undone ≡ false)
      × ((any is_conflicted (preview by c s) && not skip) ≡ false)
      × ((t, report)
          ≡ reverse_plans by now c (preview by c s) (keep is_reversible (preview by c s)) s)
unfolding undo
undo-eq-ok by now i skip s t report h =
    elim (Option-cases (find changeset_key i s.ledger.changesets)) [
      | inl absent ↦ absurd (ground (arith, absent, h))
      | inr (c, here) ↦
          (c, here, ground (arith, here, h), ground (arith, here, h), ground (arith, here, h))
    ]

-- A lead that the caller may not see, or whose plan is not reversible, is left as it is.
undo-irreversible_kept :
    (by : Caller) (now i : ℕ) (skip : Bool) (s t : Store) (report : UndoReport) (c : Changeset)
    (j : ℕ) (lead : Lead)
    → undo by now i skip s ≡ ok (t, report)
    → find changeset_key i s.ledger.changesets ≡ some c
    → find lead_key j s.leads ≡ some lead
    → (can_see by lead
        && is_reversible (plan_of_lead c lead (actions_of c.id s.ledger.actions) s.labels))
      ≡ false
    → (find lead_key j t.leads ≡ some lead)
      × (skip ≡ false → any is_conflicted (preview by c s) ≡ false)
unfolding reverse_plans open_changeset
undo-irreversible_kept by now i skip s t report c j lead h there here unsafe =
    let (d, found, _, calm, e) = undo-eq-ok by now i skip s t report h in
    let same : d ≡ c =
      ap (λ (o : Option Changeset). elim o [ none ↦ d | some y ↦ y ]) (sym found ∙ there) in
    let unsafe' =
      ap
        (λ (x : Changeset).
          can_see by lead
          && is_reversible (plan_of_lead x lead (actions_of x.id s.ledger.actions) s.labels))
        same
      ∙ unsafe in
    let absent = preview-unsafe by d s j lead here unsafe' in
    (
      ap (λ (r : Store × UndoReport). find lead_key j r.0.leads) e
          ∙ find-apply_plans _ now j (keep is_reversible (preview by d s)) s.leads _ absent
          ∙ here,
      λ no_skip.
          ap (λ x. any is_conflicted (preview by x s)) (sym same) ∙ ground (arith, calm, no_skip),
    )

-- The caller may not see the lead, it was deleted, or a target holds another value than the last of the
-- changeset's actions on the lead gave it.
abbrev pub IsUnsafe : Caller → Changeset → Store → Lead → Type 0
IsUnsafe by c s lead =
    (can_see by lead ≡ false)
    ⊎ ((at : ℕ) × (lead.deleted_at ≡ some at))
    ⊎ HoldsAnother s.labels lead
        (keep (λ (a : Action). a.lead_id == lead.id) (actions_of c.id s.ledger.actions))

unsafe-irreversible :
    (by : Caller) (c : Changeset) (s : Store) (lead : Lead)
    → IsUnsafe by c s lead
    → (can_see by lead
        && is_reversible (plan_of_lead c lead (actions_of c.id s.ledger.actions) s.labels))
      ≡ false
unfolding plan_of_lead outcome_of
unsafe-irreversible by c s lead (inl hidden) = ground (arith, hidden)
unsafe-irreversible by c s lead (inr (inl (at, gone))) = ground (arith, gone)
unsafe-irreversible by c s lead (inr (inr other)) =
    let about = keep (λ (a : Action). a.lead_id == lead.id) (actions_of c.id s.ledger.actions) in
    ground (arith, plan_for-conflicted s.labels lead about other)

-- Whatever becomes of the other leads of the changeset, and also where conflicts are skipped: an undo
-- that succeeds leaves a lead as it is if the caller may not see it, if it was deleted, or if a target
-- holds another value than the last of the changeset's actions on the lead gave it. Without the skip, it
-- succeeds only if no plan has a conflict.
pub undo-unsafe_kept :
    (by : Caller) (now i : ℕ) (skip : Bool) (s t : Store) (report : UndoReport) (c : Changeset)
    (j : ℕ) (lead : Lead)
    → undo by now i skip s ≡ ok (t, report)
    → find changeset_key i s.ledger.changesets ≡ some c
    → find lead_key j s.leads ≡ some lead
    → IsUnsafe by c s lead
    → (find lead_key j t.leads ≡ some lead)
      × (skip ≡ false → any is_conflicted (preview by c s) ≡ false)
undo-unsafe_kept by now i skip s t report c j lead h there here unsafe =
    undo-irreversible_kept by now i skip s t report c j lead h there here
      (unsafe-irreversible by c s lead unsafe)

-- A row that is there is there after another is appended and one is marked as an undo.
appended_row :
    (i n k : ℕ) (rows : List Changeset) (row c : Changeset)
    → find changeset_key i rows ≡ some c
    → find changeset_key i (update changeset_key n (mark_undo_of k) (rows ++ row ∷ []))
      ≡ some (if n == i then mark_undo_of k c else c)
appended_row i n k rows row c found = ground (
  arith,
  found,
  find-append changeset_key i rows row,
  find-update changeset_key n i (mark_undo_of k) (rows ++ row ∷ []) (λ _ e. e),
)

marked_in :
    (i now : ℕ) (who : Option ℕ) (rows : List Changeset) (d : Changeset)
    → find changeset_key i rows ≡ some d
    → find changeset_key i (update changeset_key i (mark_undone now who) rows)
      ≡ some (mark_undone now who d)
marked_in i now who rows d found =
    ground (arith, found, find-update changeset_key i i (mark_undone now who) rows (λ _ e. e))

-- The changeset's row after the writes of an undo.
marked_row :
    (by : Caller) (now i : ℕ) (c : Changeset) (s : Store) (plans applicable : List LeadUndoPlan)
    → find changeset_key i s.ledger.changesets ≡ some c
    → (d : Changeset) × (find changeset_key i
          (reverse_plans by now c plans applicable s).0.ledger.changesets
        ≡ some d)
      × (d.is_undone ≡ true)
unfolding reverse_plans open_changeset
marked_row by now i c s plans applicable found =
    let key = find-key changeset_key i s.ledger.changesets c found in
    let n = length applicable in
    let source = if ltb 1 n then bulk_edit else single_edit in
    let (w, l1) = open_changeset by.actor_id source (undid c.summary) n s.ledger in
    let l2 = record l1 {
      changesets = update changeset_key w.changeset_id (mark_undo_of c.id) l1.changesets;
    } in
    let rows = (apply_plans w now applicable s.leads l2).1.changesets in
    let grown = appended_row i w.changeset_id c.id s.ledger.changesets _ c found in
    let d = if w.changeset_id == i then mark_undo_of c.id c else c in
    let there : find changeset_key i rows ≡ some d =
      ap (find changeset_key i) (apply_plans-changesets w now applicable s.leads l2) ∙ grown in
    (
      mark_undone now by.actor_id d,
      ap (λ k. find changeset_key i (update changeset_key k (mark_undone now by.actor_id) rows)) key
          ∙ marked_in i now by.actor_id rows d there,
      refl,
    )

-- After an undo that succeeds the changeset is marked, and whoever tries to undo it again, at any
-- time and with or without the skip, gets `already_undone`.
pub undo-twice :
    (by by' : Caller) (now now' i : ℕ) (skip skip' : Bool) (s t : Store) (report : UndoReport)
    → undo by now i skip s ≡ ok (t, report)
    → undo by' now' i skip' t ≡ raise (conflict already_undone)
unfolding undo
undo-twice by by' now now' i skip skip' s t report h =
    let (c, found, _, _, e) = undo-eq-ok by now i skip s t report h in
    let key = find-key changeset_key i s.ledger.changesets c found in
    let (d, there, marked) =
      marked_row by now i c s (preview by c s) (keep is_reversible (preview by c s)) found in
    let at : find changeset_key i t.ledger.changesets ≡ some d =
      ap (λ (r : Store × UndoReport). find changeset_key i r.0.ledger.changesets) e ∙ there in
    ground (arith, at, marked)
