-- ===== src/Undo/Kept.antt =====
-- What an undo leaves alone: other leads, and the changesets that are there.
use configurable_crm.Prelude.{
  ℕ, false, ◌&&◌, Option, none, some, List, [], ◌∷◌, ◌≡◌, inl, inr, refl, sym, ap, ◌∙◌, ◌==◌,
  ==_iff, keep, any, any-keep, any-sort_by, text_before, arith, Bool-cases, Option-cases,
}
use configurable_crm.Prelude.Table.{find, update, find-update, find-key}
use configurable_crm.Timeline.{
  Lead, Ledger, Action, Changeset, ActionWriter, FieldDelta, SystemActionKind, Payload,
  field_change, field_delta, append_action, touch, publish_action, record_field_changes,
  record_stage_change, record_assignment_change, record_rating_change,
}
use configurable_crm.Undo.Plan.{Reversal}
use configurable_crm.Undo.Preview.{
  Store, Caller, LeadUndoPlan, lead_key, can_see, is_reversible, plan_of_lead, plans_of, preview,
  actions_of, lead_ids_of,
}
use configurable_crm.Undo.Service.{apply_reversal, apply_reversals, revert_lead, apply_plans}

-- The key of a lead, and the changesets of a ledger: what no write of an undo's loop changes.
abbrev pub Keeps : Lead → Ledger → Lead → Ledger → Type 0
Keeps lead l lead' l' = (lead'.id ≡ lead.id) × (l'.changesets ≡ l.changesets)

append_action-Keeps :
    (w : ActionWriter) (now : ℕ) (lead : Lead) (k : SystemActionKind) (p : Payload) (l : Ledger)
    → Keeps lead l (append_action w now lead k p l).0 (append_action w now lead k p l).1
unfolding append_action touch publish_action
append_action-Keeps w now lead k p l = (ground arith, refl)

record_field_changes-Keeps :
    (w : ActionWriter) (now : ℕ) (ds : List FieldDelta) (lead : Lead) (l : Ledger)
    → Keeps lead l (record_field_changes w now lead ds l).0 (record_field_changes w now lead ds l).1
unfolding record_field_changes
record_field_changes-Keeps w now [] lead l = (refl, refl)
record_field_changes-Keeps w now (d ∷ ds) lead l =
    let p = field_delta d.field_key d.label d.old d.new in
    let (same, kept) = append_action-Keeps w now lead field_change p l in
    let step = append_action w now lead field_change p l in
    let (same', kept') = record_field_changes-Keeps w now ds step.0 step.1 in
    (same' ∙ same, kept' ∙ kept)

apply_reversal-Keeps :
    (w : ActionWriter) (now : ℕ) (r : Reversal) (lead : Lead) (ds : List FieldDelta) (l : Ledger)
    → Keeps lead l (apply_reversal w now r lead ds l).0 (apply_reversal w now r lead ds l).2
unfolding apply_reversal record_stage_change record_assignment_change record_rating_change
    append_action touch publish_action
apply_reversal-Keeps w now r lead ds l = (ground arith, ground arith)

apply_reversals-Keeps :
    (w : ActionWriter) (now : ℕ) (rs : List Reversal) (lead : Lead) (ds : List FieldDelta)
    (l : Ledger)
    → Keeps lead l (apply_reversals w now rs lead ds l).0 (apply_reversals w now rs lead ds l).2
unfolding apply_reversals
apply_reversals-Keeps w now [] lead ds l = (refl, refl)
apply_reversals-Keeps w now (r ∷ rs) lead ds l =
    let (same, kept) = apply_reversal-Keeps w now r lead ds l in
    let step = apply_reversal w now r lead ds l in
    let (same', kept') = apply_reversals-Keeps w now rs step.0 step.1 step.2 in
    (same' ∙ same, kept' ∙ kept)

revert_lead-Keeps :
    (w : ActionWriter) (now : ℕ) (rs : List Reversal) (lead : Lead) (l : Ledger)
    → Keeps lead l (revert_lead w now rs lead l).0 (revert_lead w now rs lead l).1
unfolding revert_lead
revert_lead-Keeps w now rs lead l =
    let (same, kept) = apply_reversals-Keeps w now rs lead [] l in
    let step = apply_reversals w now rs lead [] l in
    let (same', kept') = record_field_changes-Keeps w now step.1 step.0 step.2 in
    (same' ∙ same, kept' ∙ kept)

module _ (w : ActionWriter) (now : ℕ) where
  pub apply_plans-changesets :
      (ps : List LeadUndoPlan) (leads : List Lead) (l : Ledger)
      → (apply_plans w now ps leads l).1.changesets ≡ l.changesets
  unfolding apply_plans
  apply_plans-changesets [] leads l = refl
  apply_plans-changesets (p ∷ ps) leads l = elim (Option-cases (find lead_key p.lead_id leads)) [
    | inl e ↦ ground (arith, e, apply_plans-changesets ps leads l)
    | inr (lead, e) ↦
        let step = revert_lead w now p.reversals lead l in
        let rest =
          apply_plans-changesets ps (update lead_key p.lead_id (λ _. step.0) leads) step.1 in
        ground (arith, e, rest, revert_lead-Keeps w now p.reversals lead l)
  ]

  pub find-apply_plans :
      (j : ℕ) (ps : List LeadUndoPlan) (leads : List Lead) (l : Ledger)
      → any (λ (p : LeadUndoPlan). p.lead_id == j) ps ≡ false
      → find lead_key j (apply_plans w now ps leads l).0 ≡ find lead_key j leads
  unfolding apply_plans
  find-apply_plans j [] leads l h = refl
  find-apply_plans j (p ∷ ps) leads l h = elim (Option-cases (find lead_key p.lead_id leads)) [
    | inl e ↦ ground (arith, e, find-apply_plans j ps leads l)
    | inr (lead, e) ↦
        let (lead', l') = revert_lead w now p.reversals lead l in
        let (same, _) = revert_lead-Keeps w now p.reversals lead l in
        let key = find-key lead_key p.lead_id leads lead e in
        let rest =
          find-apply_plans j ps (update lead_key p.lead_id (λ _. lead') leads) l' (ground arith) in
        let here = find-update lead_key p.lead_id j (λ _. lead') leads (λ _ _. same ∙ key) in
        ground (arith, e, rest, here)
  ]

-- A lead that the caller may not see, or whose plan is not reversible, has no plan that applies.
plans_of-unsafe :
    (by : Caller) (c : Changeset) (actions : List Action) (s : Store) (j : ℕ) (lead : Lead)
    (ids : List ℕ)
    → find lead_key j s.leads ≡ some lead
    → (can_see by lead && is_reversible (plan_of_lead c lead actions s.labels)) ≡ false
    → any (λ (p : LeadUndoPlan). is_reversible p && p.lead_id == j) (plans_of by c actions s ids)
      ≡ false
unfolding plans_of plan_of_lead
plans_of-unsafe by c actions s j lead [] here h = refl
plans_of-unsafe by c actions s j lead (i ∷ ids) here h =
    let rest = plans_of-unsafe by c actions s j lead ids here h in
    elim (Option-cases (find lead_key i s.leads)) [
      | inl e ↦ ground (arith, e, rest)
      | inr (x, e) ↦
          let key = find-key lead_key i s.leads x e in
          elim (Bool-cases (x.id == j)) [
            | inl same ↦
                let at : i ≡ j = sym key ∙ (==_iff x.id j).0 same in
                let is : x ≡ lead =
                  ap (λ (o : Option Lead). elim o [ none ↦ x | some y ↦ y ])
                    (sym e ∙ ap (λ k. find lead_key k s.leads) at ∙ here) in
                let unsafe : (can_see by x && is_reversible (plan_of_lead c x actions s.labels))
                    ≡ false =
                  ap (λ y. can_see by y && is_reversible (plan_of_lead c y actions s.labels)) is
                  ∙ h in
                ground (arith, e, rest, unsafe)
            | inr other ↦ ground (arith, e, rest, other)
          ]
    ]

pub preview-unsafe :
    (by : Caller) (c : Changeset) (s : Store) (j : ℕ) (lead : Lead)
    → find lead_key j s.leads ≡ some lead
    → (can_see by lead
        && is_reversible (plan_of_lead c lead (actions_of c.id s.ledger.actions) s.labels))
      ≡ false
    → any (λ (p : LeadUndoPlan). p.lead_id == j) (keep is_reversible (preview by c s)) ≡ false
unfolding preview
preview-unsafe by c s j lead here h =
    let actions = actions_of c.id s.ledger.actions in
    any-keep _ is_reversible (preview by c s)
    ∙ any-sort_by
        (λ (a : LeadUndoPlan) (b : LeadUndoPlan). text_before a.identity_value b.identity_value)
        (λ (p : LeadUndoPlan). is_reversible p && p.lead_id == j)
        (plans_of by c actions s (lead_ids_of actions []))
    ∙ plans_of-unsafe by c actions s j lead (lead_ids_of actions []) here h
