-- ===== src/Undo/Preview.antt =====
-- `UndoService.preview_undo` (api/app/services/undo.py): the plans of a changeset's leads.
use configurable_crm.Prelude.{
  ℕ, String, Bool, true, false, ◌&&◌, ◌||◌, Option, none, some, List, [], ◌∷◌, ◌++◌, ◌==◌, ltb,
  keep, any, contains, sort_by, text_before, if◌then◌else◌,
}
use configurable_crm.Prelude.Table.{find}
use configurable_crm.Permissions.Projection.{FieldGrants}
use configurable_crm.Timeline.{
  Lead, Action, Ledger, Changeset, SystemActionKind, field_change, stage_change, assignment_change,
  rating_change,
}
use configurable_crm.Undo.Plan.{Reversal, plan_for}

pub data UndoOutcome : Type 0 where
  reversible conflicted already_reversed deleted : UndoOutcome

pub record LeadUndoPlan : Type 0 where
  pub lead_id : ℕ
  pub identity_value : String
  pub outcome : UndoOutcome
  pub reversals : List Reversal

-- The tables, with the keys and labels of the workspace's fields.
pub record Store : Type 0 where
  pub leads : List Lead
  pub ledger : Ledger
  pub labels : List (String × String)

-- What the service is constructed with.
pub record Caller : Type 0 where
  pub actor_id : Option ℕ
  pub grants : FieldGrants
  pub visible : List ℕ
  pub sees_all : Bool

pub record UndoReport : Type 0 where
  pub undo_changeset_id : ℕ
  pub undone_changeset_id : ℕ
  pub leads_reverted : ℕ
  pub leads_skipped : ℕ
  pub skipped : List LeadUndoPlan

abbrev pub changeset_key : Changeset → ℕ
changeset_key c = c.id

abbrev pub lead_key : Lead → ℕ
lead_key l = l.id

abbrev pub is_reversible_kind : SystemActionKind → Bool
is_reversible_kind field_change = true
is_reversible_kind stage_change = true
is_reversible_kind assignment_change = true
is_reversible_kind rating_change = true
is_reversible_kind _ = false

-- `_actions_of`: oldest first. Actions of one instant stay in the order in which they were written.
unfoldable pub actions_of : ℕ → List Action → List Action
unfolding sort_by
actions_of changeset actions =
    sort_by (λ (a : Action) (b : Action). ltb a.performed_at b.performed_at)
      (keep (λ (a : Action). a.changeset_id == changeset && is_reversible_kind a.kind) actions)

-- The keys of `by_lead`: the leads in the order of their first action.
unfoldable pub lead_ids_of : List Action → List ℕ → List ℕ
lead_ids_of [] seen = seen
lead_ids_of (a ∷ rest) seen =
    lead_ids_of rest (if contains seen a.lead_id then seen else seen ++ a.lead_id ∷ [])

-- The visibility rule of `_leads_by_id`.
abbrev pub can_see : Caller → Lead → Bool
can_see by lead =
    by.sees_all || (elim lead.assignee_id [ none ↦ true | some m ↦ contains by.visible m ])

abbrev pub is_some {ℓ} : {A : Type ℓ} → Option A → Bool
is_some none = false
is_some (some a) = true

unfoldable pub outcome_of : Changeset → Lead → List Reversal → UndoOutcome
outcome_of changeset lead reversals =
    if changeset.is_undone
    then already_reversed
    else if is_some lead.deleted_at
    then deleted
    else if any (λ (r : Reversal). r.conflicted) reversals
    then conflicted
    else reversible

unfoldable pub plan_of_lead : Changeset → Lead → List Action → List (String × String) → LeadUndoPlan
unfolding outcome_of plan_for
plan_of_lead changeset lead actions labels =
    let reversals = plan_for lead (keep (λ (a : Action). a.lead_id == lead.id) actions) labels in
    record {
      lead_id = lead.id;
      identity_value = lead.identity_value;
      outcome = outcome_of changeset lead reversals;
      reversals = reversals;
    }

-- The loop of `preview_undo`: a lead that is gone or that the caller may not see has no plan.
unfoldable pub plans_of : Caller → Changeset → List Action → Store → List ℕ → List LeadUndoPlan
unfolding plan_of_lead
plans_of by changeset actions s [] = []
plans_of by changeset actions s (i ∷ ids) =
    let rest = plans_of by changeset actions s ids in
    elim (find lead_key i s.leads) [
      | none ↦ rest
      | some lead ↦
          if can_see by lead then plan_of_lead changeset lead actions s.labels ∷ rest else rest
    ]

-- `preview_undo`, for a changeset that is there.
unfoldable pub preview : Caller → Changeset → Store → List LeadUndoPlan
unfolding actions_of lead_ids_of plans_of sort_by
preview by changeset s =
    let actions = actions_of changeset.id s.ledger.actions in
    sort_by (λ (a : LeadUndoPlan) (b : LeadUndoPlan). text_before a.identity_value b.identity_value)
      (plans_of by changeset actions s (lead_ids_of actions []))

abbrev pub is_reversible : LeadUndoPlan → Bool
is_reversible p = elim p.outcome [ reversible ↦ true | _ ↦ false ]

abbrev pub is_conflicted : LeadUndoPlan → Bool
is_conflicted p = elim p.outcome [ conflicted ↦ true | _ ↦ false ]
