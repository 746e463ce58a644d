-- ===== src/Leads/Update.antt =====
-- `LeadService` (api/app/services/leads.py): the edit of one lead, and its soft deletion. The search vector
-- is left out.
use configurable_crm.Prelude.{ℕ, String, Bool, false, Option, none, some, ◌==◌, if◌then◌else◌}
use configurable_crm.Prelude.Table.{update}
use configurable_crm.Json.{Json}
use configurable_crm.Errors.{Result, ok, ◌>>=◌, ◌>>◌}
use configurable_crm.Timeline.{
  Lead, Ledger, ActionWriter, single_edit, updated_lead, open_changeset, record_field_changes,
  record_stage_move, record_assignment_change, record_rating_change,
}
use configurable_crm.Undo.Preview.{Caller, lead_key}
use configurable_crm.Leads.Values.{Registry}
use configurable_crm.Leads.Merge.{
  apply_values, Database, Schema, Edit, get_lead, assert_member, open_stage, resolve_lost_reason,
}

abbrev pub is_id : Option ℕ → ℕ → Bool
is_id none i = false
is_id (some j) i = i == j

module _ (db : Database) (w : ActionWriter) (now : ℕ) where
  unfoldable pub move_to : ℕ → Option ℕ → Lead → Ledger → Result (Lead × Ledger)
  unfolding open_stage resolve_lost_reason record_stage_move
  move_to i reason lead l = do
    x ← open_stage i db.stages
    resolved ← resolve_lost_reason x reason db.lost_reasons
    ok (
        record_stage_move w now (record lead { stage_id = some x.id; lost_reason_id = resolved })
          lead.stage_id (some x.id) resolved l)

  unfoldable pub apply_stage : Option ℕ → Option ℕ → Lead → Ledger → Result (Lead × Ledger)
  unfolding move_to
  apply_stage none reason lead l = ok (lead, l)
  apply_stage (some i) reason lead l =
      if is_id lead.stage_id i then ok (lead, l) else move_to i reason lead l

  unfoldable pub give_to : ℕ → Lead → Ledger → Result (Lead × Ledger)
  unfolding assert_member record_assignment_change
  give_to m lead l = do
    assert_member m db.members
    ok (
        record_assignment_change w now (record lead { assignee_id = some m }) lead.assignee_id
          (some m) l)

  unfoldable pub apply_assignee : Option ℕ → Lead → Ledger → Result (Lead × Ledger)
  unfolding give_to
  apply_assignee none lead l = ok (lead, l)
  apply_assignee (some m) lead l =
      if is_id lead.assignee_id m then ok (lead, l) else give_to m lead l

  unfoldable pub apply_rating : Option ℕ → Lead → Ledger → Lead × Ledger
  unfolding record_rating_change
  apply_rating none lead l = (lead, l)
  apply_rating (some n) lead l =
      if is_id lead.rating n
      then (lead, l)
      else record_rating_change w now (record lead { rating = some n }) lead.rating (some n) l

module _ (registry : Registry) (show : Json → String) (schema : Schema) (by : Caller) where
  -- `_apply_update`; the search vector is left out.
  unfoldable pub apply_update :
      Edit → Database → ActionWriter → ℕ → Lead → Ledger → Result (Lead × Ledger)
  unfolding apply_values apply_stage apply_assignee apply_rating record_field_changes
  apply_update edit db w now lead l = do
    (lead1, deltas) ← apply_values registry show schema by edit db.leads lead
    let (lead2, l2) = record_field_changes w now lead1 deltas l
    (lead3, l3) ← apply_stage db w now edit.stage_id edit.lost_reason_id lead2 l2
    (lead4, l4) ← apply_assignee db w now edit.assignee_id lead3 l3
    ok (apply_rating db w now edit.rating lead4 l4)

  unfoldable pub update_lead : ℕ → ℕ → Edit → Database → Result Database
  unfolding get_lead open_changeset apply_update
  update_lead now i edit db = do
    lead ← get_lead by i db.leads
    let (w, opened) =
        open_changeset by.actor_id single_edit (updated_lead lead.identity_value) 1 db.ledger
    (lead', l) ← apply_update edit db w now lead opened
    ok (record db { leads = update lead_key i (λ _. lead') db.leads; ledger = l })

unfoldable pub soft_delete : Caller → ℕ → ℕ → Database → Result Database
unfolding get_lead
soft_delete by now i db = do
  get_lead by i db.leads
  ok (record db { leads = update lead_key i (λ l. record l { deleted_at = some now }) db.leads })
