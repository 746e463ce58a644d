-- ===== src/Timeline.antt =====
-- Leads, changesets and timeline actions (api/app/models/lead.py), and `ActionWriter`
-- (api/app/services/actions.py), through which every mutation of a lead is recorded.
use configurable_crm.Prelude.{
  ℕ, ◌+◌, String, Bool, false, Option, none, some, List, [], ◌∷◌, ◌++◌, ltb, length, if◌then◌else◌,
}
use configurable_crm.Json.{Json}
pub use configurable_crm.Actions.{
  SystemActionKind, Payload, lead_created, field_change, stage_change, assignment_change,
  rating_change, note, call_logged, whatsapp_sent, email_sent, sms_sent, task_created,
  task_completed, custom, plain, field_delta, stage_ids, assignee_ids, ratings,
}
use configurable_crm.Events.Outbox.{
  OutboxEvent, WebhookEndpoint, EventData, queue_rows, subscribers, active_endpoints,
}

pub data ChangesetSource : Type 0 where
  single_edit bulk_edit import_source distribution automation intake : ChangesetSource

pub record Lead : Type 0 where
  pub id : ℕ
  pub identity_value : String
  pub values : List (String × Json)
  pub stage_id : Option ℕ
  pub assignee_id : Option ℕ
  pub rating : Option ℕ
  pub lost_reason_id : Option ℕ
  pub last_action_at : Option ℕ
  pub created_at : ℕ
  pub deleted_at : Option ℕ

-- The text of a changeset's summary: a fixed sentence, or one made from a number or a summary.
pub data Summary : Type 0 where
  sentence : String → Summary
  -- "Reassigned n open leads on deactivation"
  reassigned_on_deactivation : ℕ → Summary
  -- "Updated lead s"
  updated_lead : String → Summary
  -- "Created lead s"
  created_lead : String → Summary
  -- "Set a, b on n leads"
  bulk_edited : List String → ℕ → Summary
  -- "Distributed n leads"
  distributed : ℕ → Summary
  -- "Undid: s"
  undid : Summary → Summary

pub record Changeset : Type 0 where
  pub id : ℕ
  pub source : ChangesetSource
  pub actor_id : Option ℕ
  pub summary : Summary
  pub lead_count : ℕ
  pub is_undone : Bool
  pub undone_at : Option ℕ
  pub undone_by_id : Option ℕ
  pub undo_of_id : Option ℕ

pub record Action : Type 0 where
  pub lead_id : ℕ
  pub changeset_id : ℕ
  pub kind : SystemActionKind
  pub actor_id : Option ℕ
  pub payload : Payload
  pub body : Option String
  pub performed_at : ℕ

-- What one transaction writes beside the leads. `draw` is the sequence of identifiers that
-- `uuid.uuid4()` returns, and `drawn` how many of them were taken.
pub record Ledger : Type 0 where
  pub changesets : List Changeset
  pub actions : List Action
  pub endpoints : List WebhookEndpoint
  pub outbox : List OutboxEvent
  pub draw : ℕ → ℕ
  pub drawn : ℕ

-- An `ActionWriter` whose changeset is open.
pub record ActionWriter : Type 0 where
  pub actor_id : Option ℕ
  pub changeset_id : ℕ
  pub endpoints : List WebhookEndpoint

unfoldable pub open_changeset :
    Option ℕ → ChangesetSource → Summary → ℕ → Ledger → ActionWriter × Ledger
unfolding active_endpoints
open_changeset actor source summary lead_count l =
    let id = l.draw l.drawn in
    let row : Changeset = record {
      id = id;
      source = source;
      actor_id = actor;
      summary = summary;
      lead_count = lead_count;
      is_undone = false;
      undone_at = none;
      undone_by_id = none;
      undo_of_id = none;
    } in
    (
      record { actor_id = actor; changeset_id = id; endpoints = active_endpoints l.endpoints },
      record l { changesets = l.changesets ++ row ∷ []; drawn = l.drawn + 1 },
    )

-- `_EVENT_FOR_KIND`
unfoldable pub event_for_kind : SystemActionKind → String
event_for_kind lead_created = "lead.created"
event_for_kind field_change = "lead.field_changed"
event_for_kind stage_change = "lead.stage_changed"
event_for_kind assignment_change = "lead.assigned"
event_for_kind rating_change = "lead.updated"
event_for_kind task_created = "task.created"
event_for_kind task_completed = "task.completed"
event_for_kind _ = "action.created"

-- `_publish`: one outbox row for each subscribed endpoint of the writer.
unfoldable pub publish_action : ActionWriter → Lead → Action → Ledger → Ledger
unfolding event_for_kind subscribers queue_rows
publish_action w lead action l =
    let event = event_for_kind action.kind in
    let payload : EventData = record {
      lead_id = lead.id;
      identity_value = lead.identity_value;
      stage_id = lead.stage_id;
      assignee_id = lead.assignee_id;
      actor_id = w.actor_id;
      changeset_id = w.changeset_id;
      action_kind = action.kind;
      values = lead.values;
      payload = action.payload;
    } in
    let rows =
      queue_rows l.draw l.drawn event payload action.performed_at (subscribers event w.endpoints) in
    record l { outbox = l.outbox ++ rows; drawn = l.drawn + length rows }

-- `last_action_at` never moves backwards.
unfoldable pub touch : ℕ → Lead → Lead
touch at lead = elim lead.last_action_at [
  | none ↦ record lead { last_action_at = some at }
  | some last ↦ if ltb last at then record lead { last_action_at = some at } else lead
]

-- `_append`, for the kinds that score nothing: the action, the lead's rollup, the events.
unfoldable pub append_action :
    ActionWriter → ℕ → Lead → SystemActionKind → Payload → Ledger → Lead × Ledger
unfolding publish_action touch
append_action w now lead kind payload l =
    let action : Action = record {
      lead_id = lead.id;
      changeset_id = w.changeset_id;
      kind = kind;
      actor_id = w.actor_id;
      payload = payload;
      body = none;
      performed_at = now;
    } in
    let lead' = touch now lead in
    (lead', publish_action w lead' action (record l { actions = l.actions ++ action ∷ [] }))

unfoldable pub record_created : ActionWriter → ℕ → Lead → Ledger → Lead × Ledger
record_created w now lead l = append_action w now lead lead_created plain l

unfoldable pub record_assignment_change :
    ActionWriter → ℕ → Lead → Option ℕ → Option ℕ → Ledger → Lead × Ledger
record_assignment_change w now lead old new l =
    append_action w now lead assignment_change (assignee_ids old new) l

unfoldable pub record_stage_change :
    ActionWriter → ℕ → Lead → Option ℕ → Option ℕ → Ledger → Lead × Ledger
record_stage_change w now lead old new l =
    append_action w now lead stage_change (stage_ids old new none) l

-- The same with the lost reason of the new stage.
unfoldable pub record_stage_move :
    ActionWriter → ℕ → Lead → Option ℕ → Option ℕ → Option ℕ → Ledger → Lead × Ledger
record_stage_move w now lead old new reason l =
    append_action w now lead stage_change (stage_ids old new reason) l

unfoldable pub record_rating_change :
    ActionWriter → ℕ → Lead → Option ℕ → Option ℕ → Ledger → Lead × Ledger
record_rating_change w now lead old new l =
    append_action w now lead rating_change (ratings old new) l

pub record FieldDelta : Type 0 where
  pub field_key : String
  pub label : String
  pub old : Option Json
  pub new : Option Json

-- One `FIELD_CHANGE` for each delta.
unfoldable pub record_field_changes :
    ActionWriter → ℕ → Lead → List FieldDelta → Ledger → Lead × Ledger
record_field_changes w now lead [] l = (lead, l)
record_field_changes w now lead (d ∷ ds) l =
    let (lead', l') =
      append_action w now lead field_change (field_delta d.field_key d.label d.old d.new) l in
    record_field_changes w now lead' ds l'
