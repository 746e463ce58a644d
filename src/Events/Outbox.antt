-- ===== src/Events/Outbox.antt =====
-- The rows of the outbox and of its subscribers (api/app/models/integration.py), and `publish`
-- (api/app/events/outbox.py), which queues one row for each interested endpoint.
use configurable_crm.Prelude.{
  ℕ, suc, String, Bool, ◌||◌, Option, none, List, [], ◌∷◌, str_eq, keep, any,
}
use configurable_crm.Json.{Json}
use configurable_crm.Actions.{SystemActionKind, Payload}

pub data OutboxStatus : Type 0 where
  pending delivering delivered failed dead : OutboxStatus

pub record WebhookEndpoint : Type 0 where
  pub id : ℕ
  pub url : String
  pub secret : String
  pub events : List String
  pub permission_template_id : ℕ
  pub is_active : Bool

-- The `data` of an event. `values` is the lead's blob, not projected yet.
pub record EventData : Type 0 where
  pub lead_id : ℕ
  pub identity_value : String
  pub stage_id : Option ℕ
  pub assignee_id : Option ℕ
  pub actor_id : Option ℕ
  pub changeset_id : ℕ
  pub action_kind : SystemActionKind
  pub values : List (String × Json)
  pub payload : Payload

pub record OutboxEvent : Type 0 where
  pub id : ℕ
  pub event : String
  pub event_id : ℕ
  pub endpoint_id : ℕ
  pub payload : EventData
  pub occurred_at : ℕ
  pub status : OutboxStatus
  pub attempts : ℕ
  pub next_attempt_at : ℕ
  pub claimed_at : Option ℕ
  pub last_error : Option String
  pub last_status_code : Option ℕ
  pub delivered_at : Option ℕ

abbrev is_empty {ℓ} : {A : Type ℓ} → List A → Bool
is_empty [] = Bool.true
is_empty (x ∷ xs) = Bool.false

-- An empty subscription list means every event.
unfoldable pub wants : String → WebhookEndpoint → Bool
wants event e = is_empty e.events || any (λ name. str_eq event name) e.events

-- The columns' defaults: a fresh row is pending, never attempted, and due when it occurred.
unfoldable pub queued_row : String → EventData → ℕ → ℕ → ℕ → WebhookEndpoint → OutboxEvent
queued_row event payload occurred_at id event_id e = record {
  id = id;
  event = event;
  event_id = event_id;
  endpoint_id = e.id;
  payload = payload;
  occurred_at = occurred_at;
  status = pending;
  attempts = 0;
  next_attempt_at = occurred_at;
  claimed_at = none;
  last_error = none;
  last_status_code = none;
  delivered_at = none;
}

-- One row for each endpoint, the `n`-th with the identifier `draw n` of `uuid.uuid4()`. Its number
-- stands for the primary key, which the database generates.
unfoldable pub queue_rows :
    (ℕ → ℕ) → ℕ → String → EventData → ℕ → List WebhookEndpoint → List OutboxEvent
queue_rows draw n event payload at [] = []
queue_rows draw n event payload at (e ∷ es) =
    queued_row event payload at n (draw n) e ∷ queue_rows draw (suc n) event payload at es

-- The endpoints that `publish` and `ActionWriter._publish` queue for.
unfoldable pub subscribers : String → List WebhookEndpoint → List WebhookEndpoint
unfolding wants
subscribers event endpoints = keep (wants event) endpoints

unfoldable pub active_endpoints : List WebhookEndpoint → List WebhookEndpoint
active_endpoints endpoints = keep (λ e. e.is_active) endpoints

-- `publish`: the queued rows, for an event of `EVENT_NAMES`.
unfoldable pub publish :
    (ℕ → ℕ) → ℕ → String → EventData → ℕ → List WebhookEndpoint → List OutboxEvent
unfolding queue_rows queued_row subscribers active_endpoints
publish draw n event payload at endpoints =
    queue_rows draw n event payload at (subscribers event (active_endpoints endpoints))
