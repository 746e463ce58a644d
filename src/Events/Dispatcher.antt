-- ===== src/Events/Dispatcher.antt =====
-- Delivery, retry and the dead threshold (api/app/events/dispatcher.py, api/app/events/envelope.py).
-- Times are seconds.
use configurable_crm.Prelude.{
  ℕ, suc, ◌+◌, ◌*◌, ◌^◌, min, String, Bool, true, false, ◌&&◌, Option, none, some, List, [], ◌∷◌,
  map, ltb, leb, keep, contains, take, sort_by, length, if◌then◌else◌, str_eq,
}
use configurable_crm.Prelude.Table.{find, update}
use configurable_crm.Permissions.Projection.{TemplateFieldGrant, load_grants, project_values}
use configurable_crm.Events.Outbox.{
  OutboxStatus, pending, delivering, delivered, failed, dead, WebhookEndpoint, EventData,
  OutboxEvent,
}

abbrev pub max_backoff_minutes : ℕ
max_backoff_minutes = 60

abbrev pub dead_after_attempts : ℕ
dead_after_attempts = 8

abbrev pub claim_timeout : ℕ
claim_timeout = 300

unfoldable pub next_attempt_after : ℕ → ℕ → ℕ
next_attempt_after attempts now = now + 60 * min (2 ^ attempts) max_backoff_minutes

pub record DeliveryResult : Type 0 where
  pub status_code : Option ℕ
  pub error : Option String

-- `DeliveryResult.ok`
abbrev pub is_success : Option ℕ → Bool
is_success none = false
is_success (some c) = leb 200 c && ltb c 300

-- What the dispatcher reads of the workspace; `templates` has the `admin_access` on leads.
pub record Directory : Type 0 where
  pub endpoints : List WebhookEndpoint
  pub field_keys : List (ℕ × String)
  pub templates : List (ℕ × Bool)
  pub field_grants : List TemplateFieldGrant

-- `build_envelope`
pub record Envelope : Type 0 where
  pub event : String
  pub event_id : ℕ
  pub occurred_at : ℕ
  pub payload : EventData

pub record Request : Type 0 where
  pub url : String
  pub body : String
  pub event : String
  pub event_id : ℕ
  pub signature : String

-- A call of the transport answers, or it raises.
pub data Sent : Type 0 where
  answered : DeliveryResult → Sent
  raised : Sent

pub record Totals : Type 0 where
  pub claimed : ℕ
  pub delivered : ℕ
  pub failed : ℕ
  pub dead : ℕ

abbrev pub event_key : OutboxEvent → ℕ
event_key row = row.id

abbrev pub endpoint_key : WebhookEndpoint → ℕ
endpoint_key e = e.id

abbrev template_key : ℕ × Bool → ℕ
template_key t = t.0

abbrev is_admin_template : Option (ℕ × Bool) → Bool
is_admin_template none = false
is_admin_template (some t) = t.1

-- `_project`
unfoldable pub project : Directory → WebhookEndpoint → EventData → EventData
project dir endpoint payload =
    let template = endpoint.permission_template_id in
    let is_admin = is_admin_template (find template_key template dir.templates) in
    let grants = load_grants template is_admin dir.field_keys dir.field_grants in
    record payload { values = project_values grants payload.values }

-- The columns that a claim may take a row from.
abbrev pub is_stale : ℕ → Option ℕ → Bool
is_stale now none = false
is_stale now (some at) = ltb (at + claim_timeout) now

abbrev pub is_claimable : ℕ → OutboxStatus → Option ℕ → Bool
is_claimable now pending at = true
is_claimable now failed at = true
is_claimable now delivering at = is_stale now at
is_claimable now delivered at = false
is_claimable now dead at = false

unfoldable pub is_due : ℕ → OutboxEvent → Bool
is_due now row = is_claimable now row.status row.claimed_at && leb row.next_attempt_at now

-- The identifiers that `_claim` selects; `locked` are the rows that another worker holds.
unfoldable pub due_ids : (ℕ → Bool) → ℕ → ℕ → List OutboxEvent → List ℕ
unfolding sort_by is_due
due_ids locked now limit rows =
    let free = keep (λ row. is_due now row && (if locked row.id then false else true)) rows in
    map event_key (take limit (sort_by (λ a b. ltb a.next_attempt_at b.next_attempt_at) free))

abbrev pub claim_row : List ℕ → ℕ → OutboxEvent → OutboxEvent
claim_row ids now row =
    if contains ids row.id then record row { status = delivering; claimed_at = some now } else row

-- `_claim`: the identifiers claimed, and the committed table.
unfoldable pub claim : (ℕ → Bool) → ℕ → ℕ → List OutboxEvent → List ℕ × List OutboxEvent
unfolding due_ids
claim locked now limit rows =
    let ids = due_ids locked now limit rows in (ids, map (claim_row ids now) rows)

-- What `deliver_once` and `run_dispatch` call outside this code: `dumps` is the JSON text of an
-- envelope, `hmac` the hexadecimal digest, `http` Python's text of a status, `cut` its slice of a
-- text, and `post n` the `n`-th call of the transport in a pass.
pub record Outside : Type 0 where
  pub dumps : Envelope → String
  pub hmac : String → String → String
  pub http : Option ℕ → String
  pub cut : ℕ → String → String
  pub post : ℕ → Request → Sent

-- `result.error or …`: an empty text counts as none.
abbrev error_text : Outside → DeliveryResult → String
error_text o result = elim result.error [
  | none ↦ o.http result.status_code
  | some e ↦ if str_eq e "" then o.http result.status_code else e
]

module _ (outside : Outside) (dir : Directory) (now : ℕ) where
  -- `build_envelope`, `serialise`, `sign` and the headers.
  unfoldable pub request_of : OutboxEvent → WebhookEndpoint → Request
  unfolding project
  request_of row endpoint =
      let envelope : Envelope = record {
        event = row.event;
        event_id = row.event_id;
        occurred_at = row.occurred_at;
        payload = project dir endpoint row.payload;
      } in
      let body = outside.dumps envelope in
      record {
        url = endpoint.url;
        body = body;
        event = row.event;
        event_id = row.event_id;
        signature = outside.hmac endpoint.secret body;
      }

  -- What `deliver_once` records of an answer.
  unfoldable pub record_result : OutboxEvent → DeliveryResult → OutboxEvent
  unfolding next_attempt_after
  record_result row result =
      let tried : OutboxEvent = record row {
        attempts = suc row.attempts;
        last_status_code = result.status_code;
        claimed_at = none;
      } in
      if is_success result.status_code
      then record tried { status = delivered; delivered_at = some now; last_error = none }
      else let noted : OutboxEvent = record tried {
        last_error = some (outside.cut 1000 (error_text outside result));
      } in
        if leb dead_after_attempts noted.attempts
        then record noted { status = dead }
        else record noted {
          status = failed;
          next_attempt_at = next_attempt_after noted.attempts now;
        }

  -- The row after `deliver_once`, or after the `except` branch of `run_dispatch`.
  unfoldable pub settle : OutboxEvent → Sent → OutboxEvent
  unfolding record_result next_attempt_after
  settle row (answered result) = record_result row result
  settle row raised = record row {
    status = failed;
    attempts = suc row.attempts;
    claimed_at = none;
    next_attempt_at = next_attempt_after (suc row.attempts) now;
  }

  -- One turn of the loop of `run_dispatch`, in the `n`-th call of the transport, once the endpoint
  -- is looked up.
  unfoldable pub handle_at : ℕ → OutboxEvent → Option WebhookEndpoint → OutboxEvent
  unfolding request_of settle
  handle_at n row none = record row {
    status = dead;
    last_error = some "the endpoint no longer exists";
    claimed_at = none;
  }
  handle_at n row (some endpoint) = settle row (outside.post n (request_of row endpoint))

  unfoldable pub handle : ℕ → OutboxEvent → OutboxEvent
  unfolding handle_at
  handle n row = handle_at n row (find endpoint_key row.endpoint_id dir.endpoints)

  -- Which total a handled row adds to.
  abbrev pub tally : OutboxStatus → Totals → Totals
  tally delivered t = record t { delivered = suc t.delivered }
  tally dead t = record t { dead = suc t.dead }
  tally _ t = record t { failed = suc t.failed }

  -- The loop, with a commit for each row. The order in which the database returns the claimed rows is
  -- left open there; here it is the order in which they fell due.
  unfoldable pub handle_each : ℕ → List ℕ → List OutboxEvent → Totals → List OutboxEvent × Totals
  unfolding handle
  handle_each n [] rows t = (rows, t)
  handle_each n (i ∷ ids) rows t = elim (find event_key i rows) [
    | none ↦ handle_each (suc n) ids rows t
    | some row ↦
        handle_each (suc n) ids (update event_key i (handle n) rows) (tally (handle n row).status t)
  ]

  -- `run_dispatch`
  unfoldable pub run_dispatch : (ℕ → Bool) → ℕ → List OutboxEvent → List OutboxEvent × Totals
  unfolding claim handle_each
  run_dispatch locked limit rows =
      let (ids, claimed) = claim locked now limit rows in
      handle_each 0 ids claimed record { claimed = length ids; delivered = 0; failed = 0; dead = 0 }
