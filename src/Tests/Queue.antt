-- ===== src/Tests/Queue.antt =====
-- An outbox with a due row, a row of a dead worker and a delivered one.
use configurable_crm.Prelude.{
  arith, contains, ℕ, Bool, true, false, Option, none, some, List, [], ◌∷◌, ◌≡◌, refl, map,
}
use configurable_crm.Prelude.Table.{find, Distinct}
use configurable_crm.Actions.{rating_change, ratings}
use configurable_crm.Events.Outbox.{
  OutboxStatus, delivering, delivered, failed, dead, WebhookEndpoint, EventData, OutboxEvent,
}
use configurable_crm.Events.Dispatcher.{
  Outside, Directory, answered, event_key, due_ids, claim, handle, run_dispatch,
}
use configurable_crm.Events.Delivery.{
  identity, IsReleased, run_dispatch-identity, handle-IsReleased,
}
use configurable_crm.Events.Attempts.{IsWithinAttempts, handle-IsWithinAttempts}
use configurable_crm.Events.Reclaim.{claim-reclaimed}
use configurable_crm.Events.Settled.{run_dispatch-settled}

abbrev some_data : EventData
some_data = record {
  lead_id = 50;
  identity_value = "lead";
  stage_id = none;
  assignee_id = none;
  actor_id = none;
  changeset_id = 0;
  action_kind = rating_change;
  values = [];
  payload = ratings none (some 3);
}

abbrev a_row : ℕ → OutboxStatus → ℕ → Option ℕ → OutboxEvent
a_row id status attempts claimed_at = record {
  id = id;
  event = "lead.updated";
  event_id = id;
  endpoint_id = 4;
  payload = some_data;
  occurred_at = 0;
  status = status;
  attempts = attempts;
  next_attempt_at = 0;
  claimed_at = claimed_at;
  last_error = none;
  last_status_code = none;
  delivered_at = none;
}

abbrev queue : List OutboxEvent
queue = a_row 1 failed 7 none ∷ a_row 2 delivering 0 (some 100) ∷ a_row 3 delivered 1 none ∷ []

abbrev an_endpoint : WebhookEndpoint
an_endpoint = record {
  id = 4;
  url = "u";
  secret = "s";
  events = [];
  permission_template_id = 7;
  is_active = true;
}

abbrev directory : Directory
directory = record {
  endpoints = an_endpoint ∷ [];
  field_keys = [];
  templates = [];
  field_grants = [];
}

-- A consumer that refuses everything.
abbrev refusing : Outside
refusing = record {
  dumps = λ e. "{}";
  hmac = λ s b. "0";
  http = λ c. "HTTP 500";
  cut = λ n s. s;
  post = λ n r. answered (record { status_code = some 500; error = none });
}

abbrev nobody : ℕ → Bool
nobody i = false

run_dispatch-identity_example :
    map identity (run_dispatch refusing directory 1000 nobody 50 queue).0 ≡ map identity queue
run_dispatch-identity_example = run_dispatch-identity refusing directory 1000 nobody 50 queue

queue-Distinct : Distinct event_key queue
unfolding find
queue-Distinct = (refl, (refl, (refl, tt)))

run_dispatch-settled_example :
    find event_key 3 (run_dispatch refusing directory 1000 nobody 50 queue).0
    ≡ some (a_row 3 delivered 1 none)
unfolding find
run_dispatch-settled_example =
    run_dispatch-settled refusing directory 1000 nobody 50 3 queue (a_row 3 delivered 1 none)
      queue-Distinct refl refl

handle-IsReleased_example :
    IsReleased refusing directory 1000
      (a_row 1 failed 7 none)
      (handle refusing directory 1000 0 (a_row 1 failed 7 none))
handle-IsReleased_example = handle-IsReleased refusing directory 1000 0 (a_row 1 failed 7 none)

-- The eighth failure is the last, and the row of the dead worker is taken again.
eighth_is_dead : (handle refusing directory 1000 0 (a_row 1 failed 7 none)).status ≡ dead
unfolding handle find
eighth_is_dead = refl

stale_is_reclaimed : due_ids nobody 1000 50 queue ≡ 1 ∷ 2 ∷ []
unfolding due_ids
stale_is_reclaimed = refl

claim-reclaimed_example : contains (claim nobody 1301 50 (claim nobody 1000 50 queue).1).0 1 ≡ true
unfolding find claim due_ids
claim-reclaimed_example =
    claim-reclaimed nobody nobody 1000 1301 50 50 1 queue (a_row 1 failed 7 none) queue-Distinct
      refl refl (omega arith) refl (omega arith)

handle-IsWithinAttempts_example :
    IsWithinAttempts refusing directory 1000
      (some an_endpoint)
      (handle refusing directory 1000 0 (a_row 1 failed 7 none))
unfolding find
handle-IsWithinAttempts_example =
    handle-IsWithinAttempts refusing directory 1000 0 (a_row 1 failed 7 none)
      λ n r. (record { status_code = some 500; error = none }, refl)
