-- ===== src/Actions.antt =====
-- The kinds of timeline actions (`SystemActionKind` of api/app/models/enums.py), and what the actions of each
-- kind carry (api/app/services/actions.py).
use configurable_crm.Prelude.{ℕ, String, Option}
use configurable_crm.Json.{Json}

pub data SystemActionKind : Type 0 where
  lead_created field_change stage_change assignment_change rating_change : SystemActionKind
  note call_logged whatsapp_sent email_sent sms_sent : SystemActionKind
  task_created task_completed custom : SystemActionKind

-- The payloads of the kinds that carry one here; `plain` is the empty dictionary.
pub data Payload : Type 0 where
  plain : Payload
  field_delta : String → String → Option Json → Option Json → Payload
  stage_ids : Option ℕ → Option ℕ → Option ℕ → Payload
  assignee_ids : Option ℕ → Option ℕ → Payload
  ratings : Option ℕ → Option ℕ → Payload
