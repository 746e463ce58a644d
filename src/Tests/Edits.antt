-- ===== src/Tests/Edits.antt =====
-- An edit that changes a field, clears another, moves the stage and gives the lead to a member.
use configurable_crm.Prelude.{
  ℕ, ◌+◌, String, true, false, none, some, List, [], ◌∷◌, ◌++◌, ◌≡◌, refl, any, sort_by,
}
use configurable_crm.Prelude.Table.{find, update}
use configurable_crm.Json.{Json, text}
use configurable_crm.Errors.{Result, ok, raise, ok_inj}
use configurable_crm.Timeline.{Lead, Ledger, Action, ActionWriter, append_action}
use configurable_crm.Pipeline.Rows.{active}
use configurable_crm.Members.Defs.{working}
use configurable_crm.Undo.Plan.{Target, field, stored, Reversal, current_value, plan_for}
use configurable_crm.Undo.Preview.{Caller, lead_key}
use configurable_crm.Undo.Service.{revert_lead}
use configurable_crm.Leads.Values.{LeadField, Registry, validate_update}
use configurable_crm.Leads.Merge.{apply_values, Database, Schema, Edit, get_lead, payload_of}
use configurable_crm.Leads.Update.{
  apply_stage, apply_assignee, apply_rating, apply_update, update_lead,
}
use configurable_crm.Leads.Undone.{NamesKeys, update_lead-undone}

abbrev pub a_lead : Lead
a_lead = record {
  id = 50;
  identity_value = "111";
  values = ("phone", text "111") ∷ ("city", text "Pune") ∷ [];
  stage_id = none;
  assignee_id = none;
  rating = none;
  lost_reason_id = none;
  last_action_at = none;
  created_at = 0;
  deleted_at = none;
}

abbrev pub a_field : String → LeadField
a_field key = record {
  key = key;
  label = key;
  is_hidden = false;
  is_required = false;
  lock_after_create = false;
}

abbrev pub schema : Schema
schema = record { fields = a_field "phone" ∷ a_field "city" ∷ []; identity_key = some "phone" }

-- Values are normal already, and no text is a variable.
abbrev pub registry : Registry
registry = record { normalise = λ f v. some v; resolve_variables = λ p. p }

abbrev pub show : Json → String
show v = "222"

abbrev pub database : Database
database = record {
  leads = a_lead ∷ [];
  ledger = record {
    changesets = [];
    actions = [];
    endpoints = [];
    outbox = [];
    draw = λ n. 900 + n;
    drawn = 0;
  };
  stages =
      record {
        id = 3;
        kind = active;
        label = "Contacted";
        color = "#6b7280";
        sort_order = 1;
        is_archived = false;
      }
      ∷ [];
  lost_reasons = [];
  members =
      record {
        id = 2;
        user_id = 2;
        template_id = 7;
        manager_id = none;
        is_active = true;
        has_license = true;
        availability = working;
      }
      ∷ [];
}

abbrev pub caller : Caller
caller = record {
  actor_id = some 1;
  grants = record {
    view = [];
    edit = "phone" ∷ "city" ∷ [];
    import_ = [];
    export = [];
    is_admin = false;
  };
  visible = [];
  sees_all = true;
}

abbrev pub edit : Edit
edit = record {
  values = ("phone", text "222") ∷ [];
  unset = "city" ∷ [];
  stage_id = some 3;
  lost_reason_id = none;
  assignee_id = some 2;
  rating = some 4;
}

abbrev or_same : Result Database → Database
or_same (ok db) = db
or_same (raise e) = database

abbrev after : Database
after = or_same (update_lead registry show schema caller 9 50 edit database)

pub named : NamesKeys registry schema edit
unfolding payload_of validate_update
named out h = rw (← ok_inj h) (refl, (refl, tt))

update_lead-undone_example :
    (lead : Lead) × (find lead_key 50 database.leads ≡ some lead)
    × (edited : Lead) × (after.leads ≡ update lead_key 50 (λ _. edited) database.leads)
    × (actions : List Action) × (after.ledger.actions ≡ database.ledger.actions ++ actions)
    × (any (λ (r : Reversal). r.conflicted) (plan_for edited actions []) ≡ false)
    × ((w : ActionWriter) (at : ℕ) (l : Ledger) (t : Target)
        → current_value (revert_lead w at (plan_for edited actions []) edited l).0 t
          ≡ current_value lead t)
unfolding update_lead get_lead apply_update apply_values apply_stage apply_assignee apply_rating
    find sort_by append_action
update_lead-undone_example =
    update_lead-undone [] registry show schema caller edit named 9 50 database after refl

abbrev writer : ActionWriter
writer = record { actor_id = some 1; changeset_id = 901; endpoints = [] }

abbrev edited : Lead
edited = record {
  id = 50;
  identity_value = "222";
  values = ("phone", text "222") ∷ [];
  stage_id = some 3;
  assignee_id = some 2;
  rating = some 4;
  lost_reason_id = none;
  last_action_at = some 9;
  created_at = 0;
  deleted_at = none;
}

edited_row : after.leads ≡ edited ∷ []
unfolding update_lead get_lead apply_update apply_values apply_stage apply_assignee apply_rating
    find update sort_by append_action
edited_row = refl

-- The undo restores the phone number, but not the identity that was taken from it.
identity_stays :
    let undone =
      (revert_lead writer 10 (plan_for edited after.ledger.actions []) edited after.ledger).0 in
    (undone.identity_value ≡ "222") × (current_value undone (field "phone") ≡ stored (text "111"))
unfolding update_lead get_lead apply_update apply_values apply_stage apply_assignee apply_rating
    find sort_by append_action plan_for revert_lead current_value
identity_stays = (refl, refl)
