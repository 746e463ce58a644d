-- ===== src/Leads/Create.antt =====
-- `LeadService.create_lead` (api/app/services/leads.py), with the engine of services/assignment.py.
use configurable_crm.Prelude.{
  ℕ, ◌+◌, String, Bool, true, false, not, ◌&&◌, Option, none, some, List, [], ◌∷◌, ◌++◌, map,
  str_eq, get_key, if◌then◌else◌,
}
use configurable_crm.Json.{Json, text}
use configurable_crm.Errors.{
  identity_required, Result, ok, raise, naming, unprocessable, ◌>>=◌, ◌>>◌,
}
use configurable_crm.Filters.Dsl.{FilterNode}
use configurable_crm.Pipeline.Rows.{Stage, StageKind, initial}
use configurable_crm.Timeline.{
  Lead, Ledger, single_edit, created_lead, open_changeset, record_created, record_assignment_change,
}
use configurable_crm.Permissions.Projection.{check_keys}
use configurable_crm.Assignment.Rows.{
  AssignmentRule, SalesGroup, SalesGroupMember, AssignmentCursor,
}
use configurable_crm.Assignment.Engine.{decide}
use configurable_crm.Undo.Preview.{Caller}
use configurable_crm.Leads.Values.{LeadField, Payload, Registry, validate_create}
use configurable_crm.Leads.Merge.{
  Database, Schema, assert_identity_free, assert_member, open_stage, require_key,
}

-- The tables of the assignment engine, beside the leads and the members.
pub record Rules : Type 0 where
  pub rules : List AssignmentRule
  pub groups : List SalesGroup
  pub group_members : List SalesGroupMember
  pub cursors : List AssignmentCursor

-- The arguments of `create_lead`.
pub record NewLead : Type 0 where
  pub values : Payload
  pub stage_id : Option ℕ
  pub assignee_id : Option ℕ
  pub rating : Option ℕ
  pub apply_assignment_rules : Bool

abbrev is_initial : StageKind → Bool
is_initial initial = true
is_initial _ = false

-- The first live initial stage.
unfoldable pub initial_stage : List Stage → Option ℕ
initial_stage [] = none
initial_stage (x ∷ xs) =
    let rest = initial_stage xs in
    if is_initial x.kind && not x.is_archived then some x.id else rest

-- `_resolve_initial_stage`
unfoldable pub resolve_initial_stage : Option ℕ → List Stage → Result (Option ℕ)
unfolding open_stage initial_stage
resolve_initial_stage none stages = ok (initial_stage stages)
resolve_initial_stage (some i) stages = do x ← open_stage i stages; ok (some x.id)

-- The values as the blob keeps them: a key with `None` reads as an absent one.
unfoldable pub stored_values : Payload → List (String × Json)
stored_values [] = []
stored_values ((k, none) ∷ out) = stored_values out
stored_values ((k, some v) ∷ out) = (k, v) ∷ stored_values out

-- `None` and the empty text are no identity.
unfoldable pub required_identity : String → Option (Option Json) → Result Json
required_identity key (some (some (text s))) =
    if str_eq s "" then raise (naming (key ∷ []) (unprocessable identity_required)) else ok (text s)
required_identity key (some (some v)) = ok v
required_identity key _ = raise (naming (key ∷ []) (unprocessable identity_required))

abbrev pub check_assignee : Option ℕ → Database → Result (Unit {0})
check_assignee none db = ok tt
check_assignee (some m) db = assert_member m db.members

-- The changeset, the `LEAD_CREATED` action, and the assignment if there is one.
unfoldable pub record_new : Caller → ℕ → Option ℕ → Lead → Ledger → Lead × Ledger
unfolding open_changeset record_created record_assignment_change
record_new by now assignee lead l =
    let (w, opened) =
      open_changeset by.actor_id single_edit (created_lead lead.identity_value) 1 l in
    let (lead1, l1) = record_created w now lead opened in
    elim assignee [
      | none ↦ (lead1, l1)
      | some m ↦ record_assignment_change w now lead1 none (some m) l1
    ]

-- The row as it is added.
unfoldable pub new_row : ℕ → ℕ → String → Payload → Option ℕ → NewLead → Lead
unfolding stored_values
new_row now id identity validated stage new = record {
  id = id;
  identity_value = identity;
  values = stored_values validated;
  stage_id = stage;
  assignee_id = new.assignee_id;
  rating = new.rating;
  lost_reason_id = none;
  last_action_at = none;
  created_at = now;
  deleted_at = none;
}

module _ (registry : Registry) (show : Json → String) (holds : FilterNode → Lead → Bool)
    (schema : Schema) (by : Caller) where
  -- Who gets the lead: the named member, or whom the rules pick.
  unfoldable pub route :
      NewLead → Rules → Database → Lead → Result (Option ℕ × List AssignmentCursor)
  unfolding decide
  route new r db lead = elim new.assignee_id [
    | some m ↦ ok (some m, r.cursors)
    | none ↦
        if new.apply_assignment_rules
        then (do
          decision ←
              decide holds show
                (record {
                  rules = r.rules;
                  members = db.members;
                  groups = r.groups;
                  group_members = r.group_members;
                  leads = db.leads ++ lead ∷ [];
                })
                lead r.cursors
          ok (decision.0.membership_id, decision.1))
        else ok (none, r.cursors)
  ]

  -- The guards: the validated values, the identity and the stage.
  unfoldable pub check_new : NewLead → Database → Result (Payload × String × Option ℕ)
  unfolding validate_create required_identity assert_identity_free resolve_initial_stage
  check_new new db = do
    key ← require_key schema.identity_key
    check_keys by.grants (map (λ (v : String × Option Json). v.0) new.values)
        (map (λ (f : LeadField). f.key) schema.fields)
    validated ← validate_create registry schema.fields new.values
    identity ← required_identity key (get_key key validated)
    assert_identity_free (show identity) db.leads
    stage ← resolve_initial_stage new.stage_id db.stages
    check_assignee new.assignee_id db
    ok (validated, show identity, stage)

  -- The row, its assignee and its timeline. The key of the new lead is the next of the ledger's draws.
  unfoldable pub add_lead :
      ℕ → NewLead → Payload × String × Option ℕ → Rules → Database → Result (ℕ × Rules × Database)
  unfolding new_row route record_new
  add_lead now new (validated, identity, stage) r db = do
    let l = db.ledger
    let lead = new_row now (l.draw l.drawn) identity validated stage new
    routed ← route new r db lead
    let assigned : Lead = record lead { assignee_id = routed.0 }
    let written = record_new by now routed.0 assigned (record l { drawn = l.drawn + 1 })
    ok (
      lead.id,
      record r { cursors = routed.1 },
      record db { leads = db.leads ++ written.0 ∷ []; ledger = written.1 },
    )

  unfoldable pub create_lead : ℕ → NewLead → Rules → Database → Result (ℕ × Rules × Database)
  unfolding check_new add_lead
  create_lead now new r db = do checked ← check_new new db; add_lead now new checked r db
