-- ===== src/Leads/Merge.antt =====
-- What an edit writes (api/app/services/leads.py): the checks, and the values of `_apply_update`. A key whose
-- value is null is left out of a lead's values, since `dict.get` reads both as `None`. `show` is Python's
-- `str`.
use configurable_crm.Prelude.{
  ℕ, String, Bool, true, false, not, ◌&&◌, Option, none, some, List, [], ◌∷◌, map, any, str_eq,
  get_key, if◌then◌else◌,
}
use configurable_crm.Prelude.Table.{find}
use configurable_crm.Json.{truthy, Json, json_eq}
use configurable_crm.Errors.{
  duplicate_identity, no_identity_field, lost_reason_required, Result, ok, raise, raise_if,
  not_found, conflict, unprocessable, ◌>>=◌, ◌>>◌,
}
use configurable_crm.Timeline.{Lead, Ledger, FieldDelta}
use configurable_crm.Pipeline.Rows.{Stage, StageKind, lost, LostReason}
use configurable_crm.Members.Defs.{Membership, member_id}
use configurable_crm.Permissions.Projection.{check_keys}
use configurable_crm.Undo.Preview.{Caller, can_see, lead_key}
use configurable_crm.Undo.Service.{set_key, pop_key}
use configurable_crm.Leads.Values.{LeadField, Payload, Registry, field_of, validate_update}

pub record Database : Type 0 where
  pub leads : List Lead
  pub ledger : Ledger
  pub stages : List Stage
  pub lost_reasons : List LostReason
  pub members : List Membership

-- The schema of the workspace: its fields, and the key of the identity field.
pub record Schema : Type 0 where
  pub fields : List LeadField
  pub identity_key : Option String

-- The arguments of `update_lead`.
pub record Edit : Type 0 where
  pub values : List (String × Json)
  pub unset : List String
  pub stage_id : Option ℕ
  pub lost_reason_id : Option ℕ
  pub assignee_id : Option ℕ
  pub rating : Option ℕ

abbrev pub is_live : Lead → Bool
is_live l = elim l.deleted_at [ none ↦ true | some at ↦ false ]

unfoldable pub get_lead : Caller → ℕ → List Lead → Result Lead
get_lead by i leads = elim (find lead_key i leads) [
  | none ↦ raise not_found
  | some l ↦ if is_live l && can_see by l then ok l else raise not_found
]

unfoldable pub assert_identity_free : String → List Lead → Result (Unit {0})
assert_identity_free identity leads =
    raise_if (any (λ (l : Lead). str_eq l.identity_value identity && is_live l) leads)
      (conflict duplicate_identity)

unfoldable pub assert_member : ℕ → List Membership → Result (Unit {0})
assert_member i members = elim (find member_id i members) [
  | none ↦ raise not_found
  | some m ↦ ok tt
]

-- A stage that a lead may move to.
unfoldable pub open_stage : ℕ → List Stage → Result Stage
open_stage i stages = elim (find (λ (x : Stage). x.id) i stages) [
  | none ↦ raise not_found
  | some x ↦ if x.is_archived then raise not_found else ok x
]

abbrev pub first_default : List LostReason → Option LostReason
first_default [] = none
first_default (r ∷ rs) =
    let rest = first_default rs in if r.is_default && not r.is_archived then some r else rest

abbrev pub is_lost : StageKind → Bool
is_lost lost = true
is_lost _ = false

-- `_resolve_lost_reason`
unfoldable pub resolve_lost_reason : Stage → Option ℕ → List LostReason → Result (Option ℕ)
resolve_lost_reason x reason reasons = if not (is_lost x.kind) then ok none else elim reason [
  | some i ↦ (elim (find (λ (r : LostReason). r.id) i reasons) [
    | none ↦ raise not_found
    | some r ↦ if r.is_archived then raise not_found else ok (some r.id)
  ])
  | none ↦ (elim (first_default reasons) [
    | none ↦ raise (unprocessable lost_reason_required)
    | some r ↦ ok (some r.id)
  ])
]

-- `payload[key] = value`
unfoldable pub put : String → Option Json → Payload → Payload
put k v [] = (k, v) ∷ []
put k v ((j, u) ∷ rest) = if str_eq k j then (j, v) ∷ rest else (j, u) ∷ put k v rest

-- `dict(values)`, and then `payload[key] = None` for the unset keys, in some order.
unfoldable pub payload_of : List (String × Json) → List String → Payload
unfolding put
payload_of values [] = map (λ (v : String × Json). (v.0, some v.1)) values
payload_of values (k ∷ unset) = put k none (payload_of values unset)

abbrev pub write_value : String → Option Json → List (String × Json) → List (String × Json)
write_value k none values = pop_key k values
write_value k (some v) values = set_key k v values

abbrev pub label_in : List LeadField → String → String
label_in fields key = elim (field_of key fields) [ none ↦ key | some f ↦ f.label ]

-- The loop over the validated values: the merged values, and the deltas.
unfoldable pub merge_values :
    List LeadField → Payload → List (String × Json) → List (String × Json) × List FieldDelta
unfolding json_eq set_key pop_key
merge_values fields [] merged = (merged, [])
merge_values fields ((key, new) ∷ rest) merged =
    let old = get_key key merged in
    elim (json_eq old new) [
      | true ↦ merge_values fields rest merged
      | false ↦
          let (values, deltas) = merge_values fields rest (write_value key new merged) in
          (
            values,
            record { field_key = key; label = label_in fields key; old = old; new = new } ∷ deltas,
          )
    ]

-- A new identity is checked and taken over.
unfoldable pub new_identity :
    (Json → String) → Option (Option Json) → Lead → List Lead → Result String
unfolding assert_identity_free
new_identity show (some (some v)) lead leads =
    if truthy v && not (str_eq (show v) lead.identity_value)
    then (do assert_identity_free (show v) leads; ok (show v))
    else ok lead.identity_value
new_identity show _ lead leads = ok lead.identity_value

abbrev pub no_keys : List (String × Json) → List String → Bool
no_keys [] [] = true
no_keys _ _ = false

abbrev pub require_key : Option String → Result String
require_key none = raise (conflict no_identity_field)
require_key (some k) = ok k

module _ (registry : Registry) (show : Json → String) (schema : Schema) (by : Caller) where
  -- The branch of `_apply_update` that writes values: the lead with its new values and identity, and
  -- the deltas.
  unfoldable pub apply_payload : Payload → List Lead → Lead → Result (Lead × List FieldDelta)
  unfolding validate_update merge_values new_identity
  apply_payload payload leads lead = do
    check_keys by.grants (map (λ (v : String × Option Json). v.0) payload)
        (map (λ (f : LeadField). f.key) schema.fields)
    validated ← validate_update registry schema.fields payload
    let merging = merge_values schema.fields validated lead.values
    key ← require_key schema.identity_key
    identity ← new_identity show (get_key key validated) lead leads
    ok (record lead { values = merging.0; identity_value = identity }, merging.1)

  unfoldable pub apply_values : Edit → List Lead → Lead → Result (Lead × List FieldDelta)
  unfolding payload_of apply_payload
  apply_values edit leads lead =
      if no_keys edit.values edit.unset
      then ok (lead, [])
      else apply_payload (payload_of edit.values edit.unset) leads lead
