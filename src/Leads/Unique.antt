-- ===== src/Leads/Unique.antt =====
-- No two live leads with one identity: what the operations of `LeadService`
-- (api/app/services/leads.py) keep.
use configurable_crm.Prelude.{
  ℕ, String, Option, some, List, [], ◌≡◌, inl, inr, refl, ◌∙◌, arith, count, str_eq, eq_iff, map,
  get_key, Bool-cases,
}
use configurable_crm.Prelude.Table.{find, update, count-update}
use configurable_crm.Json.{Json}
use configurable_crm.Errors.{ok, >>=-eq-ok, ok_inj}
use configurable_crm.Timeline.{Lead, Ledger, ActionWriter, FieldDelta, record_field_changes}
use configurable_crm.Permissions.Projection.{check_keys}
use configurable_crm.Undo.Preview.{Caller, lead_key}
use configurable_crm.Leads.Values.{LeadField, Registry, validate_update}
use configurable_crm.Leads.Merge.{
  Database, Schema, Edit, new_identity, require_key, payload_of, apply_payload, apply_values,
  no_keys,
}
use configurable_crm.Leads.Update.{apply_stage, apply_assignee, apply_update}
use configurable_crm.Leads.Identity.{
  holds_identity, IsUnique, Keeps, Keeps-trans, record_field_changes-Keeps, apply_stage-Keeps,
  apply_assignee-Keeps, apply_rating-Keeps, IsFreeFor, new_identity-IsFreeFor,
}

-- An edited lead keeps its key and its life, and has a free identity.
unfoldable pub Retains : List Lead → Lead → Lead → Type 0
Retains leads a b =
    IsFreeFor leads a b.identity_value × (b.deleted_at ≡ a.deleted_at) × (b.id ≡ a.id)

Retains-Keeps :
    (leads : List Lead) (a b c : Lead) → Retains leads a b → Keeps b c → Retains leads a c
unfolding Retains Keeps
Retains-Keeps leads a b c (i, d, k) (j, e, l) = (rw j i, e ∙ d, l ∙ k)

module _ (registry : Registry) (show : Json → String) (schema : Schema) (by : Caller)
    (edit : Edit) where
  apply_values-Retains :
      (leads : List Lead) (lead : Lead) (out : Lead × List FieldDelta)
      → apply_values registry show schema by edit leads lead ≡ ok out
      → Retains leads lead out.0
  unfolding apply_values apply_payload Retains
  apply_values-Retains leads lead out h = elim (Bool-cases (no_keys edit.values edit.unset)) [
    | inl e ↦
        let same : (lead, []) ≡ out = ground (arith, e, h) in rw (← same) (inl refl, refl, refl)
    | inr e ↦
        let payload = payload_of edit.values edit.unset in
        let run : apply_payload registry show schema by payload leads lead ≡ ok out =
          ground (arith, e, h) in
        let (_, _, h1) =
          >>=-eq-ok
            (check_keys by.grants (map (λ (v : String × Option Json). v.0) payload)
              (map (λ (f : LeadField). f.key) schema.fields))
            (λ _. _) run in
        let (validated, _, h2) =
          >>=-eq-ok (validate_update registry schema.fields payload) (λ _. _) h1 in
        let (key, _, h3) = >>=-eq-ok (require_key schema.identity_key) (λ _. _) h2 in
        let (identity, fresh, e') =
          >>=-eq-ok (new_identity show (get_key key validated) lead leads) (λ _. _) h3 in
        rw (← ok_inj e') (
          new_identity-IsFreeFor show (get_key key validated) lead leads identity fresh,
          refl,
          refl,
        )
  ]

  pub apply_update-Retains :
      (db : Database) (w : ActionWriter) (now : ℕ) (lead : Lead) (l : Ledger) (out : Lead × Ledger)
      → apply_update registry show schema by edit db w now lead l ≡ ok out
      → Retains db.leads lead out.0
  unfolding apply_update
  apply_update-Retains db w now lead l out h =
      let (one, h1, k1) =
        >>=-eq-ok (apply_values registry show schema by edit db.leads lead) (λ _. _) h in
      let two = record_field_changes w now one.0 one.1 l in
      let (three, h3, k3) =
        >>=-eq-ok (apply_stage db w now edit.stage_id edit.lost_reason_id two.0 two.1) (λ _. _)
          k1 in
      let (four, h4, e) =
        >>=-eq-ok (apply_assignee db w now edit.assignee_id three.0 three.1) (λ _. _) k3 in
      rw (← ok_inj e) (
        Retains-Keeps db.leads lead one.0 _ (apply_values-Retains db.leads lead one h1) (
          Keeps-trans one.0 two.0 _ (record_field_changes-Keeps w now one.0 one.1 l) (
            Keeps-trans two.0 three.0 _
              (apply_stage-Keeps db w now edit.stage_id edit.lost_reason_id two.0 two.1 three h3)
              (Keeps-trans three.0 four.0 _
                (apply_assignee-Keeps db w now edit.assignee_id three.0 three.1 four h4)
                (apply_rating-Keeps db w now edit.rating four.0 four.1)))))

pub holds_identity-same :
    (s : String) (a b : Lead)
    → b.identity_value ≡ a.identity_value
    → b.deleted_at ≡ a.deleted_at
    → holds_identity s b ≡ holds_identity s a
holds_identity-same s a b i d = rw (i, d) refl

-- What an edit of a row does to the table.
pub update-IsUnique :
    (leads : List Lead) (i : ℕ) (a b : Lead)
    → find lead_key i leads ≡ some a
    → Retains leads a b
    → IsUnique leads
    → IsUnique (update lead_key i (λ _. b) leads)
unfolding Retains
update-IsUnique leads i a b here (inl same, live, _) unique s =
    let moved = count-update lead_key (holds_identity s) i (λ _. b) leads a here in
    ground (arith, unique s, moved, holds_identity-same s a b same live)
update-IsUnique leads i a b here (inr free, live, _) unique s =
    let moved = count-update lead_key (holds_identity s) i (λ _. b) leads a here in
    elim (Bool-cases (str_eq b.identity_value s)) [
      | inl e ↦
          let none_yet : count (holds_identity s) leads ≡ 0 =
            rw (← (eq_iff b.identity_value s).0 e) free in
          ground (arith, none_yet, moved, e)
      | inr e ↦ ground (arith, unique s, moved, e)
    ]
