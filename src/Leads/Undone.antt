-- ===== src/Leads/Undone.antt =====
-- An edit and its undo: the plan for the actions of an edit restores the lead.
use configurable_crm.Prelude.{
  ℕ, String, false, Option, some, List, [], ◌++◌, ◌≡◌, refl, ◌∙◌, ap, inl, inr, arith, any, map,
  get_key, Bool-cases, Option-cases, ◌&&◌,
}
use configurable_crm.Prelude.Table.{find, update}
use configurable_crm.Json.{Json}
use configurable_crm.Errors.{ok, >>=-eq-ok, ok_inj}
use configurable_crm.Timeline.{
  Lead, Ledger, Action, ActionWriter, FieldDelta, open_changeset, single_edit, updated_lead,
  record_field_changes,
}
use configurable_crm.Permissions.Projection.{check_keys}
use configurable_crm.Undo.Plan.{
  Target, field, stage, assignee, rating, Reversal, current_value, plan_for,
}
use configurable_crm.Undo.Preview.{Caller, can_see, lead_key}
use configurable_crm.Undo.Service.{revert_lead}
use configurable_crm.Undo.Roundtrip.{revert_lead-plan_for}
use configurable_crm.Leads.Values.{LeadField, Payload, Registry, validate_update}
use configurable_crm.Leads.Merge.{
  apply_payload, apply_values, Database, Schema, Edit, is_live, get_lead, payload_of, merge_values,
  require_key, new_identity, no_keys,
}
use configurable_crm.Leads.Update.{
  apply_stage, apply_assignee, apply_rating, apply_update, update_lead,
}
use configurable_crm.Leads.Written.{Written, unchanged-Written, Written-trans}
use configurable_crm.Leads.Recorded.{
  AreNamed, field_changes-Written, apply_stage-Written, apply_assignee-Written,
  apply_rating-Written,
}

identity-Same :
    (lead : Lead) (values : List (String × Json)) (identity : String) (t : Target)
    → current_value (record lead { values = values; identity_value = identity }) t
      ≡ current_value (record lead { values = values }) t
unfolding current_value
identity-Same lead values identity (field k) = refl
identity-Same lead values identity stage = refl
identity-Same lead values identity assignee = refl
identity-Same lead values identity rating = refl

-- No value is written under the empty key.
abbrev pub NamesKeys : Registry → Schema → Edit → Type 0
NamesKeys registry schema edit =
    (out : Payload)
    → validate_update registry schema.fields (payload_of edit.values edit.unset) ≡ ok out
    → AreNamed out

pub get_lead-find :
    (by : Caller) (i : ℕ) (leads : List Lead) (lead : Lead)
    → get_lead by i leads ≡ ok lead
    → find lead_key i leads ≡ some lead
unfolding get_lead
get_lead-find by i leads lead h = elim (Option-cases (find lead_key i leads)) [
  | inl absent ↦ absurd (ground (arith, absent, h))
  | inr (x, here) ↦ elim (Bool-cases (is_live x && can_see by x)) [
    | inl e ↦ let same : ok x ≡ ok lead = ground (arith, here, e, h) in here ∙ ap some (ok_inj same)
    | inr e ↦ absurd (ground (arith, here, e, h))
  ]
]

module _ (labels : List (String × String)) (registry : Registry) (show : Json → String)
    (schema : Schema) (by : Caller) (edit : Edit) (named : NamesKeys registry schema edit) where
  apply_values-Written :
      (w : ActionWriter) (now : ℕ) (leads : List Lead) (lead : Lead) (l : Ledger)
      (out : Lead × List FieldDelta)
      → apply_values registry show schema by edit leads lead ≡ ok out
      → Written labels w (lead, l) (record_field_changes w now out.0 out.1 l)
  unfolding apply_values apply_payload record_field_changes
  apply_values-Written w now leads lead l out h =
      elim (Bool-cases (no_keys edit.values edit.unset)) [
        | inl e ↦
            let same : (lead, []) ≡ out = ground (arith, e, h) in
            rw (← same) (unchanged-Written labels w lead lead l (λ t. refl) refl)
        | inr e ↦
            let payload = payload_of edit.values edit.unset in
            let run : apply_payload registry show schema by payload leads lead ≡ ok out =
              ground (arith, e, h) in
            let (_, _, h1) =
              >>=-eq-ok
                (check_keys by.grants (map (λ (v : String × Option Json). v.0) payload)
                  (map (λ (f : LeadField). f.key) schema.fields))
                (λ _. _) run in
            let (validated, valid, h2) =
              >>=-eq-ok (validate_update registry schema.fields payload) (λ _. _) h1 in
            let (key, _, h3) = >>=-eq-ok (require_key schema.identity_key) (λ _. _) h2 in
            let (identity, _, e') =
              >>=-eq-ok (new_identity show (get_key key validated) lead leads) (λ _. _) h3 in
            let md = merge_values schema.fields validated lead.values in
            rw (← ok_inj e') (
              field_changes-Written labels schema.fields w now validated lead
                (record lead { values = md.0; identity_value = identity }) l md refl
                (named validated valid) (identity-Same lead md.0 identity) refl)
      ]

  pub apply_update-Written :
      (db : Database) (w : ActionWriter) (now : ℕ) (lead : Lead) (l : Ledger) (out : Lead × Ledger)
      → apply_update registry show schema by edit db w now lead l ≡ ok out
      → Written labels w (lead, l) out
  unfolding apply_update
  apply_update-Written db w now lead l out h =
      let (one, h1, k1) =
        >>=-eq-ok (apply_values registry show schema by edit db.leads lead) (λ _. _) h in
      let two = record_field_changes w now one.0 one.1 l in
      let (three, h3, k3) =
        >>=-eq-ok (apply_stage db w now edit.stage_id edit.lost_reason_id two.0 two.1) (λ _. _)
          k1 in
      let (four, h4, e) =
        >>=-eq-ok (apply_assignee db w now edit.assignee_id three.0 three.1) (λ _. _) k3 in
      rw (← ok_inj e) (
        Written-trans labels w (lead, l) four (apply_rating db w now edit.rating four.0 four.1)
          (Written-trans labels w (lead, l) three four
            (Written-trans labels w (lead, l) two three
              (apply_values-Written w now db.leads lead l one h1)
              (apply_stage-Written labels db w now edit.stage_id edit.lost_reason_id two.0 two.1
                three h3))
            (apply_assignee-Written labels db w now edit.assignee_id three.0 three.1 four h4))
          (apply_rating-Written labels db w now edit.rating four.0 four.1))

  -- If an edit of a lead succeeds and writes no value under the empty key, then the lead's row alone
  -- changes, the ledger grows by some actions, and undoing exactly these has no conflict and leaves every
  -- field, the stage, the assignee and the rating as they were before the edit.
  pub update_lead-undone :
      (now i : ℕ) (db after : Database)
      → update_lead registry show schema by now i edit db ≡ ok after
      → (lead : Lead) × (find lead_key i db.leads ≡ some lead)
        × (edited : Lead) × (after.leads ≡ update lead_key i (λ _. edited) db.leads)
        × (actions : List Action) × (after.ledger.actions ≡ db.ledger.actions ++ actions)
        × (any (λ (r : Reversal). r.conflicted) (plan_for edited actions labels) ≡ false)
        × ((w : ActionWriter) (at : ℕ) (l : Ledger) (t : Target)
            → current_value (revert_lead w at (plan_for edited actions labels) edited l).0 t
              ≡ current_value lead t)
  unfolding update_lead open_changeset
  update_lead-undone now i db after h =
      let (lead, found, rest) = >>=-eq-ok (get_lead by i db.leads) (λ _. _) h in
      let opened =
        open_changeset by.actor_id single_edit (updated_lead lead.identity_value) 1 db.ledger in
      let (out, run, e) =
        >>=-eq-ok (apply_update registry show schema by edit db opened.0 now lead opened.1) (λ _. _)
          rest in
      let (xs, grown, recorded, _, _, _) =
        apply_update-Written db opened.0 now lead opened.1 out run in
      let (calm, restored) = revert_lead-plan_for labels lead out.0 xs recorded in
      rw (← ok_inj e)
        (lead, get_lead-find by i db.leads lead found, out.0, refl, xs, grown, calm, restored)
