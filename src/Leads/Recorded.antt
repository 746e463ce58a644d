-- ===== src/Leads/Recorded.antt =====
-- The actions that an edit appends record how the lead went from what it was to what it is.
use configurable_crm.Prelude.{
  ℕ, String, true, false, Option, none, some, List, [], ◌∷◌, ◌≡◌, refl, sym, ◌∙◌, ap, inl, inr,
  arith, All, Bool-cases, str_eq, eq_iff, get_key, if◌then◌else◌,
}
use configurable_crm.Json.{Json, json_eq}
use configurable_crm.Errors.{ok, >>=-eq-ok, ok_inj}
use configurable_crm.Timeline.{
  Lead, Ledger, ActionWriter, FieldDelta, field_change, stage_change, assignment_change,
  rating_change, field_delta, stage_ids, assignee_ids, ratings, append_action, record_field_changes,
  record_stage_move, record_assignment_change, record_rating_change,
}
use configurable_crm.Undo.Plan.{
  Target, field, stage, assignee, rating, target_eq, current_value, of_json, change_of, label_of,
}
use configurable_crm.Undo.Values.{append_action-current, get_key-set_key, get_key-pop_key}
use configurable_crm.Leads.Values.{LeadField, Payload}
use configurable_crm.Leads.Merge.{
  Database, merge_values, write_value, label_in, open_stage, resolve_lost_reason, assert_member,
}
use configurable_crm.Leads.Update.{
  is_id, move_to, give_to, apply_stage, apply_assignee, apply_rating,
}
use configurable_crm.Leads.Written.{
  append_action-id, Same, action_of, Written, Written-trans, unchanged-Written,
  append_action-Written, append_action-moves,
}

-- What a write of a value does to the targets.
get_key-write_value :
    (k j : String) (v : Option Json) (values : List (String × Json))
    → get_key j (write_value k v values) ≡ (if str_eq k j then v else get_key j values)
get_key-write_value k j none values = get_key-pop_key k j values
get_key-write_value k j (some v) values = get_key-set_key k j v values

abbrev with_values : Lead → List (String × Json) → Lead
with_values lead values = record lead { values = values }

write_value-other :
    (lead : Lead) (k : String) (v : Option Json) (t : Target)
    → target_eq (field k) t ≡ false
    → current_value (with_values lead (write_value k v lead.values)) t ≡ current_value lead t
unfolding current_value
write_value-other lead k v (field j) e = ground (arith, e, get_key-write_value k j v lead.values)
write_value-other lead k v stage e = refl
write_value-other lead k v assignee e = refl
write_value-other lead k v rating e = refl

write_value-own :
    (lead : Lead) (k : String) (v : Option Json)
    → current_value (with_values lead (write_value k v lead.values)) (field k) ≡ of_json v
unfolding current_value
write_value-own lead k v =
    let here : str_eq k k ≡ true = (eq_iff k k).1 refl in
    ap of_json (get_key-write_value k k v lead.values ∙ rw here refl)

field_change-change :
    (labels : List (String × String)) (w : ActionWriter) (now : ℕ) (lead : Lead) (d : FieldDelta)
    → str_eq d.field_key "" ≡ false
    → change_of labels
        (action_of w now lead field_change (field_delta d.field_key d.label d.old d.new))
      ≡ some (record {
        target = field d.field_key;
        label = label_of labels d.field_key d.label (get_key d.field_key labels);
        old = of_json d.old;
        new = of_json d.new;
      })
unfolding change_of
field_change-change labels w now lead d name = rw name refl

-- No key is the empty text.
abbrev pub AreNamed : Payload → Type 0
AreNamed out = All (λ (v : String × Option Json). str_eq v.0 "" ≡ false) out

module _ (labels : List (String × String)) (fields : List LeadField) (w : ActionWriter)
    (now : ℕ) where
  pub field_changes-Written :
      (out : Payload) (first lead : Lead) (l : Ledger) (md : List (String × Json) × List FieldDelta)
      → merge_values fields out first.values ≡ md
      → AreNamed out
      → Same lead (with_values first md.0)
      → lead.id ≡ first.id
      → Written labels w (first, l) (record_field_changes w now lead md.1 l)
  unfolding merge_values record_field_changes current_value
  field_changes-Written [] first lead l md e named same i =
      rw (← e) (unchanged-Written labels w first lead l (rw (← e) at same) i)
  field_changes-Written ((key, new) ∷ out) first lead l md e (name, named) same i =
      elim (Bool-cases (json_eq (get_key key first.values) new)) [
        | inl kept ↦
            field_changes-Written out first lead l md (ground (arith, kept, e)) named same i
        | inr moved ↦
            let next = with_values first (write_value key new first.values) in
            let rest = merge_values fields out next.values in
            let old = get_key key first.values in
            let d : FieldDelta = record {
              field_key = key;
              label = label_in fields key;
              old = old;
              new = new;
            } in
            let split : (rest.0, d ∷ rest.1) ≡ md = ground (arith, moved, e) in
            let p = field_delta key d.label old new in
            let (lead', l') = append_action w now lead field_change p l in
            let still : Same lead' (with_values next rest.0) =
              λ t. append_action-current w now lead field_change p l t ∙ rw (← split) at same t in
            rw (← split) (
              Written-trans labels w (first, l) (next, l')
                (record_field_changes w now lead' rest.1 l')
                (append_action-moves labels w now first lead field_change p l next
                  (record {
                    target = field key;
                    label = label_of labels key d.label (get_key key labels);
                    old = of_json old;
                    new = of_json new;
                  })
                  i refl (field_change-change labels w now lead d name) refl
                  (sym (write_value-own first key new)) (λ t. write_value-other first key new t))
                (field_changes-Written out next lead' l' rest refl named still
                  (append_action-id w now lead field_change p l ∙ i)))
      ]

-- Every target but the one that a step writes keeps what it holds.
stage-other :
    (lead : Lead) (new reason : Option ℕ) (t : Target)
    → target_eq stage t ≡ false
    → current_value (record lead { stage_id = new; lost_reason_id = reason }) t
      ≡ current_value lead t
unfolding current_value
stage-other lead new reason (field k) e = refl
stage-other lead new reason stage e = absurd (ground (arith, e))
stage-other lead new reason assignee e = refl
stage-other lead new reason rating e = refl

assignee-other :
    (lead : Lead) (new : Option ℕ) (t : Target)
    → target_eq assignee t ≡ false
    → current_value (record lead { assignee_id = new }) t ≡ current_value lead t
unfolding current_value
assignee-other lead new (field k) e = refl
assignee-other lead new stage e = refl
assignee-other lead new assignee e = absurd (ground (arith, e))
assignee-other lead new rating e = refl

rating-other :
    (lead : Lead) (new : Option ℕ) (t : Target)
    → target_eq rating t ≡ false
    → current_value (record lead { rating = new }) t ≡ current_value lead t
unfolding current_value
rating-other lead new (field k) e = refl
rating-other lead new stage e = refl
rating-other lead new assignee e = refl
rating-other lead new rating e = absurd (ground (arith, e))

module _ (labels : List (String × String)) (db : Database) (w : ActionWriter) (now : ℕ) where
  move_to-Written :
      (i : ℕ) (reason : Option ℕ) (lead : Lead) (l : Ledger) (out : Lead × Ledger)
      → move_to db w now i reason lead l ≡ ok out
      → Written labels w (lead, l) out
  unfolding move_to record_stage_move change_of current_value
  move_to-Written i reason lead l out h =
      let (x, _, rest) = >>=-eq-ok (open_stage i db.stages) (λ _. _) h in
      let (resolved, _, e) =
        >>=-eq-ok (resolve_lost_reason x reason db.lost_reasons) (λ _. _) rest in
      rw (← ok_inj e) (
        append_action-Written labels w now lead
          (record lead { stage_id = some x.id; lost_reason_id = resolved }) stage_change
          (stage_ids lead.stage_id (some x.id) resolved) l _ refl refl refl refl
          (stage-other lead (some x.id) resolved))

  pub apply_stage-Written :
      (i reason : Option ℕ) (lead : Lead) (l : Ledger) (out : Lead × Ledger)
      → apply_stage db w now i reason lead l ≡ ok out
      → Written labels w (lead, l) out
  unfolding apply_stage
  apply_stage-Written none reason lead l out h =
      rw (← ok_inj h) (unchanged-Written labels w lead lead l (λ t. refl) refl)
  apply_stage-Written (some i) reason lead l out h = elim (Bool-cases (is_id lead.stage_id i)) [
    | inl e ↦
        let same : (lead, l) ≡ out = ground (arith, e, h) in
        rw (← same) (unchanged-Written labels w lead lead l (λ t. refl) refl)
    | inr e ↦ move_to-Written i reason lead l out (ground (arith, e, h))
  ]

  give_to-Written :
      (m : ℕ) (lead : Lead) (l : Ledger) (out : Lead × Ledger)
      → give_to db w now m lead l ≡ ok out
      → Written labels w (lead, l) out
  unfolding give_to record_assignment_change change_of current_value
  give_to-Written m lead l out h =
      let (_, _, e) = >>=-eq-ok (assert_member m db.members) (λ _. _) h in
      rw (← ok_inj e) (
        append_action-Written labels w now lead (record lead { assignee_id = some m })
          assignment_change (assignee_ids lead.assignee_id (some m)) l _ refl refl refl refl
          (assignee-other lead (some m)))

  pub apply_assignee-Written :
      (m : Option ℕ) (lead : Lead) (l : Ledger) (out : Lead × Ledger)
      → apply_assignee db w now m lead l ≡ ok out
      → Written labels w (lead, l) out
  unfolding apply_assignee
  apply_assignee-Written none lead l out h =
      rw (← ok_inj h) (unchanged-Written labels w lead lead l (λ t. refl) refl)
  apply_assignee-Written (some m) lead l out h = elim (Bool-cases (is_id lead.assignee_id m)) [
    | inl e ↦
        let same : (lead, l) ≡ out = ground (arith, e, h) in
        rw (← same) (unchanged-Written labels w lead lead l (λ t. refl) refl)
    | inr e ↦ give_to-Written m lead l out (ground (arith, e, h))
  ]

  pub apply_rating-Written :
      (n : Option ℕ) (lead : Lead) (l : Ledger)
      → Written labels w (lead, l) (apply_rating db w now n lead l)
  unfolding apply_rating record_rating_change change_of current_value
  apply_rating-Written none lead l = unchanged-Written labels w lead lead l (λ t. refl) refl
  apply_rating-Written (some n) lead l = elim (Bool-cases (is_id lead.rating n)) [
    | inl e ↦ rw e (unchanged-Written labels w lead lead l (λ t. refl) refl)
    | inr e ↦ rw e (
        append_action-Written labels w now lead (record lead { rating = some n }) rating_change
          (ratings lead.rating (some n)) l _ refl refl refl refl (rating-other lead (some n)))
  ]
