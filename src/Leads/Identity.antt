-- ===== src/Leads/Identity.antt =====
-- The identity of a lead through the steps of an edit (api/app/services/leads.py).
use configurable_crm.Prelude.{
  ℕ, ◌≤◌, String, Bool, false, not, ◌&&◌, Option, none, some, List, [], ◌∷◌, ◌≡◌, ◌⊎◌, inl, inr,
  refl, sym, ◌∙◌, arith, any, count, str_eq, Bool-cases,
}
use configurable_crm.Json.{Json, truthy}
use configurable_crm.Errors.{ok, >>=-eq-ok, ok_inj, ◌>>◌}
use configurable_crm.Timeline.{
  Lead, Ledger, ActionWriter, SystemActionKind, field_change, field_delta, Payload as ActionPayload,
  FieldDelta, append_action, touch, record_field_changes, record_stage_move,
  record_assignment_change, record_rating_change,
}
use configurable_crm.Leads.Merge.{
  Database, is_live, assert_identity_free, assert_member, open_stage, resolve_lost_reason,
  new_identity,
}
use configurable_crm.Leads.Update.{
  is_id, move_to, apply_stage, give_to, apply_assignee, apply_rating,
}

-- The lead is live and has this identity.
abbrev pub holds_identity : String → Lead → Bool
holds_identity s l = str_eq l.identity_value s && is_live l

abbrev pub IsUnique : List Lead → Type 0
IsUnique leads = (s : String) → count (holds_identity s) leads ≤ 1

-- A lead after a step that leaves alone whether it lives and whom it names.
unfoldable pub Keeps : Lead → Lead → Type 0
Keeps a b = (b.identity_value ≡ a.identity_value) × (b.deleted_at ≡ a.deleted_at) × (b.id ≡ a.id)

pub Keeps-parts :
    (a b : Lead)
    → Keeps a b
    → (b.identity_value ≡ a.identity_value) × (b.deleted_at ≡ a.deleted_at) × (b.id ≡ a.id)
unfolding Keeps
Keeps-parts a b h = h

pub Keeps-trans : (a b c : Lead) → Keeps a b → Keeps b c → Keeps a c
unfolding Keeps
Keeps-trans a b c (i, d, k) (j, e, l) = (j ∙ i, e ∙ d, l ∙ k)

pub append_action-Keeps :
    (w : ActionWriter) (now : ℕ) (lead : Lead) (k : SystemActionKind) (p : ActionPayload)
    (l : Ledger)
    → Keeps lead (append_action w now lead k p l).0
unfolding append_action touch Keeps
append_action-Keeps w now lead k p l = ground arith

pub record_field_changes-Keeps :
    (w : ActionWriter) (now : ℕ) (lead : Lead) (ds : List FieldDelta) (l : Ledger)
    → Keeps lead (record_field_changes w now lead ds l).0
unfolding record_field_changes Keeps
record_field_changes-Keeps w now lead [] l = (refl, refl, refl)
record_field_changes-Keeps w now lead (d ∷ ds) l =
    let p = field_delta d.field_key d.label d.old d.new in
    let (lead', l') = append_action w now lead field_change p l in
    Keeps-trans lead lead' (record_field_changes w now lead' ds l').0
      (append_action-Keeps w now lead field_change p l)
      (record_field_changes-Keeps w now lead' ds l')

module _ (db : Database) (w : ActionWriter) (now : ℕ) where
  pub apply_stage-Keeps :
      (i reason : Option ℕ) (lead : Lead) (l : Ledger) (out : Lead × Ledger)
      → apply_stage db w now i reason lead l ≡ ok out
      → Keeps lead out.0
  unfolding apply_stage move_to record_stage_move Keeps
  apply_stage-Keeps none reason lead l out h = rw (← ok_inj h) (refl, refl, refl)
  apply_stage-Keeps (some i) reason lead l out h = elim (Bool-cases (is_id lead.stage_id i)) [
    | inl e ↦ let same : (lead, l) ≡ out = ground (arith, e, h) in rw (← same) (refl, refl, refl)
    | inr e ↦
        let moved : move_to db w now i reason lead l ≡ ok out = ground (arith, e, h) in
        let (x, _, rest) = >>=-eq-ok (open_stage i db.stages) (λ _. _) moved in
        let (resolved, _, e) =
          >>=-eq-ok (resolve_lost_reason x reason db.lost_reasons) (λ _. _) rest in
        rw (← ok_inj e) (
          append_action-Keeps w now
            (record lead { stage_id = some x.id; lost_reason_id = resolved }) _ _ l)
  ]

  pub apply_assignee-Keeps :
      (m : Option ℕ) (lead : Lead) (l : Ledger) (out : Lead × Ledger)
      → apply_assignee db w now m lead l ≡ ok out
      → Keeps lead out.0
  unfolding apply_assignee give_to record_assignment_change Keeps
  apply_assignee-Keeps none lead l out h = rw (← ok_inj h) (refl, refl, refl)
  apply_assignee-Keeps (some m) lead l out h = elim (Bool-cases (is_id lead.assignee_id m)) [
    | inl e ↦ let same : (lead, l) ≡ out = ground (arith, e, h) in rw (← same) (refl, refl, refl)
    | inr e ↦
        let given : give_to db w now m lead l ≡ ok out = ground (arith, e, h) in
        let (_, _, e) = >>=-eq-ok (assert_member m db.members) (λ _. _) given in
        rw (← ok_inj e) (append_action-Keeps w now (record lead { assignee_id = some m }) _ _ l)
  ]

  pub apply_rating-Keeps :
      (n : Option ℕ) (lead : Lead) (l : Ledger) → Keeps lead (apply_rating db w now n lead l).0
  unfolding apply_rating record_rating_change Keeps
  apply_rating-Keeps none lead l = (refl, refl, refl)
  apply_rating-Keeps (some n) lead l = elim (Bool-cases (is_id lead.rating n)) [
    | inl e ↦ rw e (refl, refl, refl)
    | inr e ↦ rw e (append_action-Keeps w now (record lead { rating = some n }) _ _ l)
  ]

pub count-free :
    (s : String) (leads : List Lead)
    → any (holds_identity s) leads ≡ false
    → count (holds_identity s) leads ≡ 0
count-free s [] h = refl
count-free s (l ∷ leads) h = ground (arith, h, count-free s leads)

pub assert_identity_free-count :
    (s : String) (leads : List Lead) (u : Unit {0})
    → assert_identity_free s leads ≡ ok u
    → count (holds_identity s) leads ≡ 0
unfolding assert_identity_free
assert_identity_free-count s leads u h = elim (Bool-cases (any (holds_identity s) leads)) [
  | inl taken ↦ absurd (ground (arith, taken, h))
  | inr free ↦ count-free s leads free
]

-- The identity is the old one, or no live lead has it.
abbrev pub IsFreeFor : List Lead → Lead → String → Type 0
IsFreeFor leads lead s = (s ≡ lead.identity_value) ⊎ (count (holds_identity s) leads ≡ 0)

pub new_identity-IsFreeFor :
    (show : Json → String) (v : Option (Option Json)) (lead : Lead) (leads : List Lead) (s : String)
    → new_identity show v lead leads ≡ ok s
    → IsFreeFor leads lead s
unfolding new_identity
new_identity-IsFreeFor show none lead leads s h = inl (sym (ok_inj h))
new_identity-IsFreeFor show (some none) lead leads s h = inl (sym (ok_inj h))
new_identity-IsFreeFor show (some (some v)) lead leads s h =
    elim (Bool-cases (truthy v && not (str_eq (show v) lead.identity_value))) [
      | inl e ↦
          let run : (assert_identity_free (show v) leads >> ok (show v)) ≡ ok s =
            ground (arith, e, h) in
          let (u, free, e') = >>=-eq-ok (assert_identity_free (show v) leads) (λ _. _) run in
          inr (rw (← ok_inj e') (assert_identity_free-count (show v) leads u free))
      | inr e ↦
          let same : ok lead.identity_value ≡ ok s = ground (arith, e, h) in inl (sym (ok_inj same))
    ]
