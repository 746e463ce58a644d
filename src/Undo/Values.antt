-- ===== src/Undo/Values.antt =====
-- What the writes of an undo do to the values of a lead.
use configurable_crm.Prelude.{
  ℕ, String, true, Option, none, some, List, [], ◌∷◌, ◌≡◌, ◌↔◌, refl, ◌∙◌, str_eq, eq_iff, get_key,
  if◌then◌else◌, arith,
}
use configurable_crm.Json.{Json, json_eq_iff}
use configurable_crm.Timeline.{
  Lead, Ledger, ActionWriter, field_change, stage_change, assignment_change, rating_change,
  field_delta, stage_ids, assignee_ids, ratings, FieldDelta, touch, append_action,
  record_field_changes, record_stage_change, record_assignment_change, record_rating_change,
}
use configurable_crm.Undo.Plan.{
  Target, field, stage, assignee, rating, Value, absent, stored, reference, stars, target_eq,
  value_eq, of_json, of_id, of_rating, current_value, Reversal,
}
use configurable_crm.Undo.Service.{
  set_key, pop_key, write_key, as_json, as_id, as_rating, apply_reversal,
}

pub target_eq_iff : (a b : Target) → (target_eq a b ≡ true) ↔ (a ≡ b)
target_eq_iff (field k) (field j) = ground (arith, eq_iff k j)
target_eq_iff (field k) stage = ground arith
target_eq_iff (field k) assignee = ground arith
target_eq_iff (field k) rating = ground arith
target_eq_iff stage (field j) = ground arith
target_eq_iff stage stage = ground arith
target_eq_iff stage assignee = ground arith
target_eq_iff stage rating = ground arith
target_eq_iff assignee (field j) = ground arith
target_eq_iff assignee stage = ground arith
target_eq_iff assignee assignee = ground arith
target_eq_iff assignee rating = ground arith
target_eq_iff rating (field j) = ground arith
target_eq_iff rating stage = ground arith
target_eq_iff rating assignee = ground arith
target_eq_iff rating rating = ground arith

pub value_eq_refl : (v : Value) → value_eq v v ≡ true
unfolding value_eq
value_eq_refl absent = refl
value_eq_refl (stored a) = (json_eq_iff (some a) (some a)).1 refl
value_eq_refl (reference a) = ground arith
value_eq_refl (stars a) = ground arith

-- The kinds of values that a target can hold.
abbrev pub Fits : Target → Value → Type 0
Fits (field k) v = of_json (as_json v) ≡ v
Fits stage v = of_id (as_id v) ≡ v
Fits assignee v = of_id (as_id v) ≡ v
Fits rating v = of_rating (as_rating v) ≡ v

json_fits : (o : Option Json) → of_json (as_json (of_json o)) ≡ of_json o
json_fits none = refl
json_fits (some v) = refl

id_fits : (o : Option ℕ) → of_id (as_id (of_id o)) ≡ of_id o
id_fits none = refl
id_fits (some i) = refl

rating_fits : (o : Option ℕ) → of_rating (as_rating (of_rating o)) ≡ of_rating o
rating_fits none = refl
rating_fits (some n) = refl

pub current_value-Fits : (lead : Lead) (t : Target) → Fits t (current_value lead t)
unfolding current_value
current_value-Fits lead (field k) = json_fits (get_key k lead.values)
current_value-Fits lead stage = id_fits lead.stage_id
current_value-Fits lead assignee = id_fits lead.assignee_id
current_value-Fits lead rating = rating_fits lead.rating

pub get_key-set_key :
    (k j : String) (v : Json) (values : List (String × Json))
    → get_key j (set_key k v values) ≡ (if str_eq k j then some v else get_key j values)
unfolding set_key
get_key-set_key k j v [] = ground (arith, eq_iff k j, eq_iff j k)
get_key-set_key k j v ((i, w) ∷ rest) =
    ground (arith, get_key-set_key k j v rest, eq_iff k i, eq_iff j i, eq_iff k j)

pub get_key-pop_key :
    (k j : String) (values : List (String × Json))
    → get_key j (pop_key k values) ≡ (if str_eq k j then none else get_key j values)
unfolding pop_key
get_key-pop_key k j [] = ground arith
get_key-pop_key k j ((i, w) ∷ rest) =
    ground (arith, get_key-pop_key k j rest, eq_iff k i, eq_iff j i, eq_iff k j)

pub get_key-write_key :
    (k j : String) (v : Value) (values : List (String × Json))
    → get_key j (write_key k v values) ≡ (if str_eq k j then as_json v else get_key j values)
get_key-write_key k j absent values = get_key-pop_key k j values
get_key-write_key k j (stored v) values = get_key-set_key k j v values
get_key-write_key k j (reference i) values = get_key-pop_key k j values
get_key-write_key k j (stars n) values = get_key-pop_key k j values

-- Recording an action does not change what a target holds.
pub append_action-current :
    (w : ActionWriter) (now : ℕ) (lead : Lead) (k : _) (p : _) (l : Ledger) (t : Target)
    → current_value (append_action w now lead k p l).0 t ≡ current_value lead t
unfolding current_value append_action touch
append_action-current w now lead k p l (field key) = ground arith
append_action-current w now lead k p l stage = ground arith
append_action-current w now lead k p l assignee = ground arith
append_action-current w now lead k p l rating = ground arith

pub record_field_changes-current :
    (w : ActionWriter) (now : ℕ) (lead : Lead) (ds : List FieldDelta) (l : Ledger) (t : Target)
    → current_value (record_field_changes w now lead ds l).0 t ≡ current_value lead t
unfolding record_field_changes
record_field_changes-current w now lead [] l t = refl
record_field_changes-current w now lead (d ∷ ds) l t =
    let step =
      append_action w now lead field_change (field_delta d.field_key d.label d.old d.new) l in
    record_field_changes-current w now step.0 ds step.1 t
    ∙ append_action-current w now lead field_change (field_delta d.field_key d.label d.old d.new) l
        t

-- The write of a reversal, without what is recorded of it.
abbrev pub set_target : Target → Value → Lead → Lead
set_target (field k) v lead = record lead { values = write_key k v lead.values }
set_target stage v lead = record lead { stage_id = as_id v }
set_target assignee v lead = record lead { assignee_id = as_id v }
set_target rating v lead = record lead { rating = as_rating v }

current_value-set_target :
    (s t : Target) (v : Value) (lead : Lead)
    → Fits s v
    → current_value (set_target s v lead) t ≡ (if target_eq s t then v else current_value lead t)
unfolding current_value
current_value-set_target (field k) (field j) v lead fit =
    ground (arith, get_key-write_key k j v lead.values, fit)
current_value-set_target (field k) stage v lead fit = refl
current_value-set_target (field k) assignee v lead fit = refl
current_value-set_target (field k) rating v lead fit = refl
current_value-set_target stage (field j) v lead fit = refl
current_value-set_target stage stage v lead fit = fit
current_value-set_target stage assignee v lead fit = refl
current_value-set_target stage rating v lead fit = refl
current_value-set_target assignee (field j) v lead fit = refl
current_value-set_target assignee stage v lead fit = refl
current_value-set_target assignee assignee v lead fit = fit
current_value-set_target assignee rating v lead fit = refl
current_value-set_target rating (field j) v lead fit = refl
current_value-set_target rating stage v lead fit = refl
current_value-set_target rating assignee v lead fit = refl
current_value-set_target rating rating v lead fit = fit

module _ (w : ActionWriter) (now : ℕ) (lead : Lead) (deltas : List FieldDelta) (l : Ledger) where
  -- A reversal writes its target, and records that without another change.
  apply_reversal-set_target :
      (r : Reversal) (s t : Target)
      → r.target ≡ s
      → current_value (apply_reversal w now r lead deltas l).0 t
        ≡ current_value (set_target s r.revert_to lead) t
  unfolding apply_reversal record_stage_change record_assignment_change record_rating_change
  apply_reversal-set_target r (field k) t e = ground (arith, e)
  apply_reversal-set_target r stage t e =
      let to = as_id r.revert_to in
      ground (
        arith,
        e,
        append_action-current w now (record lead { stage_id = to }) stage_change
            (stage_ids lead.stage_id to none) l t,
      )
  apply_reversal-set_target r assignee t e =
      let to = as_id r.revert_to in
      ground (
        arith,
        e,
        append_action-current w now (record lead { assignee_id = to }) assignment_change
            (assignee_ids lead.assignee_id to) l t,
      )
  apply_reversal-set_target r rating t e =
      let to = as_rating r.revert_to in
      ground (
        arith,
        e,
        append_action-current w now (record lead { rating = to }) rating_change
            (ratings lead.rating to) l t,
      )

  -- After a reversal its target holds what it reverts to, and every other target what it held.
  pub apply_reversal-current :
      (r : Reversal) (t : Target)
      → Fits r.target r.revert_to
      → current_value (apply_reversal w now r lead deltas l).0 t
        ≡ (if target_eq r.target t then r.revert_to else current_value lead t)
  apply_reversal-current r t fit =
      apply_reversal-set_target r r.target t refl
      ∙ current_value-set_target r.target t r.revert_to lead fit
