-- ===== src/Undo/Plan.antt =====
-- `UndoService._plan_for` (api/app/services/undo.py): the actions of a changeset on one lead, as one
-- reversal for each target.
use configurable_crm.Prelude.{
  ℕ, String, Bool, true, false, not, Option, none, some, List, [], ◌∷◌, map, ◌==◌, sort_by, str_eq,
  text_before, get_key, if◌then◌else◌,
}
use configurable_crm.Json.{Json, json_eq}
use configurable_crm.Timeline.{
  Lead, Action, Payload, field_delta, stage_ids, assignee_ids, ratings, field_change, stage_change,
  assignment_change, rating_change,
}

-- `values.<key>`, `stage`, `assignee` or `rating`.
pub data Target : Type 0 where
  field : String → Target
  stage assignee rating : Target

-- What a target holds: nothing (`None`), a stored value, the identifier of a row, or a number of stars.
pub data Value : Type 0 where
  absent : Value
  stored : Json → Value
  reference : ℕ → Value
  stars : ℕ → Value

abbrev pub target_eq : Target → Target → Bool
target_eq (field k) (field j) = str_eq k j
target_eq stage stage = true
target_eq assignee assignee = true
target_eq rating rating = true
target_eq _ _ = false

-- The order of the targets' texts: "assignee", "rating", "stage", "values.…".
abbrev pub target_before : Target → Target → Bool
target_before (field k) (field j) = text_before k j
target_before (field k) _ = false
target_before _ (field j) = true
target_before assignee assignee = false
target_before assignee _ = true
target_before rating stage = true
target_before _ _ = false

unfoldable pub value_eq : Value → Value → Bool
unfolding json_eq
value_eq absent absent = true
value_eq (stored a) (stored b) = json_eq (some a) (some b)
value_eq (reference a) (reference b) = a == b
value_eq (stars a) (stars b) = a == b
value_eq _ _ = false

abbrev pub of_json : Option Json → Value
of_json none = absent
of_json (some v) = stored v

abbrev pub of_id : Option ℕ → Value
of_id none = absent
of_id (some i) = reference i

abbrev pub of_rating : Option ℕ → Value
of_rating none = absent
of_rating (some n) = stars n

-- `_current_value`
unfoldable pub current_value : Lead → Target → Value
current_value lead (field k) = of_json (get_key k lead.values)
current_value lead stage = of_id lead.stage_id
current_value lead assignee = of_id lead.assignee_id
current_value lead rating = of_rating lead.rating

pub record Change : Type 0 where
  pub target : Target
  pub label : String
  pub old : Value
  pub new : Value

-- `payload.get("label") or labels.get(key, key)`
abbrev pub label_of : List (String × String) → String → String → Option String → String
label_of labels key label found =
    if str_eq label "" then (elim found [ none ↦ key | some l ↦ l ]) else label

abbrev field_change_of : List (String × String) → Payload → Option Change
field_change_of labels (field_delta key label old new) =
    if str_eq key ""
    then none
    else some record {
      target = field key;
      label = label_of labels key label (get_key key labels);
      old = of_json old;
      new = of_json new;
    }
field_change_of labels _ = none

abbrev stage_change_of : Payload → Change
stage_change_of (stage_ids old new reason) = record {
  target = stage;
  label = "Stage";
  old = of_id old;
  new = of_id new;
}
stage_change_of _ = record { target = stage; label = "Stage"; old = absent; new = absent }

abbrev assignment_change_of : Payload → Change
assignment_change_of (assignee_ids old new) = record {
  target = assignee;
  label = "Assignee";
  old = of_id old;
  new = of_id new;
}
assignment_change_of _ = record {
  target = assignee;
  label = "Assignee";
  old = absent;
  new = absent;
}

abbrev rating_change_of : Payload → Change
rating_change_of (ratings old new) = record {
  target = rating;
  label = "Rating";
  old = of_rating old;
  new = of_rating new;
}
rating_change_of _ = record { target = rating; label = "Rating"; old = absent; new = absent }

-- The first loop of `_plan_for`, for one action. A kind comes with the payload that `ActionWriter`
-- gives it.
unfoldable pub change_of : List (String × String) → Action → Option Change
change_of labels action = elim action.kind [
  | field_change ↦ field_change_of labels action.payload
  | stage_change ↦ some (stage_change_of action.payload)
  | assignment_change ↦ some (assignment_change_of action.payload)
  | rating_change ↦ some (rating_change_of action.payload)
  | _ ↦ none
]

-- A key of the dictionaries `first`, `last` and `names`, with what they hold for it.
pub record Entry : Type 0 where
  pub target : Target
  pub label : String
  pub revert_to : Value
  pub expected : Value

-- `first.setdefault`, `last[target] = …` and `names[target] = …`
unfoldable pub add_change : Change → List Entry → List Entry
add_change c [] =
    record { target = c.target; label = c.label; revert_to = c.old; expected = c.new } ∷ []
add_change c (e ∷ es) =
    if target_eq e.target c.target
    then record e { label = c.label; expected = c.new } ∷ es
    else e ∷ add_change c es

unfoldable pub collapse : List (String × String) → List Action → List Entry → List Entry
unfolding change_of add_change
collapse labels [] es = es
collapse labels (a ∷ rest) es =
    collapse labels rest (elim (change_of labels a) [ none ↦ es | some c ↦ add_change c es ])

pub record Reversal : Type 0 where
  pub target : Target
  pub label : String
  pub revert_to : Value
  pub expected : Value
  pub current : Value
  pub conflicted : Bool

unfoldable pub reversal_of : Lead → Entry → Reversal
unfolding current_value value_eq
reversal_of lead e =
    let current = current_value lead e.target in
    record {
      target = e.target;
      label = e.label;
      revert_to = e.revert_to;
      expected = e.expected;
      current = current;
      conflicted = not (value_eq current e.expected);
    }

-- `_plan_for`
unfoldable pub plan_for : Lead → List Action → List (String × String) → List Reversal
unfolding collapse reversal_of sort_by
plan_for lead actions labels =
    sort_by (λ (a : Reversal) (b : Reversal). target_before a.target b.target)
      (map (reversal_of lead) (collapse labels actions []))
