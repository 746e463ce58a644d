-- ===== src/Pipeline/ActionTypes.antt =====
-- `CustomActionService` (api/app/services/pipeline.py). A new row's key is a parameter. The later edits of
-- an action's form are left out; the field that every form starts with is here.
use configurable_crm.Prelude.{
  ℕ, suc, max, String, Bool, true, false, not, Option, none, some, List, [], ◌∷◌, ◌++◌, ltb, leb,
  str_eq, Integer, from_zero, below, if◌then◌else◌,
}
use configurable_crm.Prelude.Table.{find, update}
use configurable_crm.Errors.{
  score_out_of_range, Result, ok, raise, raise_if, not_found, unprocessable, ◌>>=◌, ◌>>◌,
}
use configurable_crm.Pipeline.Rows.{CustomActionType, ActionField, ActionDirection}
use configurable_crm.Pipeline.Service.{Texts, Taxonomy, or_keep, valid_label, checked_label}

abbrev pub first_action_code : ℕ
first_action_code = 1001

abbrev pub type_key : CustomActionType → ℕ
type_key x = x.id

unfoldable pub get_type : ℕ → Taxonomy → Result CustomActionType
get_type i t = elim (find type_key i t.action_types) [ none ↦ raise not_found | some x ↦ ok x ]

-- `-1000 <= score <= 1000`
abbrev pub in_score_range : Integer → Bool
in_score_range (from_zero n) = leb n 1000
in_score_range (below n) = ltb n 1000

-- `coalesce(max(code), 1000) + 1`
unfoldable pub next_code : List CustomActionType → ℕ
next_code [] = first_action_code
next_code (x ∷ []) = suc x.code
next_code (x ∷ y ∷ ys) = max (suc x.code) (next_code (y ∷ ys))

abbrev pub given_or : Option String → Option String → Option String
given_or none old = old
given_or (some s) old = some s

-- `icon or None`, for an icon that is given.
abbrev pub new_icon : Option String → Option String → Option String
new_icon none old = old
new_icon (some s) old = if str_eq s "" then none else some s

abbrev pub score_allowed : Option Integer → Bool
score_allowed none = true
score_allowed (some n) = in_score_range n

unfoldable pub archive_type : ℕ → Taxonomy → Result Taxonomy
archive_type i t = elim (find type_key i t.action_types) [
  | none ↦ raise not_found
  | some x ↦ ok (record t {
    action_types = update type_key i (λ x. record x { is_archived = true }) t.action_types;
  })
]

module _ (python : Texts) where
  unfoldable pub create_type :
      ℕ
      → String
      → Option String
      → Integer
      → ActionDirection
      → Option String
      → Bool
      → Taxonomy
      → Result Taxonomy
  unfolding valid_label next_code
  create_type id name icon score direction description allow_predated t = do
    label ← valid_label python 80 name
    raise_if (not (in_score_range score)) (unprocessable score_out_of_range)
    let row : CustomActionType = record {
      id = id;
      code = next_code t.action_types;
      name = label;
      icon = icon;
      score = score;
      direction = direction;
      description = description;
      allow_predated = allow_predated;
      is_archived = false;
    }
    let notes : ActionField = record {
      action_type_id = id;
      key = "notes";
      label = "Notes";
      is_required = true;
      sort_order = 0;
    }
    ok (record t {
      action_types = t.action_types ++ row ∷ [];
      action_fields = t.action_fields ++ notes ∷ [];
    })

  -- `code` is no parameter of `update_type`.
  unfoldable pub update_type :
      ℕ
      → Option String
      → Option String
      → Option Integer
      → Option ActionDirection
      → Option String
      → Option Bool
      → Taxonomy
      → Result Taxonomy
  unfolding get_type checked_label
  update_type i name icon score direction description allow_predated t = do
    get_type i t
    label ← checked_label python 80 name
    raise_if (not (score_allowed score)) (unprocessable score_out_of_range)
    ok (record t {
      action_types =
          update type_key i
            (λ x. record x {
              name = or_keep label x.name;
              icon = new_icon icon x.icon;
              score = or_keep score x.score;
              direction = or_keep direction x.direction;
              description = given_or description x.description;
              allow_predated = or_keep allow_predated x.allow_predated;
            })
            t.action_types;
    })
