-- ===== src/Fields/Normalise.antt =====
-- Normalisers of api/app/fields/registry.py for texts, checkboxes and the types with options. A result is
-- the value to store, where `none` inside is no value, or none for a `FieldValueError`.
use configurable_crm.Prelude.{
  ℕ, String, Bool, true, false, not, Option, none, some, List, [], ◌∷◌, ◌++◌, ltb, ◌==◌, str_eq,
  has, get_key, if◌then◌else◌,
}
use configurable_crm.Json.{
  get_member, Json, null, text, number, flag, array, object, Items, nil, cons, end, member,
}

-- `str.strip`, `str.lower` and `len`.
pub record Texts : Type 0 where
  pub strip : String → String
  pub lower : String → String
  pub len : String → ℕ

-- The parts of `ValidationContext` for types with options; `none` where there are none.
pub record Context : Type 0 where
  pub option_codes : Option (List String)
  pub option_parents : List (String × Option String)

abbrev pub Stored : Type 0
Stored = Option (Option Json)

-- The types of fields whose entries in `LEAD_FIELD_TYPES` are modelled.
pub data FieldType : Type 0 where
  text_type checkbox dropdown tags dependent_dropdown : FieldType

abbrev pub max_text : ℕ
max_text = 10000

unfoldable pub is_yes : String → Bool
is_yes s = has ("true" ∷ "yes" ∷ "1" ∷ "y" ∷ []) s

unfoldable pub is_no : String → Bool
is_no s = has ("false" ∷ "no" ∷ "0" ∷ "n" ∷ []) s

module _ (texts : Texts) where
  open texts use {strip, lower, len}

  -- `_blank_to_none`
  unfoldable pub blank_to_none : Option Json → Option Json
  blank_to_none none = none
  blank_to_none (some (text s)) = if str_eq (strip s) "" then none else some (text s)
  blank_to_none (some null) = none
  blank_to_none (some (array nil)) = none
  blank_to_none (some (object end)) = none
  blank_to_none (some v) = some v

  -- `_require_str`
  unfoldable pub require_str : Json → Option String
  require_str (text s) = some (strip s)
  require_str _ = none

  unfoldable pub norm_text : Option Json → Stored
  unfolding blank_to_none require_str
  norm_text value = elim (blank_to_none value) [
    | none ↦ some none
    | some v ↦ (elim (require_str v) [
      | none ↦ none
      | some s ↦ if ltb max_text (len s) then none else some (some (text s))
    ])
  ]

  unfoldable pub norm_checkbox : Option Json → Stored
  unfolding is_yes is_no
  norm_checkbox none = some none
  norm_checkbox (some null) = some none
  norm_checkbox (some (flag b)) = some (some (flag b))
  norm_checkbox (some (number n)) =
      if n == 0 then some (some (flag false)) else if n == 1 then some (some (flag true)) else none
  norm_checkbox (some (text s)) =
      let lowered = lower (strip s) in
      if str_eq s ""
      then some none
      else if is_yes lowered
      then some (some (flag true))
      else if is_no lowered
      then some (some (flag false))
      else none
  norm_checkbox (some v) = none

  module _ (ctx : Context) where
    -- `ctx.option_codes is not None and code not in ctx.option_codes`
    abbrev pub is_unknown : String → Bool
    is_unknown code = elim ctx.option_codes [ none ↦ false | some codes ↦ not (has codes code) ]

    unfoldable pub norm_dropdown : Option Json → Stored
    unfolding blank_to_none require_str
    norm_dropdown value = elim (blank_to_none value) [
      | none ↦ some none
      | some v ↦ (elim (require_str v) [
        | none ↦ none
        | some code ↦ if is_unknown code then none else some (some (text code))
      ])
    ]

    -- The loop of `_norm_tags`: the codes so far, and those of the items.
    unfoldable pub collect : List String → Items → Option (List String)
    unfolding require_str
    collect codes nil = some codes
    collect codes (cons item items) = elim (require_str item) [
      | none ↦ none
      | some code ↦
          let skipped = collect codes items in
          let added = collect (codes ++ code ∷ []) items in
          if str_eq code ""
          then skipped
          else if is_unknown code
          then none
          else if has codes code
          then skipped
          else added
    ]

    abbrev pub items_of : Json → Items
    items_of (array items) = items
    items_of v = cons v nil

    unfoldable pub texts_of : List String → Items
    texts_of [] = nil
    texts_of (c ∷ codes) = cons (text c) (texts_of codes)

    -- `codes or None`
    abbrev pub tags_or_none : List String → Option Json
    tags_or_none [] = none
    tags_or_none (c ∷ codes) = some (array (texts_of (c ∷ codes)))

    unfoldable pub norm_tags : Option Json → Stored
    unfolding blank_to_none collect texts_of
    norm_tags value = elim (blank_to_none value) [
      | none ↦ some none
      | some v ↦ (elim (collect [] (items_of v)) [
        | none ↦ none
        | some codes ↦ some (tags_or_none codes)
      ])
    ]

    abbrev pub selected_of : Json → Option Json
    selected_of (object members) = get_member "value" members
    selected_of v = some v

    abbrev pub claimed_of : Json → Option Json
    claimed_of (object members) = get_member "parent" members
    claimed_of v = none

    -- `(ctx.option_parents or {}).get(code)`
    unfoldable pub actual_parent : String → Option String
    actual_parent code = elim (get_key code ctx.option_parents) [ none ↦ none | some p ↦ p ]

    -- The claimed parent, if there is one, is the actual one, if there is one.
    unfoldable pub agrees : Option Json → Option String → Bool
    unfolding require_str
    agrees none actual = true
    agrees (some null) actual = true
    agrees (some claimed) none = true
    agrees (some claimed) (some p) = elim (require_str claimed) [
      | none ↦ false
      | some s ↦ str_eq s p
    ]

    abbrev pub parent_and_value : Option String → String → Json
    parent_and_value none code = object (member "parent" null (member "value" (text code) end))
    parent_and_value (some p) code =
        object (member "parent" (text p) (member "value" (text code) end))

    unfoldable pub norm_selected : Option Json → Option Json → Stored
    unfolding blank_to_none agrees actual_parent
    norm_selected selected claimed = elim (blank_to_none selected) [
      | none ↦ some none
      | some v ↦ (elim (require_str v) [
        | none ↦ none
        | some code ↦
            if is_unknown code
            then none
            else if agrees claimed (actual_parent code)
            then some (some (parent_and_value (actual_parent code) code))
            else none
      ])
    ]

    unfoldable pub norm_dependent_dropdown : Option Json → Stored
    unfolding norm_selected get_member
    norm_dependent_dropdown value = elim (blank_to_none value) [
      | none ↦ some none
      | some v ↦ norm_selected (selected_of v) (claimed_of v)
    ]

    -- `LEAD_FIELD_TYPES[field_type].normalise`
    unfoldable pub normalise_as : FieldType → Option Json → Stored
    unfolding norm_text norm_checkbox norm_dropdown norm_tags norm_dependent_dropdown
    normalise_as text_type value = norm_text value
    normalise_as checkbox value = norm_checkbox value
    normalise_as dropdown value = norm_dropdown value
    normalise_as tags value = norm_tags value
    normalise_as dependent_dropdown value = norm_dependent_dropdown value
