-- ===== src/Assignment/Strategy.antt =====
-- `validate_strategy_config` (api/app/services/assignment.py), on the dictionary that a request or the column holds.
-- The identifiers that are stored are their numbers.
use configurable_crm.Prelude.{
  ℕ, Integer, from_zero, below, String, ◌&&◌, Option, none, some, List, [], ◌∷◌, leb, if◌then◌else◌,
}
use configurable_crm.Json.{
  Json, Items, Members, null, text, number, array, object, nil, cons, end, member, get_member,
  truthy,
}
use configurable_crm.Errors.{
  Result, ok, raise, unprocessable, api_error, invalid_config, value_error, ◌>>=◌,
}
use configurable_crm.Assignment.Rows.{
  AssignmentStrategy, round_robin, weighted, field_value, sales_group, fixed, unassigned, Config,
}
use configurable_crm.Assignment.Engine.{max_weight, weight_or_one}

abbrev pub no_keys : Config
no_keys = record {
  membership_ids = [];
  members = [];
  group_id = none;
  field_key = none;
  mapping = [];
  fallback = none;
  membership_id = none;
}

-- Python's `int` of a value, `none` where it raises; the number that stands for an identifier, by its text, and
-- a text of the identifier that a number stands for.
pub record Conversions : Type 0 where
  pub int : Json → Option Integer
  pub id_of : String → ℕ
  pub text_of : ℕ → String

-- `isinstance(value, list)`, with no items for everything else.
abbrev pub listed : Option Json → Items
listed (some (array items)) = items
listed _ = nil

-- `isinstance(value, dict)`
abbrev pub dict_members : Option Json → Members
dict_members (some (object members)) = members
dict_members _ = end

-- `value`, if it is there and true.
unfoldable pub if_true : Option Json → Option Json
if_true none = none
if_true (some v) = if truthy v then some v else none

module _ (show : Json → String) (conv : Conversions) where
  -- `str(value)`, as an identifier.
  abbrev pub id_at : Json → ℕ
  id_at v = conv.id_of (show v)

  unfoldable pub ids_at : Items → List ℕ
  ids_at nil = []
  ids_at (cons v items) = id_at v ∷ ids_at items

  unfoldable pub mapping_at : Members → List (String × ℕ)
  mapping_at end = []
  mapping_at (member k v members) = (k, id_at v) ∷ mapping_at members

  -- `int(row.get("weight", 1))` and its bounds.
  unfoldable pub weight_at : Option Json → Result ℕ
  weight_at none = ok 1
  weight_at (some v) = elim (conv.int v) [
    | none ↦ raise (api_error 500 value_error)
    | some (below n) ↦ raise (unprocessable invalid_config)
    | some (from_zero n) ↦
        if leb 1 n && leb n max_weight then ok n else raise (unprocessable invalid_config)
  ]

  unfoldable pub clean_row : Json → Result (ℕ × Option ℕ)
  unfolding weight_at get_member
  clean_row (object row) = elim (get_member "membership_id" row) [
    | none ↦ raise (unprocessable invalid_config)
    | some m ↦ do weight ← weight_at (get_member "weight" row); ok (id_at m, some weight)
  ]
  clean_row _ = raise (unprocessable invalid_config)

  -- The loop over the rows of a weighted rule: each weight is checked, and written out.
  unfoldable pub clean_members : Items → Result (List (ℕ × Option ℕ))
  unfolding clean_row
  clean_members nil = ok []
  clean_members (cons row items) = do
    cleaned ← clean_row row
    more ← clean_members items
    ok (cleaned ∷ more)

  unfoldable pub weighted_config : Items → Result Config
  unfolding clean_members
  weighted_config nil = raise (unprocessable invalid_config)
  weighted_config (cons row items) = do
    cleaned ← clean_members (cons row items)
    ok (record no_keys { members = cleaned })

  unfoldable pub ring_config : Items → Result Config
  unfolding ids_at
  ring_config nil = raise (unprocessable invalid_config)
  ring_config (cons v items) = ok (record no_keys { membership_ids = ids_at (cons v items) })

  unfoldable pub group_config : Option Json → Result Config
  group_config none = raise (unprocessable invalid_config)
  group_config (some g) = ok (record no_keys { group_id = some (id_at g) })

  unfoldable pub fixed_config : Option Json → Result Config
  fixed_config none = raise (unprocessable invalid_config)
  fixed_config (some m) = ok (record no_keys { membership_id = some (id_at m) })

  abbrev id_if : Option Json → Option ℕ
  id_if none = none
  id_if (some v) = some (id_at v)

  unfoldable pub map_config : Option Json → Members → Option Json → Result Config
  unfolding mapping_at
  map_config none mapping fallback = raise (unprocessable invalid_config)
  map_config (some k) end fallback = raise (unprocessable invalid_config)
  map_config (some k) (member j v members) fallback = ok (record no_keys {
    field_key = some (show k);
    mapping = mapping_at (member j v members);
    fallback = id_if fallback;
  })

  unfoldable pub validate_strategy_config : AssignmentStrategy → Members → Result Config
  unfolding weighted_config ring_config group_config fixed_config map_config if_true get_member
  validate_strategy_config round_robin c = ring_config (listed (get_member "membership_ids" c))
  validate_strategy_config weighted c = weighted_config (listed (get_member "members" c))
  validate_strategy_config sales_group c = group_config (if_true (get_member "group_id" c))
  validate_strategy_config field_value c =
      map_config (if_true (get_member "field_key" c)) (dict_members (get_member "map" c))
        (if_true (get_member "fallback" c))
  validate_strategy_config fixed c = fixed_config (if_true (get_member "membership_id" c))
  validate_strategy_config unassigned c = ok no_keys

  -- The dictionary that stands in the column for a configuration.
  abbrev pub id_text : ℕ → Json
  id_text i = text (conv.text_of i)

  unfoldable pub id_items : List ℕ → Items
  id_items [] = nil
  id_items (i ∷ ids) = cons (id_text i) (id_items ids)

  unfoldable pub row_items : List (ℕ × Option ℕ) → Items
  row_items [] = nil
  row_items ((m, w) ∷ rows) =
      cons
        (object
          (member "membership_id" (id_text m) (member "weight" (number (weight_or_one w)) end)))
        (row_items rows)

  unfoldable pub map_members : List (String × ℕ) → Members
  map_members [] = end
  map_members ((k, i) ∷ mapping) = member k (id_text i) (map_members mapping)

  abbrev member_if : String → Option Json → Members
  member_if k none = end
  member_if k (some v) = member k v end

  abbrev text_if : Option ℕ → Option Json
  text_if none = none
  text_if (some i) = some (id_text i)

  abbrev key_if : Option String → Json
  key_if none = null
  key_if (some k) = text k

  unfoldable pub dictionary_of : AssignmentStrategy → Config → Members
  unfolding id_items row_items map_members
  dictionary_of round_robin c = member "membership_ids" (array (id_items c.membership_ids)) end
  dictionary_of weighted c = member "members" (array (row_items c.members)) end
  dictionary_of sales_group c = member_if "group_id" (text_if c.group_id)
  dictionary_of field_value c =
      member "field_key" (key_if c.field_key)
        (member "map" (object (map_members c.mapping)) (member_if "fallback" (text_if c.fallback)))
  dictionary_of fixed c = member_if "membership_id" (text_if c.membership_id)
  dictionary_of unassigned c = end
