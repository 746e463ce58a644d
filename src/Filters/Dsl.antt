-- ===== src/Filters/Dsl.antt =====
-- The nodes of a filter with the validators of the models (api/app/filters/dsl.py), and the
-- functions that walk one.
use configurable_crm.Prelude.{
  ℕ, ◌+◌, max, String, Bool, true, false, not, ◌&&◌, ◌||◌, Option, none, some, List, [], ◌∷◌, ◌++◌,
  ltb, leb, if◌then◌else◌, str_eq,
}
use configurable_crm.Json.{Json, Items, Members}
use configurable_crm.Errors.{Code, Result, raise_if, unprocessable, ◌>>◌}
use configurable_crm.Timeline.{SystemActionKind}
use configurable_crm.Filters.Operators.{Operator, Arity}

-- A time window; dates are day numbers.
pub record Within : Type 0 where
  pub last_days : Option ℕ
  pub from_ : Option ℕ
  pub to : Option ℕ

pub data GroupOp : Type 0 where
  and_op or_op : GroupOp

pub record HistoryRule : Type 0 where
  pub within : Option Within
  pub action_kind : Option SystemActionKind
  pub action_type_id : Option ℕ
  pub actor_id : Option ℕ
  pub payload_match : List (String × Json)

mutual
  pub data FilterNode : Type 0 where
    group : GroupOp → Nodes → FilterNode
    field_rule : String → Operator → Option Json → FilterNode
    action_performed : HistoryRule → ℕ → FilterNode
    action_not_performed : HistoryRule → FilterNode
    status_changed : Option Within → Option ℕ → Option ℕ → FilterNode
    assignee_changed : Option Within → Option ℕ → Option ℕ → FilterNode

  pub data Nodes : Type 0 where
    leaf : Nodes
    child : FilterNode → Nodes → Nodes

abbrev pub max_depth : ℕ
max_depth = 10

abbrev pub max_nodes : ℕ
max_nodes = 200

-- `Within`: the bounds of `last_days`, and `_exactly_one_form`.
abbrev given {ℓ} : {A : Type ℓ} → Option A → Bool
given none = false
given (some a) = true

abbrev ordered : Option ℕ → Option ℕ → Bool
ordered (some a) (some b) = leb a b
ordered _ _ = true

abbrev in_bounds : Option ℕ → Bool
in_bounds none = true
in_bounds (some d) = leb 1 d && leb d 3650

unfoldable pub is_valid_window : Within → Bool
is_valid_window w =
    let relative = given w.last_days in
    let absolute = given w.from_ || given w.to in
    in_bounds w.last_days
    && (if relative && absolute
        then false
        else if not relative && not absolute
        then false
        else ordered w.from_ w.to)

abbrev is_blank : Option Json → Bool
is_blank none = true
is_blank (some (Json.text s)) = str_eq s ""
is_blank (some (Json.array Items.nil)) = true
is_blank (some (Json.object Members.end)) = true
is_blank _ = false

-- `_arity_matches_operator`
unfoldable pub arity_matches : Arity → Option Json → Bool
arity_matches Arity.nullary v = is_blank v
arity_matches Arity.variadic (some (Json.array (Items.cons x xs))) = true
arity_matches Arity.variadic v = false
arity_matches Arity.binary (some (Json.array (Items.cons x (Items.cons y Items.nil)))) = true
arity_matches Arity.binary v = false
arity_matches Arity.unary none = false
arity_matches Arity.unary (some v) = true

-- `_walk`: the number of nodes, and the greatest depth.
unfoldable mutual
  pub walk : FilterNode → ℕ → ℕ × ℕ
  walk (group op children) depth = walk_children children depth 1 depth
  walk (field_rule k op v) depth = (1, depth)
  walk (action_performed h n) depth = (1, depth)
  walk (action_not_performed h) depth = (1, depth)
  walk (status_changed w a b) depth = (1, depth)
  walk (assignee_changed w a b) depth = (1, depth)

  -- The loop over the children, with its `count` and `deepest`.
  pub walk_children : Nodes → ℕ → ℕ → ℕ → ℕ × ℕ
  walk_children leaf depth count deepest = (count, deepest)
  walk_children (child c rest) depth count deepest =
      let r = walk c (depth + 1) in walk_children rest depth (count + r.0) (max deepest r.1)

unfoldable pub validate_shape : FilterNode → Result (Unit {0})
unfolding walk
validate_shape node =
    let (count, depth) = walk node 0 in
    do
      raise_if (ltb max_depth depth) (unprocessable Code.filter_too_deep)
      raise_if (ltb max_nodes count) (unprocessable Code.filter_too_large)

-- `field_keys_in`: the set as a list.
unfoldable mutual
  pub field_keys_in : FilterNode → List String
  field_keys_in (group op children) = keys_of_children children
  field_keys_in (field_rule k op v) = k ∷ []
  field_keys_in (action_performed h n) = []
  field_keys_in (action_not_performed h) = []
  field_keys_in (status_changed w a b) = []
  field_keys_in (assignee_changed w a b) = []

  pub keys_of_children : Nodes → List String
  keys_of_children leaf = []
  keys_of_children (child c rest) = field_keys_in c ++ keys_of_children rest
