-- ===== src/Routing/Rules.antt =====
-- `AssignmentRuleService` (api/app/services/routing.py). A new row's key is a parameter.
use configurable_crm.Prelude.{
  ℕ, suc, max, String, Bool, true, false, not, ◌&&◌, ◌||◌, Option, none, some, List, [], ◌∷◌, ◌++◌,
  ◌==◌, keep, any, contains, str_eq, if◌then◌else◌, map,
}
use configurable_crm.Prelude.Table.{find, update}
use configurable_crm.Prelude.Positions.{place_each}
use configurable_crm.Errors.{
  duplicate_rule, rule_not_found, incomplete_order, Result, ok, raise, raise_if, api_error,
  conflict, unprocessable, ◌>>=◌, ◌>>◌,
}
use configurable_crm.Filters.Dsl.{FilterNode}
use configurable_crm.Assignment.Rows.{AssignmentStrategy, AssignmentRule, AssignmentCursor}
use configurable_crm.Assignment.Engine.{parse}
use configurable_crm.Assignment.Strategy.{Conversions, validate_strategy_config, dictionary_of}
use configurable_crm.Json.{Json, Members}

-- Python's `str.lower`, and Postgres's `lower`.
pub record Lowering : Type 0 where
  pub of_python : String → String
  pub of_postgres : String → String

pub record RuleStore : Type 0 where
  pub rules : List AssignmentRule
  pub cursors : List AssignmentCursor

abbrev pub rule_key : AssignmentRule → ℕ
rule_key r = r.id

-- `max(priority)`, `none` without rules.
unfoldable pub highest : List AssignmentRule → Option ℕ
highest [] = none
highest (r ∷ rs) = elim (highest rs) [ none ↦ some r.priority | some p ↦ some (max r.priority p) ]

-- `_next_priority`: `(highest or -1) + 1`, where a highest priority of 0 counts as none.
unfoldable pub next_priority : List AssignmentRule → ℕ
unfolding highest
next_priority rules = elim (highest rules) [ none ↦ 0 | some p ↦ if p == 0 then 0 else suc p ]

-- `AssignmentRuleUpdate` without its unset keys; `some none` is a key that is set to null, for the two
-- keys where that differs from a missing one. The conditions `some none` are `{}`.
pub record RuleChanges : Type 0 where
  pub name : Option String
  pub strategy : Option (Option AssignmentStrategy)
  pub config : Option (Option Members)
  pub conditions : Option (Option FilterNode)
  pub priority : Option ℕ
  pub skip_unavailable : Option Bool
  pub is_active : Option Bool

abbrev pub or_old {ℓ} : {A : Type ℓ} → Option A → A → A
or_old none old = old
or_old (some new) old = new

-- `changes.get(key)`
abbrev pub get_set {ℓ} : {A : Type ℓ} → Option (Option A) → Option A
get_set none = none
get_set (some o) = o

abbrev is_set {ℓ} : {A : Type ℓ} → Option A → Bool
is_set none = false
is_set (some a) = true

abbrev pub reconfigures : RuleChanges → Bool
reconfigures c = is_set c.strategy || is_set c.config

-- The strategy and the configuration of the changed rule.
unfoldable pub reconfigured :
    (Json → String) → Conversions → RuleChanges → AssignmentRule → Result AssignmentRule
unfolding validate_strategy_config dictionary_of
reconfigured show conv c r =
    let strategy = or_old (get_set c.strategy) r.strategy in
    elim (reconfigures c) [
      | false ↦ ok r
      | true ↦ do
        config ←
            validate_strategy_config show conv strategy
              (or_old (get_set c.config) (dictionary_of show conv r.strategy r.config))
        ok (record r { strategy = strategy; config = config })
    ]

unfoldable pub get_rule : ℕ → RuleStore → Result AssignmentRule
get_rule i t = elim (find rule_key i t.rules) [
  | none ↦ raise (api_error 404 rule_not_found)
  | some r ↦ ok r
]

-- The cursors after `update`: a changed strategy or configuration drops the rule's.
unfoldable pub reset_cursors : Bool → ℕ → List AssignmentCursor → List AssignmentCursor
reset_cursors false i cursors = cursors
reset_cursors true i cursors = keep (λ (x : AssignmentCursor). not (x.rule_id == i)) cursors

module _ (lower : Lowering) where
  -- `_assert_name_free`
  unfoldable pub assert_name_free : String → List AssignmentRule → Result (Unit {0})
  assert_name_free name rules =
      raise_if (any (λ r. str_eq (lower.of_postgres r.name) (lower.of_python name)) rules)
        (conflict duplicate_rule)

  unfoldable pub create_rule :
      (Json → String)
      → Conversions
      → ℕ
      → String
      → AssignmentStrategy
      → Members
      → Option FilterNode
      → Option ℕ
      → Bool
      → Bool
      → RuleStore
      → Result RuleStore
  unfolding assert_name_free next_priority parse
  create_rule show conv id name strategy config conditions priority skip_unavailable is_active t =
      do
        assert_name_free name t.rules
        stored ← validate_strategy_config show conv strategy config
        parse conditions
        let row : AssignmentRule = record {
          id = id;
          name = name;
          priority = or_old priority (next_priority t.rules);
          conditions = conditions;
          strategy = strategy;
          config = stored;
          skip_unavailable = skip_unavailable;
          is_active = is_active;
        }
        ok (record t { rules = t.rules ++ row ∷ [] })

  -- `if name is not None and name != rule.name: …`
  unfoldable pub check_rename :
      Option String → AssignmentRule → List AssignmentRule → Result (Unit {0})
  unfolding assert_name_free
  check_rename none r rules = ok tt
  check_rename (some name) r rules =
      if str_eq name r.name then ok tt else assert_name_free name rules

  unfoldable pub update_rule :
      (Json → String) → Conversions → ℕ → RuleChanges → RuleStore → Result RuleStore
  unfolding get_rule check_rename reconfigured reset_cursors parse
  update_rule show conv i c t = do
    r ← get_rule i t
    check_rename c.name r t.rules
    s ← reconfigured show conv c (record r { name = or_old c.name r.name })
    let row : AssignmentRule = record s {
      conditions = or_old c.conditions s.conditions;
      priority = or_old c.priority s.priority;
      skip_unavailable = or_old c.skip_unavailable s.skip_unavailable;
      is_active = or_old c.is_active s.is_active;
    }
    parse row.conditions
    ok (record t {
      rules = update rule_key i (λ _. row) t.rules;
      cursors = reset_cursors (reconfigures c) r.id t.cursors;
    })

unfoldable pub delete_rule : ℕ → RuleStore → Result RuleStore
unfolding get_rule
delete_rule i t = do
  get_rule i t
  ok (record t { rules = update rule_key i (λ r. record r { is_active = false }) t.rules })

-- `set(xs) == set(ys)`
unfoldable pub same_set : List ℕ → List ℕ → Bool
same_set xs ys = not (any (λ x. not (contains ys x)) xs) && not (any (λ y. not (contains xs y)) ys)

abbrev pub set_priority : ℕ → AssignmentRule → AssignmentRule
set_priority n r = record r { priority = n }

unfoldable pub reorder : List ℕ → RuleStore → Result RuleStore
unfolding same_set
reorder order t = do
  raise_if (not (same_set order (map rule_key t.rules))) (unprocessable incomplete_order)
  ok (record t { rules = place_each rule_key set_priority 0 order t.rules })
