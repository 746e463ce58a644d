-- ===== src/Assignment/Engine.antt =====
-- `AssignmentEngine` (api/app/services/assignment.py): matching, candidates, cursor and decision.
-- Postgres evaluates a compiled rule on one lead: the parameter `holds`. `show` is Python's `str`
-- on a stored value.
use configurable_crm.Prelude.{
  Integer, from_zero, below, ℕ, ◌+◌, ◌-◌, ◌%◌, min, max, String, Bool, true, false, not, ◌&&◌, ◌||◌,
  Option, none, some, List, [], ◌∷◌, ◌++◌, map, ◌==◌, ltb, keep, any, contains, get_elem?,
  replicate, length, sort_by, if◌then◌else◌, get_key,
}
use configurable_crm.Prelude.Table.{find, update}
use configurable_crm.Json.{Json}
use configurable_crm.Errors.{Code, Result, ok, raise, unprocessable, ◌>>=◌}
use configurable_crm.Filters.Dsl.{FilterNode, validate_shape}
use configurable_crm.Timeline.{Lead}
use configurable_crm.Members.Defs.{
  Membership, member_id, AvailabilityStatus, working, on_leave, inactive,
}
use configurable_crm.Assignment.Rows.{
  AssignmentStrategy, round_robin, weighted, field_value, sales_group, fixed, unassigned,
  AssignmentRule, SalesGroup, SalesGroupMember, AssignmentCursor,
}

abbrev pub max_weight : ℕ
max_weight = 100

-- What the engine reads of the workspace, and the cursors that it writes.
pub record Roster : Type 0 where
  pub rules : List AssignmentRule
  pub members : List Membership
  pub groups : List SalesGroup
  pub group_members : List SalesGroupMember
  pub leads : List Lead

pub data Reason : Type 0 where
  matched no_rule_matched no_candidates rule_assigns_nobody : Reason

pub record AssignmentOutcome : Type 0 where
  pub rule_id : Option ℕ
  pub rule_name : Option String
  pub membership_id : Option ℕ
  pub reason : Reason

-- `ORDER BY priority, id`
unfoldable pub precedes : AssignmentRule → AssignmentRule → Bool
precedes a b = ltb a.priority b.priority || (a.priority == b.priority && ltb a.id b.id)

-- `_load_rules`
unfoldable pub load_rules : List AssignmentRule → List AssignmentRule
unfolding precedes sort_by
load_rules rules = sort_by precedes (keep (λ r. r.is_active) rules)

-- `_parse`: a malformed filter is refused.
unfoldable pub parse : Option FilterNode → Result (Option FilterNode)
parse none = ok none
parse (some node) = elim (validate_shape node) [
  | ok _ ↦ ok (some node)
  | raise e ↦ raise (unprocessable Code.invalid_rule_conditions)
]

abbrev pub or_first : Option AssignmentRule → AssignmentRule → Option AssignmentRule
or_first none r = some r
or_first (some c) r = some c

-- The first loop of `match`: the first catch-all, and the conditional rules in order.
unfoldable pub sift :
    List AssignmentRule
    → Option AssignmentRule
    → List (AssignmentRule × FilterNode)
    → Result (Option AssignmentRule × List (AssignmentRule × FilterNode))
unfolding parse
sift [] catch_all conditional = ok (catch_all, conditional)
sift (r ∷ rs) catch_all conditional = do
  node ← parse r.conditions
  elim node [
    | none ↦ sift rs (or_first catch_all r) conditional
    | some n ↦ sift rs catch_all (conditional ++ (r, n) ∷ [])
  ]

abbrev pub is_rule : Option AssignmentRule → ℕ → Bool
is_rule none i = false
is_rule (some c) i = i == c.id

-- The last loop: the first rule that was hit, or that is the catch-all.
unfoldable pub first_hit :
    List ℕ → Option AssignmentRule → List AssignmentRule → Option AssignmentRule
first_hit hits catch_all [] = none
first_hit hits catch_all (r ∷ rs) =
    if contains hits r.id || is_rule catch_all r.id then some r else first_hit hits catch_all rs

-- `_eligible`
abbrev pub is_working : AvailabilityStatus → Bool
is_working working = true
is_working on_leave = false
is_working inactive = false

unfoldable pub eligible : List Membership → ℕ → Bool → Bool
eligible members i skip_unavailable = elim (find member_id i members) [
  | none ↦ false
  | some m ↦
      if not m.is_active
      then false
      else if not m.has_license
      then false
      else not (skip_unavailable && not (is_working m.availability))
]

abbrev pub weight_or_one : Option ℕ → ℕ
weight_or_one none = 1
weight_or_one (some w) = w

abbrev pub pair_of : ℕ × Option ℕ → ℕ × ℕ
pair_of (m, w) = (m, weight_or_one w)

-- The members of a live group, by member: the join, the filter and the order of the query.
unfoldable pub group_pairs : Roster → ℕ → List (ℕ × ℕ)
unfolding sort_by
group_pairs ros g =
    let live = any (λ x. x.id == g && not x.is_archived) ros.groups in
    let rows = keep (λ (x : SalesGroupMember). x.group_id == g && live) ros.group_members in
    map (λ (x : SalesGroupMember). (x.membership_id, x.weight))
      (sort_by (λ a b. ltb a.membership_id b.membership_id) rows)

-- The pairs of a member and a weight that a strategy deals to.
unfoldable pub pairs_of : Roster → AssignmentRule → List (ℕ × ℕ)
unfolding group_pairs
pairs_of ros r = elim r.strategy [
  | round_robin ↦ map (λ m. (m, 1)) r.config.membership_ids
  | weighted ↦ map pair_of r.config.members
  | sales_group ↦ (elim r.config.group_id [ none ↦ [] | some g ↦ group_pairs ros g ])
  | _ ↦ []
]

abbrev pub clamp_weight : ℕ → ℕ
clamp_weight w = max 1 (min w max_weight)

-- The deal list: weights expanded, ineligible members left out.
unfoldable pub deal_from : List Membership → Bool → List (ℕ × ℕ) → List ℕ
unfolding eligible
deal_from members skip [] = []
deal_from members skip ((m, w) ∷ rest) =
    let more = deal_from members skip rest in
    if eligible members m skip then replicate (clamp_weight w) m ++ more else more

-- `_candidates`
unfoldable pub candidates : Roster → AssignmentRule → List ℕ
unfolding pairs_of deal_from
candidates ros r = deal_from ros.members r.skip_unavailable (pairs_of ros r)

-- `(position + 1) % n` on integers.
unfoldable pub advance : Integer → ℕ → ℕ
advance (from_zero p) n = (p + 1) % n
advance (below p) n = (n - p % n) % n

abbrev pub cursor_rule : AssignmentCursor → ℕ
cursor_rule c = c.rule_id

-- `INSERT … ON CONFLICT DO NOTHING`, at position -1.
unfoldable pub ensure_cursor : ℕ → List AssignmentCursor → List AssignmentCursor
ensure_cursor rule cursors = elim (find cursor_rule rule cursors) [
  | none ↦ cursors ++ record { rule_id = rule; position = below 0; last_membership_id = none } ∷ []
  | some c ↦ cursors
]

-- `_next_by_cursor`, which holds the row's lock: the pick, and the cursors after it. The deal is
-- not empty, and an index out of range cannot occur (Assignment.Cursor).
unfoldable pub next_by_cursor :
    ℕ → List ℕ → List AssignmentCursor → Option ℕ × List AssignmentCursor
unfolding ensure_cursor advance
next_by_cursor rule deal cursors =
    let ready = ensure_cursor rule cursors in
    elim (find cursor_rule rule ready) [
      | none ↦ (none, ready)
      | some c ↦
          let position = advance c.position (length deal) in
          let picked = get_elem? deal position in
          (
            picked,
            update cursor_rule rule
                (λ c. record c { position = from_zero position; last_membership_id = picked })
                ready,
          )
    ]

-- The end of `_resolve`: no pick from an empty deal list.
unfoldable pub draw : ℕ → List ℕ → List AssignmentCursor → Option ℕ × List AssignmentCursor
unfolding next_by_cursor
draw rule [] cursors = (none, cursors)
draw rule (m ∷ rest) cursors = next_by_cursor rule (m ∷ rest) cursors

abbrev pub if_eligible : Roster → AssignmentRule → Option ℕ → Option ℕ
if_eligible ros r none = none
if_eligible ros r (some m) = if eligible ros.members m r.skip_unavailable then some m else none

-- `str(config.get("field_key"))`
abbrev key_text : Option String → String
key_text none = "None"
key_text (some k) = k

abbrev or_else : Option ℕ → Option ℕ → Option ℕ
or_else none b = b
or_else (some a) b = some a

module _ (holds : FilterNode → Lead → Bool) where
  -- The rules whose predicate Postgres finds true of the lead.
  abbrev pub hits_of : Lead → List (AssignmentRule × FilterNode) → List ℕ
  hits_of l conditional =
      map (λ (c : AssignmentRule × FilterNode). c.0.id)
        (keep (λ (c : AssignmentRule × FilterNode). holds c.1 l) conditional)

  -- What `match` does after its first loop: no query without conditions, and only the catch-all
  -- for a lead that is not in the table.
  unfoldable pub choose :
      List AssignmentRule
      → Option Lead
      → Option AssignmentRule
      → List (AssignmentRule × FilterNode)
      → Option AssignmentRule
  unfolding first_hit
  choose rules lead catch_all [] = catch_all
  choose rules none catch_all (c ∷ cs) = catch_all
  choose rules (some l) catch_all (c ∷ cs) = first_hit (hits_of l (c ∷ cs)) catch_all rules

  -- `match`
  unfoldable pub match_rule : Roster → ℕ → Result (Option AssignmentRule)
  unfolding load_rules sift choose
  match_rule ros lead = do
    let rules = load_rules ros.rules
    (catch_all, conditional) ← sift rules none []
    ok (choose rules (find (λ (l : Lead). l.id) lead ros.leads) catch_all conditional)

module _ (show : Json → String) where
  -- `_resolve_field_value`
  unfoldable pub resolve_field_value : Roster → AssignmentRule → Lead → Option ℕ
  unfolding eligible
  resolve_field_value ros r lead =
      let raw = get_key (key_text r.config.field_key) lead.values in
      let mapped : Option ℕ = elim raw [
        | none ↦ none
        | some v ↦ get_key (show v) r.config.mapping
      ] in
      if_eligible ros r (or_else mapped r.config.fallback)

  -- `_resolve`
  unfoldable pub resolve :
      Roster → AssignmentRule → Lead → List AssignmentCursor → Option ℕ × List AssignmentCursor
  unfolding eligible resolve_field_value candidates draw
  resolve ros r lead cursors = elim r.strategy [
    | unassigned ↦ (none, cursors)
    | fixed ↦ (if_eligible ros r r.config.membership_id, cursors)
    | field_value ↦ (resolve_field_value ros r lead, cursors)
    | _ ↦ draw r.id (candidates ros r) cursors
  ]

abbrev pub nobody_reason : AssignmentStrategy → Reason
nobody_reason unassigned = rule_assigns_nobody
nobody_reason _ = no_candidates

module _ (holds : FilterNode → Lead → Bool) (show : Json → String) where
  -- `decide`: the outcome, and the cursors after it.
  unfoldable pub decide :
      Roster → Lead → List AssignmentCursor → Result (AssignmentOutcome × List AssignmentCursor)
  unfolding match_rule resolve
  decide ros lead cursors = do
    rule ← match_rule holds ros lead.id
    elim rule [
      | none ↦ ok (
        record { rule_id = none; rule_name = none; membership_id = none; reason = no_rule_matched },
        cursors,
      )
      | some r ↦
          let (pick, cursors') = resolve show ros r lead cursors in
          ok (
            record {
              rule_id = some r.id;
              rule_name = some r.name;
              membership_id = pick;
              reason = (elim pick [ none ↦ nobody_reason r.strategy | some _ ↦ matched ]);
            },
            cursors',
          )
    ]
