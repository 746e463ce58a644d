-- ===== src/Tests/Dealing.antt =====
-- Two rules of an office with three members: one with a condition, one without.
use configurable_crm.Prelude.{
  ℕ, ◌%◌, get_elem?, count, ◌==◌, String, Bool, true, false, Option, none, some, List, [], ◌∷◌, ◌≡◌,
  ◌⊎◌, refl, arith,
}
use configurable_crm.Prelude.Table.{find}
use configurable_crm.Json.{Json}
use configurable_crm.Errors.{Result, ok, raise}
use configurable_crm.Filters.Operators.{Operator}
use configurable_crm.Filters.Dsl.{FilterNode, field_rule, validate_shape}
use configurable_crm.Timeline.{Lead}
use configurable_crm.Members.Defs.{Membership, AvailabilityStatus, working, on_leave}
use configurable_crm.Assignment.Rows.{AssignmentRule, weighted, fixed, Config, AssignmentCursor}
use configurable_crm.Assignment.Engine.{
  Roster, AssignmentOutcome, matched, no_rule_matched, nobody_reason, load_rules, match_rule,
  decide, eligible, deal_from, next_by_cursor, candidates, draw,
}
use configurable_crm.Assignment.Matching.{IsChoice, match_rule-first_applicable}
use configurable_crm.Assignment.Candidates.{CanTake, held_weight, count-deal_from}
use configurable_crm.Assignment.Cursor.{after_draws, round_robin-fair}
use configurable_crm.Assignment.Decision.{decide-CanTake}

abbrev a_member : ℕ → Bool → AvailabilityStatus → Membership
a_member id licensed availability = record {
  id = id;
  user_id = id;
  template_id = 7;
  manager_id = none;
  is_active = true;
  has_license = licensed;
  availability = availability;
}

abbrev team : List Membership
team = a_member 1 true working ∷ a_member 2 true on_leave ∷ a_member 3 false working ∷ []

abbrev pub no_config : Config
no_config = record {
  membership_ids = [];
  members = [];
  group_id = none;
  field_key = none;
  mapping = [];
  fallback = none;
  membership_id = none;
}

abbrev shares : List (ℕ × Option ℕ)
shares = (1, some 2) ∷ (2, some 3) ∷ (3, none) ∷ []

abbrev in_city : FilterNode
in_city = field_rule "city" Operator.equals (some (Json.text "Pune"))

abbrev city_rule : AssignmentRule
city_rule = record {
  id = 20;
  name = "City";
  priority = 1;
  conditions = some in_city;
  strategy = weighted;
  config = record no_config { members = shares };
  skip_unavailable = true;
  is_active = true;
}

abbrev other_rule : AssignmentRule
other_rule = record {
  id = 21;
  name = "Others";
  priority = 0;
  conditions = none;
  strategy = fixed;
  config = record no_config { membership_id = some 2 };
  skip_unavailable = false;
  is_active = false;
}

abbrev a_lead : Lead
a_lead = record {
  id = 50;
  identity_value = "lead";
  values = [];
  stage_id = none;
  assignee_id = none;
  rating = none;
  lost_reason_id = none;
  last_action_at = none;
  created_at = 0;
  deleted_at = none;
}

abbrev roster : Roster
roster = record {
  rules = other_rule ∷ city_rule ∷ [];
  members = team;
  groups = [];
  group_members = [];
  leads = a_lead ∷ [];
}

-- A database that finds every condition true.
abbrev always : FilterNode → Lead → Bool
always n l = true

abbrev as_text : Json → String
as_text v = "Pune"

match_rule-first_applicable_example : IsChoice always a_lead roster.rules (some city_rule)
unfolding find load_rules match_rule validate_shape
match_rule-first_applicable_example =
    match_rule-first_applicable always a_lead roster (some city_rule) (refl, (refl, tt)) refl refl

abbrev dealt : List ℕ
dealt = 1 ∷ 1 ∷ 2 ∷ []

-- The fifth draw of a cycle of three is its second entry.
round_robin-fair_example :
    (next_by_cursor 20 dealt (after_draws 20 dealt 4 [])).0 ≡ get_elem? dealt (4 % 3)
unfolding find
round_robin-fair_example = round_robin-fair 20 dealt [] refl (omega arith) 4

abbrev some_pairs : List (ℕ × ℕ)
some_pairs = (1, 2) ∷ (2, 300) ∷ (3, 1) ∷ []

count-deal_from_example :
    (CanTake team false 2
      → count (λ x. x == 2) (deal_from team false some_pairs) ≡ held_weight some_pairs 2)
    × (¬ CanTake team false 2 → count (λ x. x == 2) (deal_from team false some_pairs) ≡ 0)
count-deal_from_example = count-deal_from team false some_pairs 2

hundred_dealt : count (λ x. x == 2) (deal_from team false some_pairs) ≡ 100
unfolding deal_from eligible find
hundred_dealt = refl

abbrev no_outcome : AssignmentOutcome
no_outcome = record {
  rule_id = none;
  rule_name = none;
  membership_id = none;
  reason = no_rule_matched;
}

abbrev or_nothing :
    Result (AssignmentOutcome × List AssignmentCursor) → AssignmentOutcome × List AssignmentCursor
or_nothing (ok r) = r
or_nothing (raise e) = (no_outcome, [])

abbrev decided : AssignmentOutcome × List AssignmentCursor
decided = or_nothing (decide always as_text roster a_lead [])

decide_picks : decided.0.membership_id ≡ some 1
unfolding decide load_rules match_rule validate_shape find candidates draw
decide_picks = refl

decide-CanTake_example :
    ((match_rule always roster 50 ≡ ok none)
      × (decided.0.membership_id ≡ none)
      × (decided.0.reason ≡ no_rule_matched)
      × (decided.1 ≡ []))
    ⊎ ((r : AssignmentRule) × (match_rule always roster 50 ≡ ok (some r))
        × (decided.0.rule_id ≡ some r.id)
        × (((decided.0.membership_id ≡ none) × (decided.0.reason ≡ nobody_reason r.strategy))
            ⊎ ((m : ℕ) × (decided.0.membership_id ≡ some m)
                × (decided.0.reason ≡ matched)
                × CanTake team r.skip_unavailable m)))
unfolding decide load_rules match_rule validate_shape find candidates draw
decide-CanTake_example = decide-CanTake always as_text roster a_lead [] decided.1 decided.0 refl
