-- ===== src/Tests/Routing.antt =====
-- Rules that are created, reordered and changed, a group that is filled, and leads that are distributed.
use configurable_crm.Prelude.{
  inl, inr, Bool-cases, str_eq, if◌then◌else◌, arith, Integer, ℕ, ◌+◌, String, true, false, not,
  Option, none, some, List, [], ◌∷◌, ◌≡◌, refl, keep, map, All, get_elem?, ◌==◌, from_zero,
}
use mathlib.Core.Option
use configurable_crm.Prelude.Table.{find, update, Distinct}
use configurable_crm.Prelude.Positions.{place_each}
use configurable_crm.Json.{
  Json, Members, null, text, number, flag, array, object, nil, cons, end, member, get_member,
  truthy,
}
use configurable_crm.Errors.{Result, ok, raise}
use configurable_crm.Timeline.{Lead, Ledger}
use configurable_crm.Assignment.Rows.{
  round_robin, weighted, Config, AssignmentRule, SalesGroupMember,
}
use configurable_crm.Assignment.Engine.{Roster, draw, eligible, candidates, pair_of}
use configurable_crm.Assignment.Strategy.{
  Conversions, no_keys, clean_members, validate_strategy_config, dictionary_of,
}
use configurable_crm.Assignment.Stored.{ExactWeights, validate_strategy_config-stable}
use configurable_crm.Members.Defs.{Membership, working}
use configurable_crm.Routing.Rules.{
  Lowering, RuleStore, RuleChanges, next_priority, create_rule, update_rule, reorder,
}
use configurable_crm.Routing.Restart.{update_rule-restarts}
use configurable_crm.Routing.Groups.{GroupStore, member_row, set_members}
use configurable_crm.Routing.Replaced.{IsWeighed, row_member, IsKnown, set_members-replaced}
use configurable_crm.Routing.Distribution.{lead_key, DistributionResult, select_leads, distribute}
use configurable_crm.Routing.Dealing.{assignee}
use configurable_crm.Routing.Fair.{IsDealt, distribute-IsDealt}
use configurable_crm.Routing.Eligible.{IsTarget, distribute-IsTarget}

-- `str` of a text, and of what is not a text here.
abbrev as_text : Json → String
as_text (text s) = s
as_text _ = "x"

abbrev number_of : Json → Option Integer
number_of (number n) = some (from_zero n)
number_of _ = none

unfoldable id_of : String → ℕ
id_of s =
    if str_eq s "1"
    then 1
    else if str_eq s "2"
    then 2
    else if str_eq s "5"
    then 5
    else if str_eq s "6"
    then 6
    else 0

unfoldable text_of : ℕ → String
text_of i =
    if i == 1
    then "1"
    else if i == 2
    then "2"
    else if i == 5
    then "5"
    else if i == 6
    then "6"
    else "0"

abbrev conversions : Conversions
conversions = record { int = number_of; id_of = id_of; text_of = text_of }

abbrev ring_of : String → String → Members
ring_of a b = member "membership_ids" (array (cons (text a) (cons (text b) nil))) end

abbrev ring : Members
ring = ring_of "1" "2"

abbrev a_rule : ℕ → ℕ → AssignmentRule
a_rule id priority = record {
  id = id;
  name = "A";
  priority = priority;
  conditions = none;
  strategy = round_robin;
  config = record no_keys { membership_ids = 1 ∷ 2 ∷ [] };
  skip_unavailable = true;
  is_active = true;
}

abbrev store : RuleStore
store = record {
  rules = a_rule 20 0 ∷ a_rule 21 3 ∷ [];
  cursors = record { rule_id = 20; position = from_zero 0; last_membership_id = some 1 } ∷ [];
}

abbrev as_is : Lowering
as_is = record { of_python = λ s. s; of_postgres = λ s. s }

abbrev or_same {ℓ} : {A : Type ℓ} → A → Result A → A
or_same a (ok b) = b
or_same a (raise e) = a

-- The second row has no weight.
abbrev uneven : Members
uneven =
    member "members"
      (array (
        cons (object (member "membership_id" (text "1") (member "weight" (number 2) end)))
          (cons (object (member "membership_id" (text "2") end)) nil)))
      end

abbrev evened : Config
evened = or_same no_keys (validate_strategy_config as_text conversions weighted uneven)

evens : evened.members ≡ (1, some 2) ∷ (2, some 1) ∷ []
unfolding validate_strategy_config clean_members get_member id_of
evens = refl

id_again : (s : String) → id_of (text_of (id_of s)) ≡ id_of s
unfolding id_of text_of
id_again s = elim (Bool-cases (str_eq s "1")) [
  | inl e ↦ rw e refl
  | inr e ↦ elim (Bool-cases (str_eq s "2")) [
    | inl e2 ↦ rw (e, e2) refl
    | inr e2 ↦ elim (Bool-cases (str_eq s "5")) [
      | inl e5 ↦ rw (e, e2, e5) refl
      | inr e5 ↦ elim (Bool-cases (str_eq s "6")) [
        | inl e6 ↦ rw (e, e2, e5, e6) refl
        | inr e6 ↦ rw (e, e2, e5, e6) refl
      ]
    ]
  ]
]

text_given : (i : ℕ) → str_eq (text_of i) "" ≡ false
unfolding text_of
text_given i = elim (Bool-cases (i == 1)) [
  | inl e ↦ rw e refl
  | inr e ↦ elim (Bool-cases (i == 2)) [
    | inl e2 ↦ rw (e, e2) refl
    | inr e2 ↦ elim (Bool-cases (i == 5)) [
      | inl e5 ↦ rw (e, e2, e5) refl
      | inr e5 ↦ elim (Bool-cases (i == 6)) [
        | inl e6 ↦ rw (e, e2, e5, e6) refl
        | inr e6 ↦ rw (e, e2, e5, e6) refl
      ]
    ]
  ]
]

shown : (v : Json) → truthy v ≡ true → str_eq (as_text v) "" ≡ false
shown null h = refl
shown (text s) h = ground (arith, h)
shown (number n) h = refl
shown (flag b) h = refl
shown (array vs) h = refl
shown (object vs) h = refl

validate_strategy_config-stable_example :
    (validate_strategy_config as_text conversions weighted
        (dictionary_of as_text conversions weighted evened)
      ≡ ok evened)
    × ExactWeights (map pair_of evened.members)
unfolding validate_strategy_config clean_members get_member id_of
validate_strategy_config-stable_example =
    validate_strategy_config-stable as_text conversions (λ s. refl) (λ n. refl) id_again text_given
      shown weighted uneven evened refl

abbrev created : RuleStore
created =
    or_same store
      (create_rule as_is as_text conversions 22 "B" round_robin ring none none true true store)

-- A second rule has the priority of the first.
second_rule : next_priority (a_rule 20 0 ∷ []) ≡ 0
unfolding next_priority
second_rule = refl

abbrev turned : RuleStore
turned = or_same store (reorder (21 ∷ 20 ∷ []) store)

-- Duplicates pass, and leave a gap.
duplicates_pass :
    (or_same store (reorder (20 ∷ 21 ∷ 20 ∷ []) store)).rules ≡ a_rule 20 2 ∷ a_rule 21 1 ∷ []
unfolding reorder place_each update
duplicates_pass = refl

abbrev other_ring : RuleChanges
other_ring = record {
  name = none;
  strategy = none;
  config = some (some (ring_of "5" "6"));
  conditions = none;
  priority = none;
  skip_unavailable = none;
  is_active = none;
}

abbrev changed : RuleStore
changed = or_same store (update_rule as_is as_text conversions 20 other_ring store)

update_rule-restarts_example : (draw 20 (5 ∷ 6 ∷ []) changed.cursors).0 ≡ some 5
unfolding update_rule find get_member id_of
update_rule-restarts_example =
    update_rule-restarts as_is as_text conversions 20 5 other_ring store changed (6 ∷ []) refl refl

abbrev a_member : ℕ → Membership
a_member id = record {
  id = id;
  user_id = id;
  template_id = 7;
  manager_id = none;
  is_active = true;
  has_license = true;
  availability = working;
}

abbrev offices : GroupStore
offices = record {
  groups = record { id = 4; name = "North"; description = none; is_archived = false } ∷ [];
  group_members =
      record { group_id = 4; membership_id = 1; weight = 1 }
      ∷ record { group_id = 5; membership_id = 1; weight = 2 }
      ∷ [];
  members = a_member 1 ∷ a_member 2 ∷ [];
}

abbrev filled : GroupStore
filled = or_same offices (set_members 4 ((2, some 3) ∷ (1, none) ∷ []) offices)

set_members-replaced_example :
    (keep (λ (x : SalesGroupMember). x.group_id == 4) filled.group_members
      ≡ map (member_row 4) (map pair_of ((2, some 3) ∷ (1, none) ∷ [])))
    × All IsWeighed (map pair_of ((2, some 3) ∷ (1, none) ∷ []))
    × Distinct row_member (map pair_of ((2, some 3) ∷ (1, none) ∷ []))
    × All (IsKnown offices.members) (map pair_of ((2, some 3) ∷ (1, none) ∷ []))
    × (keep (λ (x : SalesGroupMember). not (x.group_id == 4)) filled.group_members
        ≡ keep (λ (x : SalesGroupMember). not (x.group_id == 4)) offices.group_members)
unfolding set_members find
set_members-replaced_example =
    set_members-replaced 4 ((2, some 3) ∷ (1, none) ∷ []) offices filled refl

abbrev a_lead : ℕ → Option ℕ → Lead
a_lead id assignee = record {
  id = id;
  identity_value = "lead";
  values = [];
  stage_id = none;
  assignee_id = assignee;
  rating = none;
  lost_reason_id = none;
  last_action_at = none;
  created_at = 0;
  deleted_at = none;
}

abbrev roster : Roster
roster = record {
  rules = [];
  members = a_member 1 ∷ a_member 2 ∷ [];
  groups = [];
  group_members = [];
  leads = a_lead 50 none ∷ a_lead 51 (some 2) ∷ a_lead 52 (some 2) ∷ [];
}

abbrev ledger : Ledger
ledger = record {
  changesets = [];
  actions = [];
  endpoints = [];
  outbox = [];
  draw = λ n. 900 + n;
  drawn = 0;
}

abbrev no_result : List Lead × Ledger × DistributionResult
no_result = ([], ledger, record { changeset_id = 0; assigned = 0; skipped = 0; total = 0 })

abbrev distributed : List Lead × Ledger × DistributionResult
distributed = or_same no_result (
    distribute as_text roster conversions 9 (some 1) (50 ∷ 51 ∷ 52 ∷ []) round_robin ring true
      ledger)

assigned_two : (distributed.2.assigned ≡ 2) × (distributed.2.skipped ≡ 1)
unfolding distribute validate_strategy_config candidates eligible find get_member id_of
assigned_two = (refl, refl)

distribute-IsDealt_example :
    (stored : Config) × (validate_strategy_config as_text conversions round_robin ring ≡ ok stored)
    × ((k : ℕ) (lead : Lead)
        → get_elem? (select_leads (50 ∷ 51 ∷ 52 ∷ []) roster.leads) k ≡ some lead
        → (row : Lead) × (find lead_key lead.id distributed.0 ≡ some row)
          × IsDealt as_text roster round_robin stored true lead k row.assignee_id)
    × ((j : ℕ)
        → find lead_key j (select_leads (50 ∷ 51 ∷ 52 ∷ []) roster.leads) ≡ none
        → find lead_key j distributed.0 ≡ find lead_key j roster.leads)
unfolding distribute validate_strategy_config candidates eligible find get_member id_of
distribute-IsDealt_example =
    distribute-IsDealt as_text roster conversions 9 (some 1) (50 ∷ 51 ∷ 52 ∷ []) round_robin ring
      true ledger distributed (refl, (refl, (refl, tt))) refl

distribute-IsTarget_example :
    (target : Option ℕ) × (Option.map assignee (find lead_key 50 distributed.0) ≡ some target)
    × IsTarget roster round_robin true target
unfolding distribute validate_strategy_config candidates eligible find get_member id_of select_leads
distribute-IsTarget_example =
    distribute-IsTarget as_text roster conversions 9 (some 1) (50 ∷ 51 ∷ 52 ∷ []) round_robin ring
      true ledger distributed (refl, (refl, (refl, tt))) refl 0 (a_lead 50 none) refl
