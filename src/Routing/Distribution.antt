-- ===== src/Routing/Distribution.antt =====
-- `DistributionService` (api/app/services/routing.py). The query for the leads returns them in the order of
-- the table; `show` is Python's `str` on a stored value.
use configurable_crm.Prelude.{
  ℕ, suc, ◌%◌, String, Bool, true, false, ◌&&◌, Option, none, some, List, [], ◌∷◌, ◌==◌, ltb, keep,
  contains, length, get_elem?, if◌then◌else◌,
}
use configurable_crm.Prelude.Table.{update}
use configurable_crm.Json.{Json, Members}
use configurable_crm.Errors.{
  Code, no_leads, too_many_leads, no_leads_found, Result, ok, raise_if, api_error, unprocessable,
  ◌>>=◌, ◌>>◌,
}
use configurable_crm.Timeline.{
  Lead, Ledger, ActionWriter, ChangesetSource, distributed, open_changeset,
  record_assignment_change,
}
use configurable_crm.LeadOwnership.Defs.{is_none}
use configurable_crm.Assignment.Rows.{
  AssignmentStrategy, field_value, fixed, unassigned, Config, AssignmentRule,
}
use configurable_crm.Assignment.Engine.{Roster, candidates, if_eligible, resolve_field_value}
use configurable_crm.Assignment.Strategy.{Conversions, validate_strategy_config}

abbrev pub max_distribute_leads : ℕ
max_distribute_leads = 500

abbrev pub lead_key : Lead → ℕ
lead_key l = l.id

pub record DistributionResult : Type 0 where
  pub changeset_id : ℕ
  pub assigned : ℕ
  pub skipped : ℕ
  pub total : ℕ

-- The throwaway rule; no code reads its key, its name or its priority.
unfoldable pub throwaway : AssignmentStrategy → Config → Bool → AssignmentRule
throwaway strategy config skip_unavailable = record {
  id = 0;
  name = "__distribution__";
  priority = 0;
  conditions = none;
  strategy = strategy;
  config = config;
  skip_unavailable = skip_unavailable;
  is_active = true;
}

-- The strategies that deal from a list.
abbrev pub deals : AssignmentStrategy → Bool
deals fixed = false
deals field_value = false
deals unassigned = false
deals _ = true

abbrev pub is_empty : List ℕ → Bool
is_empty [] = true
is_empty (m ∷ ms) = false

-- The query: the leads with these keys that are not deleted.
unfoldable pub select_leads : List ℕ → List Lead → List Lead
select_leads ids leads = keep (λ (l : Lead). contains ids l.id && is_none l.deleted_at) leads

abbrev pub same_assignee : Option ℕ → Option ℕ → Bool
same_assignee none none = true
same_assignee none (some b) = false
same_assignee (some a) none = false
same_assignee (some a) (some b) = a == b

-- What the loop has done so far.
pub record Progress : Type 0 where
  pub leads : List Lead
  pub ledger : Ledger
  pub assigned : ℕ
  pub skipped : ℕ

-- The lead changes hands, and the change is recorded.
unfoldable pub move : ActionWriter → ℕ → Lead → Option ℕ → Progress → Progress
unfolding record_assignment_change
move w now lead target p =
    let (lead', ledger) = record_assignment_change w now lead lead.assignee_id target p.ledger in
    record p {
      leads = update lead_key lead.id (λ _. record lead' { assignee_id = target }) p.leads;
      ledger = ledger;
      assigned = suc p.assigned;
    }

-- The body of the loop, for a lead that goes to `target`.
unfoldable pub deal_to : ActionWriter → ℕ → Lead → Option ℕ → Progress → Progress
unfolding move
deal_to w now lead target p =
    if same_assignee target lead.assignee_id
    then record p { skipped = suc p.skipped }
    else move w now lead target p

-- `for index, lead in enumerate(leads): …`
unfoldable pub distribute_each :
    ActionWriter → ℕ → (Lead → ℕ → Option ℕ) → ℕ → List Lead → Progress → Progress
unfolding deal_to
distribute_each w now target index [] p = p
distribute_each w now target index (lead ∷ rest) p =
    distribute_each w now target (suc index) rest (deal_to w now lead (target lead index) p)

module _ (show : Json → String) (ros : Roster) where
  -- `_target`. The deal list is not empty where it is read, and an index out of range cannot occur.
  unfoldable pub target_of : AssignmentRule → List ℕ → Lead → ℕ → Option ℕ
  unfolding resolve_field_value
  target_of r deal lead index = elim r.strategy [
    | unassigned ↦ none
    | fixed ↦ if_eligible ros r r.config.membership_id
    | field_value ↦ resolve_field_value show ros r lead
    | _ ↦ get_elem? deal (index % length deal)
  ]

  -- The leads are those of the roster.
  unfoldable pub distribute :
      Conversions
      → ℕ
      → Option ℕ
      → List ℕ
      → AssignmentStrategy
      → Members
      → Bool
      → Ledger
      → Result (List Lead × Ledger × DistributionResult)
  unfolding validate_strategy_config select_leads throwaway open_changeset candidates target_of
      distribute_each
  distribute conv now actor ids strategy config skip_unavailable l = do
    raise_if (is_empty ids) (unprocessable no_leads)
    raise_if (ltb max_distribute_leads (length ids)) (unprocessable too_many_leads)
    stored ← validate_strategy_config show conv strategy config
    let leads = select_leads ids ros.leads
    let n = length leads
    raise_if (n == 0) (api_error 404 no_leads_found)
    let r = throwaway strategy stored skip_unavailable
    let (w, opened) = open_changeset actor ChangesetSource.distribution (distributed n) n l
    let deal = candidates ros r
    raise_if (is_empty deal && deals strategy) (unprocessable Code.no_candidates)
    let p =
        distribute_each w now (target_of r deal) 0 leads
          (record { leads = ros.leads; ledger = opened; assigned = 0; skipped = 0 })
    ok (
      p.leads,
      p.ledger,
      record {
        changeset_id = w.changeset_id;
        assigned = p.assigned;
        skipped = p.skipped;
        total = n;
      },
    )
