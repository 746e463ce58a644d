-- ===== src/Routing/Fair.antt =====
-- What a distribution promises: who gets which lead, and what the report counts.
use configurable_crm.Prelude.{
  false, ◌⊎◌, inl, inr, sym, map, Bool-cases, get_key, get_elem?_of_lt, ◌%◌, [], ◌∷◌, ℕ, ◌+◌,
  String, Bool, ◌&&◌, Option, none, some, List, ◌≡◌, refl, ◌∙◌, ap, arith, ◌==◌, ltb, length,
  get_elem?,
}
use mathlib.Core.Option
use configurable_crm.Prelude.Table.{find, Distinct}
use configurable_crm.Prelude.Found.{keep-Distinct, AreFound-keep}
use configurable_crm.Json.{Json, Members}
use configurable_crm.Errors.{
  Code, ok, raise_if, >>=-eq-ok, ok_inj, unprocessable, api_error, no_leads, too_many_leads,
  no_leads_found,
}
use configurable_crm.Timeline.{
  Lead, Ledger, ActionWriter, ChangesetSource, distributed, open_changeset,
}
use configurable_crm.Assignment.Rows.{
  AssignmentStrategy, round_robin, weighted, field_value, sales_group, fixed, unassigned, Config,
  AssignmentRule,
}
use configurable_crm.Assignment.Engine.{
  Roster, candidates, deal_from, pair_of, pairs_of, group_pairs, if_eligible, eligible,
  resolve_field_value,
}
use configurable_crm.Assignment.Candidates.{CanTake, eligible-CanTake, eligible_of_CanTake}
use mathlib.Core.Bool.{false≢true}
use configurable_crm.Assignment.Strategy.{Conversions, validate_strategy_config}
use configurable_crm.Routing.Distribution.{
  lead_key, DistributionResult, throwaway, deals, is_empty, select_leads, Progress, distribute_each,
  target_of, distribute, max_distribute_leads,
}
use configurable_crm.Routing.Dealing.{
  assignee, distribute_each-Counts, distribute_each-other, distribute_each-dealt,
}

module _ (show : Json → String) (ros : Roster) (conv : Conversions) (now : ℕ) (actor : Option ℕ)
    (ids : List ℕ) (strategy : AssignmentStrategy) (config : Members) (skip : Bool)
    (l : Ledger) where
  abbrev rule_of : Config → AssignmentRule
  rule_of stored = throwaway strategy stored skip

  abbrev deal_of : Config → List ℕ
  deal_of stored = candidates ros (rule_of stored)

  abbrev chosen : List Lead
  chosen = select_leads ids ros.leads

  abbrev opened : ActionWriter × Ledger
  opened =
      open_changeset actor ChangesetSource.distribution (distributed (length chosen))
        (length chosen) l

  abbrev run : Config → Progress
  run stored =
      distribute_each opened.0 now (target_of show ros (rule_of stored) (deal_of stored)) 0 chosen
        (record { leads = ros.leads; ledger = opened.1; assigned = 0; skipped = 0 })

  abbrev report_of : Progress → DistributionResult
  report_of p = record {
    changeset_id = opened.0.changeset_id;
    assigned = p.assigned;
    skipped = p.skipped;
    total = length chosen;
  }

  pub distribute-run :
      (out : List Lead × Ledger × DistributionResult)
      → distribute show ros conv now actor ids strategy config skip l ≡ ok out
      → (stored : Config) × (validate_strategy_config show conv strategy config ≡ ok stored)
        × ((is_empty (deal_of stored) && deals strategy) ≡ false)
        × (((run stored).leads, (run stored).ledger, report_of (run stored)) ≡ out)
  unfolding distribute
  distribute-run out h =
      let (_, _, h1) = >>=-eq-ok (raise_if (is_empty ids) (unprocessable no_leads)) (λ _. _) h in
      let (_, _, h2) =
        >>=-eq-ok (raise_if (ltb max_distribute_leads (length ids)) (unprocessable too_many_leads))
          (λ _. _) h1 in
      let (stored, valid, h3) =
        >>=-eq-ok (validate_strategy_config show conv strategy config) (λ _. _) h2 in
      let (_, _, h4) =
        >>=-eq-ok (raise_if (length chosen == 0) (api_error 404 no_leads_found)) (λ _. _) h3 in
      let (_, full, e) =
        >>=-eq-ok
          (raise_if (is_empty (deal_of stored) && deals strategy)
            (unprocessable Code.no_candidates))
          (λ _. _) h4 in
      (stored, valid, ground (arith, full), ok_inj e)

  -- Each chosen lead ends with the target that `target_of` computes, and all other leads are left alone.
  pub distribute-placed :
      (out : List Lead × Ledger × DistributionResult)
      → Distinct lead_key ros.leads
      → distribute show ros conv now actor ids strategy config skip l ≡ ok out
      → (stored : Config) × (validate_strategy_config show conv strategy config ≡ ok stored)
        × ((k : ℕ) (lead : Lead)
            → get_elem? (select_leads ids ros.leads) k ≡ some lead
            → Option.map assignee (find lead_key lead.id out.0)
              ≡ some (
                  target_of show ros
                    (throwaway strategy stored skip)
                    (candidates ros (throwaway strategy stored skip))
                    lead
                    k))
        × ((j : ℕ)
            → find lead_key j (select_leads ids ros.leads) ≡ none
            → find lead_key j out.0 ≡ find lead_key j ros.leads)
  unfolding select_leads
  distribute-placed out d h =
      let (stored, valid, _, e) = distribute-run out h in
      let target = target_of show ros (rule_of stored) (deal_of stored) in
      let start : Progress = record {
        leads = ros.leads;
        ledger = opened.1;
        assigned = 0;
        skipped = 0;
      } in
      rw (← e) (
        stored,
        valid,
        λ k lead at.
            distribute_each-dealt opened.0 now target 0 chosen start
              (keep-Distinct lead_key _ ros.leads d) (AreFound-keep lead_key _ ros.leads d) k lead
              at
            ∙ ap (λ i. some (target lead i)) (omega arith),
        λ j absent. distribute_each-other opened.0 now target 0 chosen start j absent,
      )

  -- The report of a distribution that succeeds counts every chosen lead once, and the timeline has one
  -- new action for each lead that is reported as assigned.
  pub distribute-counted :
      (out : List Lead × Ledger × DistributionResult)
      → distribute show ros conv now actor ids strategy config skip l ≡ ok out
      → (out.2.assigned + out.2.skipped ≡ out.2.total)
        × (out.2.total ≡ length (select_leads ids ros.leads))
        × (length out.1.actions ≡ length l.actions + out.2.assigned)
  unfolding open_changeset
  distribute-counted out h =
      let (stored, _, _, e) = distribute-run out h in
      let target = target_of show ros (rule_of stored) (deal_of stored) in
      let start : Progress = record {
        leads = ros.leads;
        ledger = opened.1;
        assigned = 0;
        skipped = 0;
      } in
      let (total, actions) = distribute_each-Counts opened.0 now target 0 chosen start in
      rw (← e) (omega (arith, total), refl, omega (arith, actions))

-- A wanted member gets the lead if they can take it, and otherwise nobody.
abbrev pub IsGiven : Roster → Bool → Option ℕ → Option ℕ → Type 0
IsGiven ros skip none given = given ≡ none
IsGiven ros skip (some m) given =
    (CanTake ros.members skip m × (given ≡ some m))
    ⊎ ((¬ CanTake ros.members skip m) × (given ≡ none))

abbrev first_of : Option ℕ → Option ℕ → Option ℕ
first_of none b = b
first_of (some a) b = some a

-- The member that the map names for the lead's value of the field, or the fallback.
abbrev pub wanted_by_value : (Json → String) → Config → Lead → Option ℕ
wanted_by_value show stored lead =
    let key : String = elim stored.field_key [ none ↦ "None" | some key ↦ key ] in
    let mapped : Option ℕ = elim (get_key key lead.values) [
      | none ↦ none
      | some v ↦ get_key (show v) stored.mapping
    ] in
    first_of mapped stored.fallback

-- Entry `k` of a deal list that one goes round.
abbrev pub GoesRound : List ℕ → ℕ → Option ℕ → Type 0
GoesRound deal k given = (m : ℕ) × (get_elem? deal (k % length deal) ≡ some m) × (given ≡ some m)

-- Whom each strategy gives the lead at position `k`.
abbrev pub IsDealt :
    (Json → String) → Roster → AssignmentStrategy → Config → Bool → Lead → ℕ → Option ℕ → Type 0
IsDealt show ros unassigned stored skip lead k given = given ≡ none
IsDealt show ros fixed stored skip lead k given = IsGiven ros skip stored.membership_id given
IsDealt show ros field_value stored skip lead k given =
    IsGiven ros skip (wanted_by_value show stored lead) given
IsDealt show ros round_robin stored skip lead k given =
    GoesRound (deal_from ros.members skip (map (λ m. (m, 1)) stored.membership_ids)) k given
IsDealt show ros weighted stored skip lead k given =
    GoesRound (deal_from ros.members skip (map pair_of stored.members)) k given
IsDealt show ros sales_group stored skip lead k given =
    let pairs : List (ℕ × ℕ) = elim stored.group_id [ none ↦ [] | some g ↦ group_pairs ros g ] in
    GoesRound (deal_from ros.members skip pairs) k given

if_eligible-IsGiven :
    (ros : Roster) (r : AssignmentRule) (o : Option ℕ)
    → IsGiven ros r.skip_unavailable o (if_eligible ros r o)
if_eligible-IsGiven ros r none = refl
if_eligible-IsGiven ros r (some m) = elim (Bool-cases (eligible ros.members m r.skip_unavailable)) [
  | inl e ↦ inl (eligible-CanTake ros.members m r.skip_unavailable e, rw e refl)
  | inr e ↦ inr (
    (λ able.
        absurd (false≢true (sym e ∙ eligible_of_CanTake ros.members m r.skip_unavailable able))),
    rw e refl,
  )
]

goes_round :
    (deal : List ℕ) (k : ℕ)
    → is_empty deal ≡ false
    → GoesRound deal k (get_elem? deal (k % length deal))
goes_round [] k e = absurd (ground (arith, e))
goes_round (m ∷ deal) k e =
    let (i, at) = get_elem?_of_lt (m ∷ deal) (k % length (m ∷ deal)) (omega arith) in (i, at, at)

module _ (show : Json → String) (ros : Roster) (stored : Config) (skip : Bool) (lead : Lead)
    (k : ℕ) where
  resolve_field_value-IsGiven :
      IsGiven ros skip
        (wanted_by_value show stored lead)
        (resolve_field_value show ros (throwaway field_value stored skip) lead)
  unfolding resolve_field_value throwaway
  resolve_field_value-IsGiven =
      if_eligible-IsGiven ros (throwaway field_value stored skip) (wanted_by_value show stored lead)

  target_of-IsDealt :
      (s : AssignmentStrategy)
      → (is_empty (candidates ros (throwaway s stored skip)) && deals s) ≡ false
      → IsDealt show ros s stored skip lead k (
          target_of show ros
            (throwaway s stored skip)
            (candidates ros (throwaway s stored skip))
            lead
            k)
  unfolding target_of throwaway candidates pairs_of
  target_of-IsDealt unassigned full = refl
  target_of-IsDealt fixed full =
      if_eligible-IsGiven ros (throwaway fixed stored skip) stored.membership_id
  target_of-IsDealt field_value full = resolve_field_value-IsGiven
  target_of-IsDealt round_robin full = goes_round _ k (ground (arith, full))
  target_of-IsDealt weighted full = goes_round _ k (ground (arith, full))
  target_of-IsDealt sales_group full = goes_round _ k (ground (arith, full))

assigned_row :
    (o : Option Lead) (t : Option ℕ)
    → Option.map assignee o ≡ some t
    → (row : Lead) × (o ≡ some row) × (row.assignee_id ≡ t)
assigned_row none t h = absurd (ground arith)
assigned_row (some row) t h = (row, refl, ground (arith, h))

-- A distribution that succeeds, in a table whose leads have distinct keys, gives the k-th of the chosen
-- leads to entry k modulo the length of the strategy's deal list, under a strategy that deals from one; to
-- the named member, or the one that the map or the fallback names for its value, if they can take it, and
-- else to nobody, under the strategies `fixed` and `field_value`; and to nobody under `unassigned`. It
-- leaves all other leads alone.
pub distribute-IsDealt :
    (show : Json → String) (ros : Roster) (conv : Conversions) (now : ℕ) (actor : Option ℕ)
    (ids : List ℕ) (strategy : AssignmentStrategy) (config : Members) (skip : Bool) (l : Ledger)
    (out : List Lead × Ledger × DistributionResult)
    → Distinct lead_key ros.leads
    → distribute show ros conv now actor ids strategy config skip l ≡ ok out
    → (stored : Config) × (validate_strategy_config show conv strategy config ≡ ok stored)
      × ((k : ℕ) (lead : Lead)
          → get_elem? (select_leads ids ros.leads) k ≡ some lead
          → (row : Lead) × (find lead_key lead.id out.0 ≡ some row)
            × IsDealt show ros strategy stored skip lead k row.assignee_id)
      × ((j : ℕ)
          → find lead_key j (select_leads ids ros.leads) ≡ none
          → find lead_key j out.0 ≡ find lead_key j ros.leads)
distribute-IsDealt show ros conv now actor ids strategy config skip l out d h =
    let (stored', valid', full, _) =
      distribute-run show ros conv now actor ids strategy config skip l out h in
    let (stored, valid, placed, others) =
      distribute-placed show ros conv now actor ids strategy config skip l out d h in
    let same : stored' ≡ stored = ok_inj (sym valid' ∙ valid) in
    (
      stored,
      valid,
      λ k lead at.
          let (row, here, is) = assigned_row _ _ (placed k lead at) in
          (
            row,
            here,
            rw is (target_of-IsDealt show ros stored skip lead k strategy (rw (← same) full)),
          ),
      others,
    )
