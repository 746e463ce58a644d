-- ===== src/Routing/Eligible.antt =====
-- Whom a distribution gives leads to.
use configurable_crm.Prelude.{
  ℕ, ◌%◌, ◌<◌, String, Bool, true, false, ◌&&◌, Option, none, some, List, [], ◌∷◌, ◌≡◌, ◌⊎◌, refl,
  sym, ◌∙◌, inl, inr, arith, length, get_elem?, get_elem?_of_lt, All, All-get_elem?,
}
use mathlib.Core.Option
use configurable_crm.Prelude.Table.{find, Distinct}
use configurable_crm.Json.{Json, Members}
use configurable_crm.Assignment.Strategy.{Conversions}
use configurable_crm.Errors.{ok, ok_inj}
use configurable_crm.Timeline.{Lead, Ledger}
use configurable_crm.Assignment.Rows.{
  AssignmentStrategy, round_robin, weighted, field_value, sales_group, fixed, unassigned,
  AssignmentRule,
}
use configurable_crm.Assignment.Engine.{
  Roster, candidates, if_eligible, resolve_field_value, pairs_of,
}
use configurable_crm.Assignment.Candidates.{CanTake, deal_from-CanTake}
use configurable_crm.Assignment.Decision.{if_eligible-CanTake, resolve_field_value-CanTake}
use configurable_crm.Routing.Distribution.{
  lead_key, DistributionResult, throwaway, deals, is_empty, select_leads, target_of, distribute,
}
use configurable_crm.Routing.Dealing.{assignee}
use configurable_crm.Routing.Fair.{distribute-run, distribute-placed}

-- Nobody, where the strategy has no deal list, or a member that can take the lead.
abbrev pub IsTarget : Roster → AssignmentStrategy → Bool → Option ℕ → Type 0
IsTarget ros s skip target =
    ((target ≡ none) × (deals s ≡ false))
    ⊎ ((m : ℕ) × (target ≡ some m) × CanTake ros.members skip m)

module _ (show : Json → String) (ros : Roster) (r : AssignmentRule) (lead : Lead) (k : ℕ) where
  nonempty : (deal : List ℕ) → is_empty deal ≡ false → 0 < length deal
  nonempty [] h = absurd (ground arith)
  nonempty (m ∷ deal) h = omega arith

  dealt :
      (deal : List ℕ)
      → is_empty deal ≡ false
      → All (CanTake ros.members r.skip_unavailable) deal
      → (m : ℕ) × (get_elem? deal (k % length deal) ≡ some m)
        × CanTake ros.members r.skip_unavailable m
  dealt deal full all =
      let size = nonempty deal full in
      let (m, at) = get_elem?_of_lt deal (k % length deal) (grind arith) in
      (m, at, All-get_elem? _ deal (k % length deal) m all at)

  target_of-IsTarget :
      (is_empty (candidates ros r) && deals r.strategy) ≡ false
      → IsTarget ros r.strategy r.skip_unavailable (target_of show ros r (candidates ros r) lead k)
  unfolding target_of candidates
  target_of-IsTarget full = by_strategy r.strategy refl
    where
      target : Option ℕ
      target = target_of show ros r (candidates ros r) lead k

      from_deal :
          deals r.strategy ≡ true
          → target ≡ get_elem? (candidates ros r) (k % length (candidates ros r))
          → IsTarget ros r.strategy r.skip_unavailable target
      from_deal d e =
          let (m, at, can) =
            dealt (candidates ros r) (ground (arith, full, d))
              (deal_from-CanTake ros.members r.skip_unavailable (pairs_of ros r)) in
          inr (m, e ∙ at, can)

      named :
          (o : Option ℕ)
          → deals r.strategy ≡ false
          → target ≡ o
          → ((m : ℕ) → o ≡ some m → CanTake ros.members r.skip_unavailable m)
          → IsTarget ros r.strategy r.skip_unavailable target
      named none d e can = inl (e, d)
      named (some m) d e can = inr (m, e, can m refl)

      by_strategy :
          (s : AssignmentStrategy)
          → r.strategy ≡ s
          → IsTarget ros r.strategy r.skip_unavailable target
      by_strategy round_robin e = from_deal (rw e refl) (ground (arith, e))
      by_strategy weighted e = from_deal (rw e refl) (ground (arith, e))
      by_strategy sales_group e = from_deal (rw e refl) (ground (arith, e))
      by_strategy fixed e =
          named (if_eligible ros r r.config.membership_id) (rw e refl) (ground (arith, e))
            (if_eligible-CanTake ros r r.config.membership_id)
      by_strategy field_value e =
          named (resolve_field_value show ros r lead) (rw e refl) (ground (arith, e))
            (resolve_field_value-CanTake show ros r lead)
      by_strategy unassigned e = inl (ground (arith, e), rw e refl)

-- A distribution that succeeds gives every chosen lead to a member that exists, is active and licensed,
-- and is working if those who are not are skipped, or takes it from everybody, which only the strategies
-- without a deal list do.
pub distribute-IsTarget :
    (show : Json → String) (ros : Roster) (conv : Conversions) (now : ℕ) (actor : Option ℕ)
    (ids : List ℕ) (strategy : AssignmentStrategy) (config : Members) (skip : Bool) (l : Ledger)
    (out : List Lead × Ledger × DistributionResult)
    → Distinct lead_key ros.leads
    → distribute show ros conv now actor ids strategy config skip l ≡ ok out
    → (k : ℕ) (lead : Lead) → get_elem? (select_leads ids ros.leads) k ≡ some lead
    → (target : Option ℕ) × (Option.map assignee (find lead_key lead.id out.0) ≡ some target)
      × IsTarget ros strategy skip target
unfolding throwaway
distribute-IsTarget show ros conv now actor ids strategy config skip l out d h k lead at =
    let (stored, valid, full, _) =
      distribute-run show ros conv now actor ids strategy config skip l out h in
    let (stored', valid', placed, _) =
      distribute-placed show ros conv now actor ids strategy config skip l out d h in
    let r = throwaway strategy stored' skip in
    let same : stored ≡ stored' = ok_inj (sym valid ∙ valid') in
    (
      target_of show ros r (candidates ros r) lead k,
      placed k lead at,
      target_of-IsTarget show ros r lead k (rw same at full),
    )
