-- ===== src/Assignment/Decision.antt =====
-- What `decide` promises: who is picked can take the lead.
use configurable_crm.Prelude.{
  ℕ, String, Bool, true, Option, none, some, List, [], ◌∷◌, ◌≡◌, ◌⊎◌, inl, inr, refl, arith,
  Bool-cases, Option-cases, All,
}
use configurable_crm.Json.{Json}
use configurable_crm.Errors.{ok, >>=-eq-ok}
use configurable_crm.Filters.Dsl.{FilterNode}
use configurable_crm.Timeline.{Lead}
use configurable_crm.Assignment.Rows.{
  AssignmentRule, AssignmentStrategy, round_robin, weighted, field_value, sales_group, fixed,
  unassigned, AssignmentCursor,
}
use configurable_crm.Assignment.Engine.{
  Roster, AssignmentOutcome, matched, no_rule_matched, eligible, candidates, if_eligible,
  next_by_cursor, draw, resolve_field_value, resolve, match_rule, decide, nobody_reason, pairs_of,
}
use configurable_crm.Assignment.Candidates.{CanTake, eligible-CanTake, deal_from-CanTake}
use configurable_crm.Assignment.Cursor.{next_by_cursor-in_deal}

pub if_eligible-CanTake :
    (ros : Roster) (r : AssignmentRule) (o : Option ℕ) (m : ℕ)
    → if_eligible ros r o ≡ some m
    → CanTake ros.members r.skip_unavailable m
if_eligible-CanTake ros r none m h = absurd (ground arith)
if_eligible-CanTake ros r (some i) m h =
    elim (Bool-cases (eligible ros.members i r.skip_unavailable)) [
      | inl e ↦ rw (← ground_eq e) (eligible-CanTake ros.members i r.skip_unavailable e)
      | inr e ↦ absurd (ground arith)
    ]
  where
    ground_eq : eligible ros.members i r.skip_unavailable ≡ true → i ≡ m
    ground_eq e = ground arith

-- One round of the three cyclic strategies.
dealt-CanTake :
    (ros : Roster) (r : AssignmentRule) (cursors : List AssignmentCursor) (deal : List ℕ) (m : ℕ)
    → All (CanTake ros.members r.skip_unavailable) deal
    → (draw r.id deal cursors).0 ≡ some m
    → CanTake ros.members r.skip_unavailable m
unfolding draw
dealt-CanTake ros r cursors [] m all h = absurd (ground arith)
dealt-CanTake ros r cursors (d ∷ ds) m all h =
    let P = CanTake ros.members r.skip_unavailable in
    let (k, picked, fit) = next_by_cursor-in_deal P r.id (d ∷ ds) cursors (omega arith) all in
    rw (← ground_eq k picked) fit
  where
    ground_eq : (k : ℕ) → (next_by_cursor r.id (d ∷ ds) cursors).0 ≡ some k → k ≡ m
    ground_eq k e = ground arith

pub resolve_field_value-CanTake :
    (show : Json → String) (ros : Roster) (r : AssignmentRule) (lead : Lead) (m : ℕ)
    → resolve_field_value show ros r lead ≡ some m
    → CanTake ros.members r.skip_unavailable m
unfolding resolve_field_value
resolve_field_value-CanTake show ros r lead m h = if_eligible-CanTake ros r _ m h

module _ (show : Json → String) (ros : Roster) (r : AssignmentRule) (lead : Lead)
    (cursors : List AssignmentCursor) where
  resolve-CanTake :
      (m : ℕ)
      → (resolve show ros r lead cursors).0 ≡ some m
      → CanTake ros.members r.skip_unavailable m
  unfolding resolve candidates
  resolve-CanTake m h = by_strategy r.strategy refl
    where
      dealt :
          (draw r.id (candidates ros r) cursors).0 ≡ some m
          → CanTake ros.members r.skip_unavailable m
      dealt =
          dealt-CanTake ros r cursors (candidates ros r) m
            (deal_from-CanTake ros.members r.skip_unavailable (pairs_of ros r))

      by_strategy :
          (s : AssignmentStrategy) → r.strategy ≡ s → CanTake ros.members r.skip_unavailable m
      by_strategy round_robin e = dealt (ground arith)
      by_strategy weighted e = dealt (ground arith)
      by_strategy sales_group e = dealt (ground arith)
      by_strategy fixed e = if_eligible-CanTake ros r r.config.membership_id m (ground arith)
      by_strategy field_value e = resolve_field_value-CanTake show ros r lead m (ground arith)
      by_strategy unassigned e = absurd (ground arith)

module _ (holds : FilterNode → Lead → Bool) (show : Json → String) where
  -- A decision that raises no error comes from the rule that `match` returned: without one nobody
  -- is picked and the cursors stay; with one the outcome names the rule, and either picks nobody
  -- and has the strategy's reason for that, or says `matched` and picks a member that exists, is
  -- active and licensed, and is working if the rule skips those who are not.
  pub decide-CanTake :
      (ros : Roster) (lead : Lead) (cursors after : List AssignmentCursor) (out : AssignmentOutcome)
      → decide holds show ros lead cursors ≡ ok (out, after)
      → ((match_rule holds ros lead.id ≡ ok none)
          × (out.membership_id ≡ none)
          × (out.reason ≡ no_rule_matched)
          × (after ≡ cursors))
        ⊎ ((r : AssignmentRule) × (match_rule holds ros lead.id ≡ ok (some r))
            × (out.rule_id ≡ some r.id)
            × (((out.membership_id ≡ none) × (out.reason ≡ nobody_reason r.strategy))
                ⊎ ((m : ℕ) × (out.membership_id ≡ some m)
                    × (out.reason ≡ matched)
                    × CanTake ros.members r.skip_unavailable m)))
  unfolding decide
  decide-CanTake ros lead cursors after out h =
      let (rule, matches, rest) = >>=-eq-ok (match_rule holds ros lead.id) _ h in
      elim (Option-cases rule) [
        | inl e ↦ inl (ground arith, ground arith, ground arith, ground arith)
        | inr (r, e) ↦ inr (
          r,
          ground arith,
          ground arith,
          elim (Option-cases (resolve show ros r lead cursors).0) [
            | inl nobody ↦ inl (ground arith, ground arith)
            | inr (m, picked) ↦
                inr
                  (m, ground arith, ground arith, resolve-CanTake show ros r lead cursors m picked)
          ],
        )
      ]
