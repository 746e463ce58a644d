-- ===== src/Routing/Priorities.antt =====
-- The place of a new rule among the rules.
use configurable_crm.Prelude.{
  ℕ, zero, suc, ◌≤◌, ◌<◌, String, Bool, Option, none, some, List, [], ◌∷◌, ◌++◌, ◌≡◌, ◌⊎◌, refl,
  inl, inr, All, arith, Option-cases,
}
use configurable_crm.Errors.{ok, >>=-eq-ok, ok_inj}
use configurable_crm.Filters.Dsl.{FilterNode}
use configurable_crm.Assignment.Rows.{AssignmentStrategy, AssignmentRule}
use configurable_crm.Assignment.Engine.{parse}
use configurable_crm.Assignment.Strategy.{Conversions, validate_strategy_config}
use configurable_crm.Json.{Json, Members}
use configurable_crm.Routing.Rules.{
  Lowering, RuleStore, highest, next_priority, assert_name_free, create_rule,
}

All-le :
    (n m : ℕ) (rules : List AssignmentRule)
    → n ≤ m
    → All (λ (q : AssignmentRule). q.priority ≤ n) rules
    → All (λ (q : AssignmentRule). q.priority ≤ m) rules
All-le n m [] h all = tt
All-le n m (q ∷ rules) h (p, all) = (omega (arith, p, h), All-le n m rules h all)

highest-none : (rules : List AssignmentRule) → highest rules ≡ none → rules ≡ []
unfolding highest
highest-none [] h = refl
highest-none (r ∷ rules) h = absurd (ground (arith, h))

highest-le :
    (rules : List AssignmentRule) (p : ℕ)
    → highest rules ≡ some p
    → All (λ (q : AssignmentRule). q.priority ≤ p) rules
unfolding highest
highest-le [] p h = tt
highest-le (r ∷ rules) p h = elim (Option-cases (highest rules)) [
  | inl e ↦ let empty : rules ≡ [] = highest-none rules e in (ground (arith, e, h), rw empty tt)
  | inr (m, e) ↦
      (ground (arith, e, h), All-le m p rules (ground (arith, e, h)) (highest-le rules m e))
]

-- All rules come before the priority, or all have the priority 0 and so does the new one.
abbrev pub IsAfter : ℕ → List AssignmentRule → Type 0
IsAfter n rules =
    All (λ (q : AssignmentRule). q.priority < n) rules
    ⊎ (All (λ (q : AssignmentRule). q.priority ≤ 0) rules × (n ≡ 0))

All-lt :
    (n : ℕ) (rules : List AssignmentRule)
    → All (λ (q : AssignmentRule). q.priority ≤ n) rules
    → All (λ (q : AssignmentRule). q.priority < suc n) rules
All-lt n [] all = tt
All-lt n (q ∷ rules) (p, all) = (omega (arith, p), All-lt n rules all)

next_priority-IsAfter : (rules : List AssignmentRule) → IsAfter (next_priority rules) rules
unfolding next_priority
next_priority-IsAfter rules = elim (Option-cases (highest rules)) [
  | inl e ↦ let empty : rules ≡ [] = highest-none rules e in rw empty (inl tt)
  | inr (zero, e) ↦ inr (highest-le rules zero e, ground (arith, e))
  | inr (suc n, e) ↦
      let next : next_priority rules ≡ suc (suc n) = ground (arith, e) in
      inl (rw next (All-lt (suc n) rules (highest-le rules (suc n) e)))
]

-- A rule that is created without a priority is added as it was given, at the end of the table; every
-- earlier rule has a lower priority, unless all of them, and so the new one too, have the priority 0.
pub create_rule-IsAfter :
    (lower : Lowering) (show : Json → String) (conv : Conversions) (id : ℕ) (name : String)
    (strategy : AssignmentStrategy) (config : Members) (conditions : Option FilterNode)
    (skip active : Bool) (t u : RuleStore)
    → create_rule lower show conv id name strategy config conditions none skip active t ≡ ok u
    → (r : AssignmentRule) × (u.rules ≡ t.rules ++ r ∷ [])
      × (validate_strategy_config show conv strategy config ≡ ok r.config)
      × IsAfter r.priority t.rules
unfolding create_rule
create_rule-IsAfter lower show conv id name strategy config conditions skip active t u h =
    let (_, _, rest) = >>=-eq-ok (assert_name_free lower name t.rules) (λ _. _) h in
    let (stored, valid, more) =
      >>=-eq-ok (validate_strategy_config show conv strategy config) (λ _. _) rest in
    let (_, _, e) = >>=-eq-ok (parse conditions) (λ _. _) more in
    rw (← ok_inj e) (_, refl, valid, next_priority-IsAfter t.rules)
