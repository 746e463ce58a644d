-- ===== src/Routing/Reordered.antt =====
-- The priorities after `reorder`, and the rules that still load after `delete`.
use configurable_crm.Prelude.{
  ℕ, suc, true, false, not, some, List, [], ◌∷◌, ◌≡◌, refl, sym, ◌∙◌, ap, inl, inr, map, any,
  contains, arith, Option-cases, Bool-cases, ◌==◌, ==_iff, any-sort_by,
}
use mathlib.Core.Option
use configurable_crm.Prelude.Table.{
  find, find-update, update, update-Distinct, Distinct, any-keep_of_dropped,
}
use configurable_crm.Prelude.Positions.{find-place_each, position_of}
use configurable_crm.Errors.{ok, raise_if, >>=-eq-ok, ok_inj, unprocessable, incomplete_order}
use configurable_crm.Assignment.Rows.{AssignmentRule}
use configurable_crm.Assignment.Engine.{load_rules, precedes}
use configurable_crm.Routing.Rules.{
  RuleStore, rule_key, same_set, set_priority, reorder, get_rule, delete_rule,
}

contains-position_of :
    (n j : ℕ) (ids : List ℕ) → contains ids j ≡ true → (k : ℕ) × (position_of n j ids ≡ some k)
contains-position_of n j [] h = absurd (ground arith)
contains-position_of n j (i ∷ ids) h = elim (Option-cases (position_of (suc n) j ids)) [
  | inr (k, e) ↦ (k, rw e refl)
  | inl e ↦ elim (Bool-cases (i == j)) [
    | inl same ↦ (n, rw (e, same) refl)
    | inr other ↦
        let (k, there) = contains-position_of (suc n) j ids (ground (arith, h, other)) in
        absurd (ground (arith, e, there))
  ]
]

-- All keys of the table are members of a list that leaves none out.
all-find :
    (order : List ℕ) (rules : List AssignmentRule) (j : ℕ) (r : AssignmentRule)
    → any (λ y. not (contains order y)) (map rule_key rules) ≡ false
    → find rule_key j rules ≡ some r
    → contains order j ≡ true
unfolding find
all-find order [] j r h here = absurd (ground arith)
all-find order (q ∷ rules) j r h here = elim (Bool-cases (q.id == j)) [
  | inl e ↦ rw (← (==_iff q.id j).0 e) (ground (arith, h))
  | inr e ↦ all-find order rules j r (ground (arith, h)) (ground (arith, here, e))
]

-- A new order that is accepted gives every rule a priority, its last position in the order from 0 on, and
-- changes nothing else of the rules.
pub reorder-placed :
    (order : List ℕ) (t u : RuleStore) (j : ℕ) (r : AssignmentRule)
    → reorder order t ≡ ok u
    → find rule_key j t.rules ≡ some r
    → (k : ℕ) × (position_of 0 j order ≡ some k)
      × (find rule_key j u.rules ≡ some (record r { priority = k }))
unfolding reorder same_set
reorder-placed order t u j r h here =
    let test = not (same_set order (map rule_key t.rules)) in
    let (_, listed, e) = >>=-eq-ok (raise_if test (unprocessable incomplete_order)) (λ _. _) h in
    let (k, at) =
      contains-position_of 0 j order (all-find order t.rules j r (ground (arith, listed)) here) in
    (
      k,
      at,
      ap (λ (v : RuleStore). find rule_key j v.rules) (sym (ok_inj e))
          ∙ find-place_each rule_key set_priority (λ _ _. refl) (λ _ _ _. refl) 0 j order t.rules
          ∙ rw (at, here) refl,
    )

abbrev pub deactivated : AssignmentRule → AssignmentRule
deactivated r = record r { is_active = false }

-- A deleted rule stays in the table, inactive, and is not among the rules that load.
pub delete_rule-load_rules :
    (i : ℕ) (t u : RuleStore)
    → Distinct rule_key t.rules
    → delete_rule i t ≡ ok u
    → (find rule_key i u.rules ≡ Option.map deactivated (find rule_key i t.rules))
      × (any (λ r. r.id == i) (load_rules u.rules) ≡ false)
unfolding delete_rule get_rule load_rules
delete_rule-load_rules i t u d h = elim (Option-cases (find rule_key i t.rules)) [
  | inl absent ↦ absurd (ground (arith, absent, h))
  | inr (r, here) ↦
      let e : record t { rules = update rule_key i deactivated t.rules } ≡ u =
        ground (arith, here, h) in
      let found = find-update rule_key i i deactivated t.rules (λ _ e. e) in
      let now : find rule_key i (update rule_key i deactivated t.rules) ≡ some (deactivated r) =
        ground (arith, found, here) in
      rw (← e) (
        now ∙ rw here refl,
        any-sort_by precedes (λ q. q.id == i) _
            ∙ any-keep_of_dropped rule_key (λ q. q.is_active) i _ (deactivated r)
                (update-Distinct rule_key i deactivated t.rules (λ _ e. e) d) now refl,
      )
]
