-- ===== src/Assignment/Matching.antt =====
-- `match` finds the first rule that applies, in priority order.
use mathlib.Core.List.{append-nil, append_assoc}
use configurable_crm.Prelude.{
  ◌<◌, ◌≤◌, ◌⊎◌, All, All-both, All-keep, All-sort_by, keep, ℕ, Bool, true, false, Option, none,
  some, List, [], ◌∷◌, ◌++◌, ◌==◌, ◌≡◌, inl, inr, refl, sym, ◌∙◌, ap, arith, contains,
  if◌then◌else◌, Bool-cases, Option-cases, ==_iff,
}
use configurable_crm.Prelude.Table.{find, Distinct}
use configurable_crm.Prelude.Found.{keep-Distinct, AreFound-keep}
use configurable_crm.Prelude.Sorted.{
  InOrder, sort_by-InOrder, sort_by-Distinct, All-of_sort_by, All-of_keep,
}
use mathlib.Core.Bool.{false≢true}
use configurable_crm.Errors.{ok, >>=-eq-ok}
use configurable_crm.Filters.Dsl.{FilterNode}
use configurable_crm.Timeline.{Lead}
use configurable_crm.Assignment.Rows.{AssignmentRule}
use configurable_crm.Assignment.Engine.{
  precedes, Roster, load_rules, sift, first_hit, is_rule, hits_of, choose, match_rule, or_first,
}

abbrev pub rule_id : AssignmentRule → ℕ
rule_id r = r.id

-- A rule applies to a lead if it has no conditions, or they hold.
abbrev pub applies : (FilterNode → Lead → Bool) → Lead → AssignmentRule → Bool
applies holds lead r = elim r.conditions [ none ↦ true | some n ↦ holds n lead ]

unfoldable pub first_applicable :
    (FilterNode → Lead → Bool) → Lead → List AssignmentRule → Option AssignmentRule
first_applicable holds lead [] = none
first_applicable holds lead (r ∷ rs) =
    if applies holds lead r then some r else first_applicable holds lead rs

-- The rules without conditions and those with, as `sift` separates them.
first_catch_all : List AssignmentRule → Option AssignmentRule
first_catch_all [] = none
first_catch_all (r ∷ rs) = elim r.conditions [ none ↦ some r | some n ↦ first_catch_all rs ]

with_conditions : List AssignmentRule → List (AssignmentRule × FilterNode)
with_conditions [] = []
with_conditions (r ∷ rs) =
    let rest = with_conditions rs in elim r.conditions [ none ↦ rest | some n ↦ (r, n) ∷ rest ]

-- The first loop succeeds only on rules whose filters are well formed, and then it separates them.
sift-eq-ok :
    (rs : List AssignmentRule) (c c' : Option AssignmentRule)
    (done conds : List (AssignmentRule × FilterNode))
    → sift rs c done ≡ ok (c', conds)
    → (c' ≡ elim c [ none ↦ first_catch_all rs | some x ↦ some x ])
      × (conds ≡ done ++ with_conditions rs)
unfolding sift first_catch_all with_conditions
sift-eq-ok [] c c' done conds h = (ground arith, ground (arith, append-nil done))
sift-eq-ok (r ∷ rs) c c' done conds h = elim (Option-cases r.conditions) [
  | inl e ↦ ground (arith, sift-eq-ok rs (or_first c r) c' done conds)
  | inr (n, e) ↦ ground (
    arith,
    sift-eq-ok rs c c' (done ++ (r, n) ∷ []) conds,
    append_assoc done ((r, n) ∷ []) (with_conditions rs),
  )
]

-- A smaller priority, or the same and a key that is not greater.
abbrev pub NotAfter : AssignmentRule → AssignmentRule → Type 0
NotAfter a b = (a.priority < b.priority) ⊎ ((a.priority ≡ b.priority) × (a.id ≤ b.id))

NotAfter-trans : (a b c : AssignmentRule) → NotAfter a b → NotAfter b c → NotAfter a c
NotAfter-trans a b c (inl h) (inl k) = inl (omega arith)
NotAfter-trans a b c (inl h) (inr (p, k)) = inl (omega (arith, h, p))
NotAfter-trans a b c (inr (p, h)) (inl k) = inl (omega (arith, k, p))
NotAfter-trans a b c (inr (p, h)) (inr (q, k)) = inr (p ∙ q, omega (arith, h, k))

load_rules-InOrder : (rules : List AssignmentRule) → InOrder NotAfter (load_rules rules)
unfolding load_rules precedes
load_rules-InOrder rules =
    sort_by-InOrder precedes NotAfter (λ a b h. ground (arith, h)) (λ a b h. ground (arith, h))
      NotAfter-trans (keep (λ (r : AssignmentRule). r.is_active) rules)

load_rules-Distinct :
    (rules : List AssignmentRule) → Distinct rule_id rules → Distinct rule_id (load_rules rules)
unfolding load_rules
load_rules-Distinct rules d = sort_by-Distinct rule_id precedes _ (keep-Distinct rule_id _ rules d)

module _ (holds : FilterNode → Lead → Bool) (lead : Lead) where
  -- The conditions of a rule hold; a catch-all has none.
  abbrev hit : AssignmentRule → Bool
  hit r = elim r.conditions [ none ↦ false | some n ↦ holds n lead ]

  abbrev expected : Option AssignmentRule → Bool
  expected none = false
  expected (some r) = hit r

  -- Which rules the query reports.
  contains-hits :
      (rs : List AssignmentRule) (i : ℕ)
      → Distinct rule_id rs
      → contains (hits_of holds lead (with_conditions rs)) i ≡ expected (find rule_id i rs)
  unfolding with_conditions find
  contains-hits [] i d = refl
  contains-hits (r ∷ rs) i (fresh, d) = elim (Bool-cases (r.id == i)) [
    | inl e ↦
        let gone : find rule_id i rs ≡ none = rw (← (==_iff r.id i).0 e) fresh in
        ground (arith, contains-hits rs i d)
    | inr e ↦ ground (arith, contains-hits rs i d)
  ]

  -- A rule is not the catch-all of the rules behind it.
  not_catch_all :
      (rs : List AssignmentRule) (i : ℕ)
      → find rule_id i rs ≡ none
      → is_rule (first_catch_all rs) i ≡ false
  unfolding first_catch_all find
  not_catch_all [] i h = refl
  not_catch_all (r ∷ rs) i h = ground (arith, not_catch_all rs i)

  first_hit-first_applicable :
      (hits : List ℕ) (rs : List AssignmentRule)
      → Distinct rule_id rs
      → ((i : ℕ) (r : AssignmentRule) → find rule_id i rs ≡ some r → contains hits i ≡ hit r)
      → first_hit hits (first_catch_all rs) rs ≡ first_applicable holds lead rs
  unfolding first_hit first_catch_all first_applicable find
  first_hit-first_applicable hits [] d h = refl
  first_hit-first_applicable hits (r ∷ rs) (fresh, d) h =
      let rest = first_hit-first_applicable hits rs d (λ i x e. h i x (ground (arith, fresh))) in
      ground (arith, h r.id r, not_catch_all rs r.id, rest)

  -- Without conditional rules the catch-all is the first that applies.
  all_catch_all :
      (rs : List AssignmentRule)
      → with_conditions rs ≡ []
      → first_catch_all rs ≡ first_applicable holds lead rs
  unfolding first_catch_all first_applicable with_conditions
  all_catch_all [] h = refl
  all_catch_all (r ∷ rs) h = ground (arith, all_catch_all rs)

  choose-first_applicable :
      (rs : List AssignmentRule)
      → Distinct rule_id rs
      → choose holds rs (some lead) (first_catch_all rs) (with_conditions rs)
        ≡ first_applicable holds lead rs
  choose-first_applicable rs d = by_conditions (with_conditions rs) refl
    where
      by_conditions :
          (cs : List (AssignmentRule × FilterNode))
          → with_conditions rs ≡ cs
          → choose holds rs (some lead) (first_catch_all rs) cs ≡ first_applicable holds lead rs
      by_conditions [] e = unfold choose in all_catch_all rs e
      by_conditions (c ∷ cs) e =
          unfold choose in
          first_hit-first_applicable (hits_of holds lead (c ∷ cs)) rs d λ i r h.
            ap (λ l. contains (hits_of holds lead l) i) (sym e)
            ∙ contains-hits rs i d
            ∙ ap expected h

  -- The choice among the rules: none of the active ones applies, or it is an active one of them that
  -- applies, and of all active ones that apply none has a smaller priority, nor the same and a smaller key.
  abbrev pub IsChoice : List AssignmentRule → Option AssignmentRule → Type 0
  IsChoice rules none =
      All (λ (x : AssignmentRule). x.is_active ≡ true → applies holds lead x ≡ false) rules
  IsChoice rules (some r) =
      (find rule_id r.id rules ≡ some r)
      × (r.is_active ≡ true)
      × (applies holds lead r ≡ true)
      × All
          (λ (x : AssignmentRule). x.is_active ≡ true → applies holds lead x ≡ true → NotAfter r x)
          rules

  -- What the first that applies of a list in order is.
  abbrev IsFirst : (AssignmentRule → Type 0) → List AssignmentRule → Option AssignmentRule → Type 0
  IsFirst P rs none = All (λ (x : AssignmentRule). applies holds lead x ≡ false) rs
  IsFirst P rs (some r) =
      P r
      × (applies holds lead r ≡ true)
      × All (λ (x : AssignmentRule). applies holds lead x ≡ true → NotAfter r x) rs

  weaker :
      (r : AssignmentRule) (rs : List AssignmentRule)
      → All (NotAfter r) rs
      → All (λ (x : AssignmentRule). applies holds lead x ≡ true → NotAfter r x) rs
  weaker r [] all = tt
  weaker r (x ∷ rs) (h, all) = ((λ _. h), weaker r rs all)

  IsFirst-skip :
      (P : AssignmentRule → Type 0) (r : AssignmentRule) (rs : List AssignmentRule)
      (o : Option AssignmentRule)
      → applies holds lead r ≡ false
      → IsFirst P rs o
      → IsFirst P (r ∷ rs) o
  IsFirst-skip P r rs none e h = (e, h)
  IsFirst-skip P r rs (some x) e (p, fits, all) =
      (p, fits, ((λ is. absurd (false≢true (sym e ∙ is))), all))

  first_applicable-IsFirst :
      (P : AssignmentRule → Type 0) (rs : List AssignmentRule)
      → All P rs
      → InOrder NotAfter rs
      → IsFirst P rs (first_applicable holds lead rs)
  unfolding first_applicable
  first_applicable-IsFirst P [] all o = tt
  first_applicable-IsFirst P (r ∷ rs) (p, all) (least, o) =
      elim (Bool-cases (applies holds lead r)) [
        | inl e ↦ rw e (p, e, ((λ _. inr (refl, omega arith)), weaker r rs least))
        | inr e ↦ rw e (
            IsFirst-skip P r rs (first_applicable holds lead rs) e
              (first_applicable-IsFirst P rs all o))
      ]

  IsFirst-IsChoice :
      (rules : List AssignmentRule) (o : Option AssignmentRule)
      → IsFirst
          (λ r. (find rule_id r.id rules ≡ some r) × (r.is_active ≡ true))
          (load_rules rules)
          o
      → IsChoice rules o
  unfolding load_rules
  IsFirst-IsChoice rules none h =
      All-of_keep _ (λ (r : AssignmentRule). r.is_active) rules (All-of_sort_by _ precedes _ h)
  IsFirst-IsChoice rules (some r) ((here, active), fits, all) = (
    here,
    active,
    fits,
    All-of_keep _ (λ (r : AssignmentRule). r.is_active) rules (All-of_sort_by _ precedes _ all),
  )

  loaded :
      (rules : List AssignmentRule)
      → Distinct rule_id rules
      → All
          (λ (r : AssignmentRule). (find rule_id r.id rules ≡ some r) × (r.is_active ≡ true))
          (load_rules rules)
  unfolding load_rules
  loaded rules d =
      let active = λ (r : AssignmentRule). r.is_active in
      All-sort_by _ precedes (keep active rules) (
        All-both _ _ (keep active rules) (AreFound-keep rule_id active rules d)
          (All-keep active rules))

  -- For a lead of the table and rules with distinct keys, a match that raises no error is a choice as
  -- described: an active rule without conditions or whose conditions hold, such that no active rule
  -- without conditions or whose conditions hold has a smaller priority, nor the same priority and a
  -- smaller key; and it is no rule only if there is no such rule.
  pub match_rule-first_applicable :
      (ros : Roster) (o : Option AssignmentRule)
      → Distinct rule_id ros.rules
      → find (λ (l : Lead). l.id) lead.id ros.leads ≡ some lead
      → match_rule holds ros lead.id ≡ ok o
      → IsChoice ros.rules o
  unfolding match_rule
  match_rule-first_applicable ros o d here h =
      let rules = load_rules ros.rules in
      let ((c, conds), sifted, e) = >>=-eq-ok (sift rules none []) (λ _. _) h in
      let (ec, econds) = sift-eq-ok rules none c [] conds sifted in
      let first : o ≡ first_applicable holds lead rules = ground (
        arith,
        e,
        ec,
        econds,
        here,
        choose-first_applicable rules (load_rules-Distinct ros.rules d),
      ) in
      IsFirst-IsChoice ros.rules o (
        rw first
          (first_applicable-IsFirst _ rules (loaded ros.rules d) (load_rules-InOrder ros.rules)))
