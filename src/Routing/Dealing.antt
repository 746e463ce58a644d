-- ===== src/Routing/Dealing.antt =====
-- Where the leads of a distribution end, and what it counts and records.
use configurable_crm.Prelude.{
  ℕ, zero, suc, ◌+◌, true, false, Option, none, some, List, [], ◌∷◌, ◌≡◌, refl, ◌∙◌, ap, inl, inr,
  arith, Bool-cases, ◌==◌, ==_iff, ==_refl, length, length-append, get_elem?, All,
}
use mathlib.Core.Option
use configurable_crm.Prelude.Table.{find, find-update, Distinct}
use configurable_crm.Timeline.{
  Lead, ActionWriter, record_assignment_change, append_action, publish_action, touch,
}
use configurable_crm.Routing.Distribution.{
  lead_key, same_assignee, Progress, move, deal_to, distribute_each,
}

same_assignee-eq : (a b : Option ℕ) → same_assignee a b ≡ true → a ≡ b
same_assignee-eq none none h = refl
same_assignee-eq none (some b) h = absurd (ground arith)
same_assignee-eq (some a) none h = absurd (ground arith)
same_assignee-eq (some a) (some b) h = ap some ((==_iff a b).0 h)

abbrev pub assignee : Lead → Option ℕ
assignee l = l.assignee_id

module _ (w : ActionWriter) (now : ℕ) (lead : Lead) (target : Option ℕ) (p : Progress) where
  move-id : (record_assignment_change w now lead lead.assignee_id target p.ledger).0.id ≡ lead.id
  unfolding record_assignment_change append_action touch
  move-id = ground arith

  move-other :
      (j : ℕ)
      → (lead.id == j) ≡ false
      → find lead_key j (move w now lead target p).leads ≡ find lead_key j p.leads
  unfolding move
  move-other j apart = find-update lead_key lead.id j _ p.leads (λ _ _. move-id) ∙ rw apart refl

  move-own :
      find lead_key lead.id p.leads ≡ some lead
      → Option.map assignee (find lead_key lead.id (move w now lead target p).leads) ≡ some target
  unfolding move
  move-own here =
      let found = find-update lead_key lead.id lead.id _ p.leads (λ _ _. move-id) in
      ap (Option.map assignee) found ∙ rw (==_refl lead.id, here) refl

  deal_to-other :
      (j : ℕ)
      → (lead.id == j) ≡ false
      → find lead_key j (deal_to w now lead target p).leads ≡ find lead_key j p.leads
  unfolding deal_to
  deal_to-other j apart = ground (arith, move-other j apart)

  deal_to-own :
      find lead_key lead.id p.leads ≡ some lead
      → Option.map assignee (find lead_key lead.id (deal_to w now lead target p).leads)
        ≡ some target
  unfolding deal_to
  deal_to-own here = ground (arith, here, move-own here, same_assignee-eq target lead.assignee_id)

  move-actions : length (move w now lead target p).ledger.actions ≡ suc (length p.ledger.actions)
  unfolding move record_assignment_change append_action publish_action
  move-actions = omega (arith, length-append p.ledger.actions (_ ∷ []))

  move-counted :
      ((move w now lead target p).assigned ≡ suc p.assigned)
      × ((move w now lead target p).skipped ≡ p.skipped)
  unfolding move
  move-counted = (refl, refl)

-- After `n` more leads: each counts once, and each that changed hands has an action.
abbrev pub Counts : Progress → Progress → ℕ → Type 0
Counts p q n =
    (q.assigned + q.skipped ≡ n + (p.assigned + p.skipped))
    × (length q.ledger.actions + p.assigned ≡ length p.ledger.actions + q.assigned)

deal_to-Counts :
    (w : ActionWriter) (now : ℕ) (lead : Lead) (target : Option ℕ) (p : Progress)
    → Counts p (deal_to w now lead target p) 1
unfolding deal_to
deal_to-Counts w now lead target p =
    let (a, s) = move-counted w now lead target p in
    let n = move-actions w now lead target p in (ground (arith, a, s), ground (arith, a, n))

module _ (w : ActionWriter) (now : ℕ) (target : Lead → ℕ → Option ℕ) where
  pub distribute_each-Counts :
      (n : ℕ) (leads : List Lead) (p : Progress)
      → Counts p (distribute_each w now target n leads p) (length leads)
  unfolding distribute_each
  distribute_each-Counts n [] p = (omega arith, refl)
  distribute_each-Counts n (lead ∷ leads) p =
      let q = deal_to w now lead (target lead n) p in
      let (a, b) = deal_to-Counts w now lead (target lead n) p in
      let (c, d) = distribute_each-Counts (suc n) leads q in
      (omega (arith, a, c), omega (arith, b, d))

  -- A row that is not among the leads stays.
  pub distribute_each-other :
      (n : ℕ) (leads : List Lead) (p : Progress) (j : ℕ)
      → find lead_key j leads ≡ none
      → find lead_key j (distribute_each w now target n leads p).leads ≡ find lead_key j p.leads
  unfolding distribute_each find
  distribute_each-other n [] p j absent = refl
  distribute_each-other n (lead ∷ leads) p j absent = elim (Bool-cases (lead.id == j)) [
    | inl e ↦ absurd (ground (arith, e, absent))
    | inr e ↦
        distribute_each-other (suc n) leads (deal_to w now lead (target lead n) p) j
          (ground (arith, e, absent))
        ∙ deal_to-other w now lead (target lead n) p j e
  ]

  -- The leads' rows, as the query returned them.
  abbrev AreRows : List Lead → List Lead → Type 0
  AreRows table leads = All (λ (l : Lead). find lead_key l.id table ≡ some l) leads

  still-rows :
      (lead : Lead) (leads : List Lead) (t : Option ℕ) (p : Progress)
      → find lead_key lead.id leads ≡ none
      → AreRows p.leads leads
      → AreRows (deal_to w now lead t p).leads leads
  unfolding find
  still-rows lead [] t p fresh rows = tt
  still-rows lead (l ∷ leads) t p fresh (here, rows) = elim (Bool-cases (l.id == lead.id)) [
    | inl e ↦ absurd (ground (arith, e, fresh))
    | inr e ↦
        let apart : (lead.id == l.id) ≡ false = ground (arith, e) in
        (
          deal_to-other w now lead t p l.id apart ∙ here,
          still-rows lead leads t p (ground (arith, e, fresh)) rows,
        )
  ]

  pub distribute_each-dealt :
      (n : ℕ) (leads : List Lead) (p : Progress)
      → Distinct lead_key leads
      → AreRows p.leads leads
      → (k : ℕ) (lead : Lead) → get_elem? leads k ≡ some lead
      → Option.map assignee (find lead_key lead.id (distribute_each w now target n leads p).leads)
        ≡ some (target lead (n + k))
  unfolding distribute_each
  distribute_each-dealt n [] p d rows k lead at = absurd (ground arith)
  distribute_each-dealt n (l ∷ leads) p (fresh, d) (here, rows) zero lead at =
      let same : l ≡ lead = ground (arith, at) in
      rw (← same) (
        ap (Option.map assignee)
          (distribute_each-other (suc n) leads (deal_to w now l (target l n) p) l.id fresh)
        ∙ deal_to-own w now l (target l n) p here
        ∙ ap (λ i. some (target l i)) (omega arith))
  distribute_each-dealt n (l ∷ leads) p (fresh, d) (here, rows) (suc k) lead at =
      let q = deal_to w now l (target l n) p in
      distribute_each-dealt (suc n) leads q d (still-rows l leads (target l n) p fresh rows) k lead
        at
      ∙ ap (λ i. some (target lead i)) (omega arith)
