-- ===== src/LeadOwnership/Transfer.antt =====
-- What a transfer of the open pipeline leaves behind.
use mathlib.Core.Bool.{false≢true}
use configurable_crm.Prelude.{
  ℕ, suc, Bool, false, ◌||◌, Option, some, List, [], ◌∷◌, ◌==◌, keep, any, length, count, ◌≡◌, ◌≢◌,
  ◌⊎◌, inl, inr, refl, sym, ◌∙◌, ap, arith, Bool-cases, Option-cases, length-keep,
}
use configurable_crm.Prelude.Table.{
  update, find, find-update, Distinct, update-Distinct, count-eq-zero, any-keep_of_find,
  any-keep_of_dropped,
}
use configurable_crm.Pipeline.Rows.{Stage}
use configurable_crm.Timeline.{Lead, Ledger, ActionWriter, touch, append_action}
use configurable_crm.LeadOwnership.Defs.{
  is_open_lead_of, insert_by_age, sort_by_age, open_leads_of, count_open_leads, reassign_lead,
  reassign_each, reassign_selected, reassign_open_leads,
}

abbrev pub lead_id : Lead → ℕ
lead_id x = x.id

any-insert_by_age :
    (p : Lead → Bool) (x : Lead) (xs : List Lead) → any p (insert_by_age x xs) ≡ (p x || any p xs)
unfolding insert_by_age
any-insert_by_age p x [] = refl
any-insert_by_age p x (y ∷ ys) = ground (arith, any-insert_by_age p x ys)

any-sort_by_age : (p : Lead → Bool) (xs : List Lead) → any p (sort_by_age xs) ≡ any p xs
unfolding sort_by_age
any-sort_by_age p [] = refl
any-sort_by_age p (x ∷ xs) =
    any-insert_by_age p x (sort_by_age xs) ∙ ap (λ b. p x || b) (any-sort_by_age p xs)

length-insert_by_age : (x : Lead) (xs : List Lead) → length (insert_by_age x xs) ≡ suc (length xs)
unfolding insert_by_age
length-insert_by_age x [] = refl
length-insert_by_age x (y ∷ ys) = ground (arith, length-insert_by_age x ys)

length-sort_by_age : (xs : List Lead) → length (sort_by_age xs) ≡ length xs
unfolding sort_by_age
length-sort_by_age [] = refl
length-sort_by_age (x ∷ xs) =
    length-insert_by_age x (sort_by_age xs) ∙ ap suc (length-sort_by_age xs)

-- The number that a query for the open leads counts.
pub count_open_leads-count :
    (stages : List Stage) (m : ℕ) (leads : List Lead)
    → count_open_leads stages m leads ≡ count (is_open_lead_of stages m) leads
unfolding count_open_leads
count_open_leads-count stages m leads =
    length-sort_by_age (keep (is_open_lead_of stages m) leads)
    ∙ length-keep (is_open_lead_of stages m) leads

reassign_lead_lem :
    (w : ActionWriter) (now target : ℕ) (lead : Lead) (l : Ledger)
    → ((reassign_lead w now target lead l).0.id ≡ lead.id)
      × ((reassign_lead w now target lead l).0.assignee_id ≡ some target)
unfolding reassign_lead append_action touch
reassign_lead_lem w now target lead l = ground arith

module _ (w : ActionWriter) (now target : ℕ) where
  -- A row after the loop was given to the target, or was not selected and is as before.
  reassign_each-find :
      (sel leads : List Lead) (l : Ledger) (j : ℕ) (x : Lead)
      → find lead_id j (reassign_each w now target sel leads l).0 ≡ some x
      → (x.assignee_id ≡ some target)
        ⊎ ((any (λ s. s.id == j) sel ≡ false) × (find lead_id j leads ≡ some x))
  unfolding reassign_each
  reassign_each-find [] leads l j x h = inr (refl, h)
  reassign_each-find (s ∷ ss) leads l j x h =
      let (key, moved) = reassign_lead_lem w now target s l in
      let (s', l') = reassign_lead w now target s l in
      elim (reassign_each-find ss (update lead_id s.id (λ _. s') leads) l' j x h) [
        | inl done ↦ inl done
        | inr (absent, same) ↦ ground (
          arith,
          find-update lead_id s.id j (λ _. s') leads (λ _ _. key),
          Option-cases (find lead_id s.id leads),
        )
      ]

  reassign_each-Distinct :
      (sel leads : List Lead) (l : Ledger)
      → Distinct lead_id leads
      → Distinct lead_id (reassign_each w now target sel leads l).0
  unfolding reassign_each
  reassign_each-Distinct [] leads l d = d
  reassign_each-Distinct (s ∷ ss) leads l d =
      let (s', l') = reassign_lead w now target s l in
      reassign_each-Distinct ss _ l' (
        update-Distinct lead_id s.id (λ _. s') leads (λ _ _. (reassign_lead_lem w now target s l).0)
          d)

  reassign_each-find_absent :
      (sel leads : List Lead) (l : Ledger) (j : ℕ)
      → any (λ s. s.id == j) sel ≡ false
      → find lead_id j (reassign_each w now target sel leads l).0 ≡ find lead_id j leads
  unfolding reassign_each
  reassign_each-find_absent [] leads l j h = refl
  reassign_each-find_absent (s ∷ ss) leads l j h =
      let (key, _) = reassign_lead_lem w now target s l in
      let (s', l') = reassign_lead w now target s l in
      ground (
        arith,
        reassign_each-find_absent ss (update lead_id s.id (λ _. s') leads) l' j,
        find-update lead_id s.id j (λ _. s') leads (λ _ _. key),
      )

module _ (now : ℕ) (actor : Option ℕ) (target : ℕ) where
  selected-find :
      (sel leads : List Lead) (l : Ledger) (j : ℕ) (x : Lead)
      → find lead_id j (reassign_selected now actor target sel leads l).0 ≡ some x
      → (x.assignee_id ≡ some target)
        ⊎ ((any (λ s. s.id == j) sel ≡ false) × (find lead_id j leads ≡ some x))
  unfolding reassign_selected
  selected-find [] leads l j x h = inr (refl, h)
  selected-find (s ∷ ss) leads l j x h = reassign_each-find _ now target (s ∷ ss) leads _ j x h

  selected-find_absent :
      (sel leads : List Lead) (l : Ledger) (j : ℕ)
      → any (λ s. s.id == j) sel ≡ false
      → find lead_id j (reassign_selected now actor target sel leads l).0 ≡ find lead_id j leads
  unfolding reassign_selected
  selected-find_absent [] leads l j h = refl
  selected-find_absent (s ∷ ss) leads l j h =
      reassign_each-find_absent _ now target (s ∷ ss) leads _ j h

  selected-Distinct :
      (sel leads : List Lead) (l : Ledger)
      → Distinct lead_id leads
      → Distinct lead_id (reassign_selected now actor target sel leads l).0
  unfolding reassign_selected
  selected-Distinct [] leads l d = d
  selected-Distinct (s ∷ ss) leads l d = reassign_each-Distinct _ now target (s ∷ ss) leads _ d

  selected-counted :
      (sel leads : List Lead) (l : Ledger)
      → (reassign_selected now actor target sel leads l).2 ≡ length sel
  unfolding reassign_selected
  selected-counted [] leads l = refl
  selected-counted (s ∷ ss) leads l = refl

-- A lead of another member is not in the pipeline of this one.
not_open_of_assignee :
    (stages : List Stage) (source target : ℕ) (x : Lead)
    → source ≢ target
    → x.assignee_id ≡ some target
    → is_open_lead_of stages source x ≡ false
unfolding is_open_lead_of
not_open_of_assignee stages source target x ne h = ground arith

-- The query misses no open lead.
not_open_of_unselected :
    (stages : List Stage) (m j : ℕ) (leads : List Lead) (x : Lead)
    → any (λ s. s.id == j) (open_leads_of stages m leads) ≡ false
    → find lead_id j leads ≡ some x
    → is_open_lead_of stages m x ≡ false
unfolding open_leads_of
not_open_of_unselected stages m j leads x absent h =
    elim (Bool-cases (is_open_lead_of stages m x)) [
      | inl open_lead ↦
          let chosen = any-keep_of_find lead_id (is_open_lead_of stages m) j leads x h open_lead in
          absurd (
            false≢true (
              sym absent
              ∙ any-sort_by_age (λ s. s.id == j) (keep (is_open_lead_of stages m) leads)
              ∙ chosen))
      | inr closed ↦ closed
    ]

module _ (stages : List Stage) (now : ℕ) (actor : Option ℕ) (source target : ℕ) where
  -- After a transfer to another member, in a table whose primary keys are distinct, the source
  -- holds no open lead.
  pub reassign_open_leads-none_left :
      (leads : List Lead) (l : Ledger)
      → Distinct lead_id leads
      → source ≢ target
      → count_open_leads stages source
          (reassign_open_leads stages now actor source target leads l).0
        ≡ 0
  unfolding reassign_open_leads
  reassign_open_leads-none_left leads l d ne =
      let sel = open_leads_of stages source leads in
      count_open_leads-count stages source _
      ∙ count-eq-zero lead_id (is_open_lead_of stages source) _
          (selected-Distinct now actor target sel leads l d)
          λ j x h. elim (selected-find now actor target sel leads l j x h) [
            | inl moved ↦ not_open_of_assignee stages source target x ne moved
            | inr (absent, same) ↦ not_open_of_unselected stages source j leads x absent same
          ]

  -- A lead outside the source's open pipeline keeps its row, closed and deleted leads included,
  -- where primary keys are distinct.
  pub reassign_open_leads-others_kept :
      (leads : List Lead) (l : Ledger) (j : ℕ) (x : Lead)
      → Distinct lead_id leads
      → find lead_id j leads ≡ some x
      → is_open_lead_of stages source x ≡ false
      → find lead_id j (reassign_open_leads stages now actor source target leads l).0 ≡ some x
  unfolding reassign_open_leads open_leads_of
  reassign_open_leads-others_kept leads l j x d h closed =
      selected-find_absent now actor target (open_leads_of stages source leads) leads l j (
        any-sort_by_age (λ s. s.id == j) (keep (is_open_lead_of stages source) leads)
        ∙ any-keep_of_dropped lead_id (is_open_lead_of stages source) j leads x d h closed)
      ∙ h

  pub reassign_open_leads-counted :
      (leads : List Lead) (l : Ledger)
      → (reassign_open_leads stages now actor source target leads l).2
        ≡ count_open_leads stages source leads
  unfolding reassign_open_leads count_open_leads
  reassign_open_leads-counted leads l =
      selected-counted now actor target (open_leads_of stages source leads) leads l
