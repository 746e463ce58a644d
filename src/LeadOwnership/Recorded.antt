-- ===== src/LeadOwnership/Recorded.antt =====
-- What a transfer of the open pipeline (api/app/services/lead_ownership.py) records.
use mathlib.Core.List.{append-nil, append_assoc}
use configurable_crm.Prelude.{
  ℕ, Bool, Option, some, List, [], ◌∷◌, ◌==◌, keep, length, min, count, ◌≡◌, refl, sym, ◌∙◌, ap,
  arith, none, All, All-if, map, ◌&&◌, ◌++◌, ltb,
}
use configurable_crm.Prelude.Table.{update}
use configurable_crm.Pipeline.Rows.{Stage}
use configurable_crm.Timeline.{
  Lead, Ledger, Action, Changeset, ChangesetSource, ActionWriter, assignment_change, assignee_ids,
  append_action, publish_action, open_changeset, reassigned_on_deactivation,
}
use configurable_crm.LeadOwnership.Defs.{
  is_open_lead_of, insert_by_age, sort_by_age, open_leads_of, count_open_leads, reassign_lead,
  reassign_each, reassign_selected, reassign_open_leads,
}
use configurable_crm.LeadOwnership.Transfer.{lead_id, reassign_open_leads-counted}

-- An action that gives a lead of the source to the target.
abbrev pub IsHandOver : ℕ → ℕ → Option ℕ → ℕ → ℕ → Action → Type 0
IsHandOver changeset now actor source target a =
    (a.changeset_id ≡ changeset)
    × (a.kind ≡ assignment_change)
    × (a.actor_id ≡ actor)
    × (a.performed_at ≡ now)
    × (a.payload ≡ assignee_ids (some source) (some target))

module _ (w : ActionWriter) (now target : ℕ) where
  -- The action about a lead that goes from its assignee to the target.
  abbrev hand_over_of : Lead → Action
  hand_over_of s = record {
    lead_id = s.id;
    changeset_id = w.changeset_id;
    kind = assignment_change;
    actor_id = w.actor_id;
    payload = assignee_ids s.assignee_id (some target);
    body = none;
    performed_at = now;
  }

  -- One action for each lead of the loop.
  reassign_each-actions :
      (sel leads : List Lead) (l : Ledger)
      → (reassign_each w now target sel leads l).1.actions ≡ l.actions ++ map hand_over_of sel
  unfolding reassign_each reassign_lead append_action publish_action
  reassign_each-actions [] leads l = sym (append-nil l.actions)
  reassign_each-actions (s ∷ ss) leads l =
      let (s', l') = reassign_lead w now target s l in
      reassign_each-actions ss (update lead_id s.id (λ _. s') leads) l'
      ∙ append_assoc l.actions (hand_over_of s ∷ []) (map hand_over_of ss)

  hand_overs-AreHandOvers :
      (source : ℕ) (sel : List Lead)
      → All (λ (s : Lead). s.assignee_id ≡ some source) sel
      → All (IsHandOver w.changeset_id now w.actor_id source target) (map hand_over_of sel)
  hand_overs-AreHandOvers source [] all = tt
  hand_overs-AreHandOvers source (s ∷ ss) (h, all) = (
    (refl, refl, refl, refl, ap (λ m. assignee_ids m (some target)) h),
    hand_overs-AreHandOvers source ss all,
  )

  count-hand_overs :
      (j : ℕ) (sel : List Lead)
      → count (λ (a : Action). a.lead_id == j) (map hand_over_of sel)
        ≡ count (λ (s : Lead). s.id == j) sel
  count-hand_overs j [] = refl
  count-hand_overs j (s ∷ ss) = ground (arith, count-hand_overs j ss)

  reassign_each-changesets :
      (sel leads : List Lead) (l : Ledger)
      → (reassign_each w now target sel leads l).1.changesets ≡ l.changesets
  unfolding reassign_each reassign_lead append_action
  reassign_each-changesets [] leads l = refl
  reassign_each-changesets (s ∷ ss) leads l =
      let (s', l') = reassign_lead w now target s l in
      reassign_each-changesets ss (update lead_id s.id (λ _. s') leads) l'

selected-recorded :
    (now : ℕ) (actor : Option ℕ) (source target : ℕ) (sel leads : List Lead) (l : Ledger)
    → All (λ (s : Lead). s.assignee_id ≡ some source) sel
    → let r = reassign_selected now actor target sel leads l in
      (rows : List Changeset) × (actions : List Action) × (r.1.changesets ≡ l.changesets ++ rows)
      × (r.1.actions ≡ l.actions ++ actions)
      × (length rows ≡ min 1 (length sel))
      × All
          (λ (row : Changeset).
            (row.lead_count ≡ length sel) × All (IsHandOver row.id now actor source target) actions)
          rows
      × ((j : ℕ)
          → count (λ (a : Action). a.lead_id == j) actions ≡ count (λ (s : Lead). s.id == j) sel)
unfolding reassign_selected open_changeset
selected-recorded now actor source target [] leads l all =
    ([], [], sym (append-nil l.changesets), sym (append-nil l.actions), refl, tt, λ j. refl)
selected-recorded now actor source target (s ∷ ss) leads l all =
    let n = length (s ∷ ss) in
    let (w, l1) =
      open_changeset actor ChangesetSource.distribution (reassigned_on_deactivation n) n l in
    (
      _,
      map (hand_over_of w now target) (s ∷ ss),
      reassign_each-changesets w now target (s ∷ ss) leads l1,
      reassign_each-actions w now target (s ∷ ss) leads l1,
      omega arith,
      ((refl, hand_overs-AreHandOvers w now target source (s ∷ ss) all), tt),
      λ j. count-hand_overs w now target j (s ∷ ss),
    )

All-insert_by_age :
    (P : Lead → Type 0) (x : Lead) (xs : List Lead) → P x → All P xs → All P (insert_by_age x xs)
unfolding insert_by_age
All-insert_by_age P x [] h all = (h, tt)
All-insert_by_age P x (y ∷ ys) h (k, all) =
    All-if P (ltb y.created_at x.created_at) _ _ (λ _. (k, All-insert_by_age P x ys h all))
      (λ _. (h, (k, all)))

All-sort_by_age : (P : Lead → Type 0) (xs : List Lead) → All P xs → All P (sort_by_age xs)
unfolding sort_by_age
All-sort_by_age P [] all = tt
All-sort_by_age P (x ∷ xs) (h, all) =
    All-insert_by_age P x (sort_by_age xs) h (All-sort_by_age P xs all)

assigned_if_open :
    (stages : List Stage) (m : ℕ) (leads : List Lead)
    → All (λ (s : Lead). s.assignee_id ≡ some m) (keep (is_open_lead_of stages m) leads)
unfolding is_open_lead_of
assigned_if_open stages m [] = tt
assigned_if_open stages m (x ∷ xs) =
    All-if _ (is_open_lead_of stages m x) _ _
      (λ e. (ground (arith, e), assigned_if_open stages m xs)) (λ _. assigned_if_open stages m xs)

open_leads_of-assigned :
    (stages : List Stage) (m : ℕ) (leads : List Lead)
    → All (λ (s : Lead). s.assignee_id ≡ some m) (open_leads_of stages m leads)
unfolding open_leads_of
open_leads_of-assigned stages m leads = All-sort_by_age _ _ (assigned_if_open stages m leads)

count-insert_by_age :
    (p : Lead → Bool) (x : Lead) (xs : List Lead) → count p (insert_by_age x xs) ≡ count p (x ∷ xs)
unfolding insert_by_age
count-insert_by_age p x [] = refl
count-insert_by_age p x (y ∷ ys) = ground (arith, count-insert_by_age p x ys)

count-sort_by_age : (p : Lead → Bool) (xs : List Lead) → count p (sort_by_age xs) ≡ count p xs
unfolding sort_by_age
count-sort_by_age p [] = refl
count-sort_by_age p (x ∷ xs) =
    ground (arith, count-insert_by_age p x (sort_by_age xs), count-sort_by_age p xs)

count-keep : (p q : Lead → Bool) (xs : List Lead) → count p (keep q xs) ≡ count (λ x. p x && q x) xs
count-keep p q [] = refl
count-keep p q (x ∷ xs) = ground (arith, count-keep p q xs)

count-open_leads_of :
    (stages : List Stage) (m j : ℕ) (leads : List Lead)
    → count (λ (x : Lead). x.id == j) (open_leads_of stages m leads)
      ≡ count (λ (x : Lead). x.id == j && is_open_lead_of stages m x) leads
unfolding open_leads_of
count-open_leads_of stages m j leads = count-sort_by_age _ _ ∙ count-keep _ _ leads

module _ (stages : List Stage) (now : ℕ) (actor : Option ℕ) (source target : ℕ) where
  -- The number returned is the number of open leads before. The transfer appends one changeset, or none
  -- if there was no open lead, and actions that each give a lead from the source to the target under
  -- that changeset, by the actor: one for each row that is an open lead of the source, and no other.
  pub reassign_open_leads-recorded :
      (leads : List Lead) (l : Ledger)
      → let r = reassign_open_leads stages now actor source target leads l in
        let n = count_open_leads stages source leads in
        (r.2 ≡ n)
        × ((rows : List Changeset) × (actions : List Action) × (r.1.changesets
              ≡ l.changesets ++ rows)
            × (r.1.actions ≡ l.actions ++ actions)
            × (length rows ≡ min 1 n)
            × All
                (λ (row : Changeset).
                  (row.lead_count ≡ n) × All (IsHandOver row.id now actor source target) actions)
                rows
            × ((j : ℕ)
                → count (λ (a : Action). a.lead_id == j) actions
                  ≡ count (λ (x : Lead). x.id == j && is_open_lead_of stages source x) leads))
  unfolding reassign_open_leads count_open_leads
  reassign_open_leads-recorded leads l =
      let sel = open_leads_of stages source leads in
      let (rows, actions, sets, grown, size, each, counts) =
        selected-recorded now actor source target sel leads l
          (open_leads_of-assigned stages source leads) in
      (
        reassign_open_leads-counted stages now actor source target leads l,
        (
          rows,
          actions,
          sets,
          grown,
          size,
          each,
          λ j. counts j ∙ count-open_leads_of stages source j leads,
        ),
      )
