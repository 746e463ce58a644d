-- ===== src/LeadOwnership/Defs.antt =====
-- api/app/services/lead_ownership.py: the open pipeline that a member holds, and its transfer.
use configurable_crm.Prelude.{
  ℕ, Bool, true, false, not, ◌&&◌, Option, none, some, List, [], ◌∷◌, map, ◌==◌, ltb, keep, length,
  contains, if◌then◌else◌,
}
use configurable_crm.Prelude.Table.{update}
use configurable_crm.Pipeline.Rows.{Stage, is_closed}
use configurable_crm.Timeline.{
  Lead, Ledger, ActionWriter, ChangesetSource, reassigned_on_deactivation, open_changeset,
  record_assignment_change,
}

-- `SELECT id FROM stages WHERE kind IN ('WON', 'LOST')`
unfoldable pub closed_stage_ids : List Stage → List ℕ
unfolding is_closed
closed_stage_ids stages = map (λ s. s.id) (keep (λ (s : Stage). is_closed s.kind) stages)

abbrev pub is_some_id : Option ℕ → ℕ → Bool
is_some_id none m = false
is_some_id (some i) m = i == m

abbrev pub is_none {ℓ} : {A : Type ℓ} → Option A → Bool
is_none none = true
is_none (some a) = false

-- The WHERE clause: assigned to the member, not deleted, and with no stage or an open one.
unfoldable pub is_open_lead_of : List Stage → ℕ → Lead → Bool
unfolding closed_stage_ids
is_open_lead_of stages m lead =
    is_some_id lead.assignee_id m
    && is_none lead.deleted_at
    && (elim lead.stage_id [ none ↦ true | some s ↦ not (contains (closed_stage_ids stages) s) ])

-- `ORDER BY created_at`
unfoldable pub insert_by_age : Lead → List Lead → List Lead
insert_by_age lead [] = lead ∷ []
insert_by_age lead (x ∷ xs) =
    if ltb x.created_at lead.created_at then x ∷ insert_by_age lead xs else lead ∷ x ∷ xs

unfoldable pub sort_by_age : List Lead → List Lead
unfolding insert_by_age
sort_by_age [] = []
sort_by_age (x ∷ xs) = insert_by_age x (sort_by_age xs)

unfoldable pub open_leads_of : List Stage → ℕ → List Lead → List Lead
unfolding is_open_lead_of sort_by_age
open_leads_of stages m leads = sort_by_age (keep (is_open_lead_of stages m) leads)

unfoldable pub count_open_leads : List Stage → ℕ → List Lead → ℕ
unfolding open_leads_of
count_open_leads stages m leads = length (open_leads_of stages m leads)

-- The body of the loop, on the lead's row and on what the writer records.
unfoldable pub reassign_lead : ActionWriter → ℕ → ℕ → Lead → Ledger → Lead × Ledger
unfolding record_assignment_change
reassign_lead w now target lead l =
    let (lead', l') = record_assignment_change w now lead lead.assignee_id (some target) l in
    (record lead' { assignee_id = some target }, l')

unfoldable pub reassign_each :
    ActionWriter → ℕ → ℕ → List Lead → List Lead → Ledger → List Lead × Ledger
unfolding reassign_lead
reassign_each w now target [] leads l = (leads, l)
reassign_each w now target (lead ∷ rest) leads l =
    let (lead', l') = reassign_lead w now target lead l in
    reassign_each w now target rest (update (λ x. x.id) lead.id (λ _. lead') leads) l'

-- The rest of `reassign_open_leads`, on the leads that its query returned: no changeset for none.
unfoldable pub reassign_selected :
    ℕ → Option ℕ → ℕ → List Lead → List Lead → Ledger → List Lead × Ledger × ℕ
unfolding reassign_each open_changeset
reassign_selected now actor target [] leads l = (leads, l, 0)
reassign_selected now actor target (lead ∷ rest) leads l =
    let n = length (lead ∷ rest) in
    let (w, l1) =
      open_changeset actor ChangesetSource.distribution (reassigned_on_deactivation n) n l in
    let (leads', l2) = reassign_each w now target (lead ∷ rest) leads l1 in (leads', l2, n)

-- `DatabaseLeadOwnership.reassign_open_leads`: the leads, the ledger and the number moved.
unfoldable pub reassign_open_leads :
    List Stage → ℕ → Option ℕ → ℕ → ℕ → List Lead → Ledger → List Lead × Ledger × ℕ
unfolding open_leads_of reassign_selected
reassign_open_leads stages now actor source target leads l =
    reassign_selected now actor target (open_leads_of stages source leads) leads l
