-- ===== src/Leads/Reversible.antt =====
-- `bulk_update` (api/app/services/leads.py) as a whole: which leads it edits, and its undo.
use configurable_crm.Prelude.{
  ◌⊎◌, inl, inr, Bool-cases, ℕ, ◌≤◌, String, true, false, ◌&&◌, some, List, [], ◌∷◌, ◌++◌, ◌≡◌, sym,
  arith, any, contains, length, All, All-keep, All-both,
}
use configurable_crm.Prelude.Table.{find, Distinct}
use configurable_crm.Prelude.Found.{keep-Distinct, AreFound-keep}
use configurable_crm.Prelude.Covered.{any_of_KeysAmong}
use configurable_crm.Json.{Json}
use configurable_crm.Errors.{ok}
use configurable_crm.Timeline.{
  Lead, Ledger, Action, Changeset, ActionWriter, open_changeset, bulk_edit,
}
use configurable_crm.Undo.Plan.{Target, Reversal, current_value, plan_for}
use configurable_crm.Undo.Preview.{Caller, can_see, lead_key}
use configurable_crm.Undo.Service.{revert_lead}
use configurable_crm.Undo.Roundtrip.{revert_lead-plan_for}
use configurable_crm.Leads.Values.{Registry}
use configurable_crm.Leads.Merge.{Database, Schema, Edit, is_live}
use configurable_crm.Leads.Undone.{NamesKeys}
use configurable_crm.Leads.Bulk.{set_of, found_leads, bulk_summary, bulk_update}
use configurable_crm.Leads.Batch.{about, is_lead, IsEdited, Edits, apply_each-Edits}
use configurable_crm.Leads.Selected.{
  contains-set_of, found_leads-KeysAmong, found_leads-absent, batch-among, All-at,
  bulk_update-parts,
}

module _ (labels : List (String × String)) (registry : Registry) (show : Json → String)
    (schema : Schema) (by : Caller) (edit : Edit) (named : NamesKeys registry schema edit) where
  -- Each selected identifier is found, and what the batch did to the leads that were found.
  bulk_update-Edits :
      (now : ℕ) (ids edited : List ℕ) (db after : Database) (c : ℕ)
      → Distinct lead_key db.leads
      → bulk_update registry show schema by edit now ids db ≡ ok (c, edited, after)
      → let leads = found_leads by ids db.leads in
        let (w, opened) =
          open_changeset by.actor_id bulk_edit
            (bulk_summary schema.fields edit (length leads))
            (length leads)
            db.ledger in
        ((i : ℕ) → contains ids i ≡ true → any (is_lead i) leads ≡ true)
        × Edits labels registry show schema by edit named w now leads
            (record db { ledger = opened })
            after
  unfolding found_leads open_changeset
  bulk_update-Edits now ids edited db after c d h =
      let (_, all, run, _, _, _) =
        bulk_update-parts registry show schema by edit now ids edited db after c h in
      let leads = found_leads by ids db.leads in
      let q = λ (l : Lead). contains ids l.id && (is_live l && can_see by l) in
      let distinct = keep-Distinct lead_key q db.leads d in
      (
        (λ i e.
            any_of_KeysAmong lead_key (set_of ids) leads i distinct
              (found_leads-KeysAmong by ids db.leads) all (contains-set_of i ids e)),
        apply_each-Edits labels registry show schema by edit named _ now _ leads _ after run
            distinct (AreFound-keep lead_key q db.leads d),
      )

  -- If a bulk edit succeeds, in a table whose leads have distinct keys, then it selected at most 500
  -- identifiers, each of a live lead that the caller may see; it opened one changeset, of as many
  -- leads as there are different identifiers; each new action carries that changeset and is about a
  -- selected lead; and every other lead keeps its row.
  pub bulk_update-one_changeset :
      (now : ℕ) (ids edited : List ℕ) (db after : Database) (c : ℕ)
      → Distinct lead_key db.leads
      → bulk_update registry show schema by edit now ids db ≡ ok (c, edited, after)
      → (length ids ≤ 500)
        × ((i : ℕ)
            → ((contains ids i ≡ true)
                × ((l : Lead) × (find lead_key i db.leads ≡ some l)
                    × ((is_live l && can_see by l) ≡ true)))
              ⊎ ((contains ids i ≡ false)
                  × (find lead_key i after.leads ≡ find lead_key i db.leads)))
        × ((row : Changeset) × (after.ledger.changesets ≡ db.ledger.changesets ++ row ∷ [])
            × (row.id ≡ c)
            × (row.lead_count ≡ length (set_of ids)))
        × ((actions : List Action) × (after.ledger.actions ≡ db.ledger.actions ++ actions)
            × All (λ (a : Action). (contains ids a.lead_id ≡ true) × (a.changeset_id ≡ c)) actions)
  unfolding open_changeset found_leads
  bulk_update-one_changeset now ids edited db after c d h =
      let (small, all, _, is, _, _) =
        bulk_update-parts registry show schema by edit now ids edited db after c h in
      let (present, (xs, grown, batch, sets, others, edits)) =
        bulk_update-Edits now ids edited db after c d h in
      let leads = found_leads by ids db.leads in
      let (w, _) =
        open_changeset by.actor_id bulk_edit (bulk_summary schema.fields edit (length leads))
          (length leads) db.ledger in
      let q = λ (l : Lead). contains ids l.id && (is_live l && can_see by l) in
      (
        small,
        (λ i. elim (Bool-cases (contains ids i)) [
          | inl e ↦
              let (l, at, (here, seen)) =
                All-at (λ (l : Lead). (find lead_key l.id db.leads ≡ some l) × (q l ≡ true)) i leads
                  (All-both _ _ leads (AreFound-keep lead_key q db.leads d) (All-keep q db.leads))
                  (present i e) in
              inl (e, (l, rw (← at) here, ground (arith, seen)))
          | inr e ↦ inr (e, others i (found_leads-absent by ids i db.leads e))
        ]),
        (_, sets, sym is, all),
        (xs, grown, batch-among by ids db.leads w c (sym is) xs batch),
      )

  -- If a bulk edit succeeds, in a table whose leads have distinct keys, and writes no value under
  -- the empty key, then each selected lead was edited, and the actions of the batch about it, undone,
  -- have no conflict and leave every field, the stage, the assignee and the rating as they were.
  pub bulk_update-undone :
      (now : ℕ) (ids edited : List ℕ) (db after : Database) (c : ℕ)
      → Distinct lead_key db.leads
      → bulk_update registry show schema by edit now ids db ≡ ok (c, edited, after)
      → (i : ℕ) → contains ids i ≡ true
      → (actions : List Action) × (after.ledger.actions ≡ db.ledger.actions ++ actions)
        × (lead : Lead) × (find lead_key i db.leads ≡ some lead)
        × (row : Lead) × (find lead_key i after.leads ≡ some row)
        × (any (λ (r : Reversal). r.conflicted) (plan_for row (about i actions) labels) ≡ false)
        × ((w : ActionWriter) (at : ℕ) (l : Ledger) (t : Target)
            → current_value (revert_lead w at (plan_for row (about i actions) labels) row l).0 t
              ≡ current_value lead t)
  unfolding open_changeset found_leads
  bulk_update-undone now ids edited db after c d h i e =
      let (present, (xs, grown, batch, sets, others, edits)) =
        bulk_update-Edits now ids edited db after c d h in
      let leads = found_leads by ids db.leads in
      let q = λ (l : Lead). contains ids l.id && (is_live l && can_see by l) in
      let (l, at, (here, (row, there, records))) =
        All-at
          (λ (l : Lead). (find lead_key l.id db.leads ≡ some l) × IsEdited labels after.leads xs l)
          i leads (All-both _ _ leads (AreFound-keep lead_key q db.leads d) edits) (present i e) in
      let (calm, restored) = revert_lead-plan_for labels l row (about l.id xs) records in
      rw (← at) (xs, grown, l, here, row, there, calm, restored)
