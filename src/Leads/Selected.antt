-- ===== src/Leads/Selected.antt =====
-- What a bulk edit (api/app/services/leads.py) selects, and the guards that it passes.
use configurable_crm.Prelude.{
  ℕ, ◌≤◌, String, true, false, not, ◌&&◌, List, [], ◌∷◌, ◌≡◌, refl, sym, ◌∙◌, ap, arith, any,
  contains, length, map, All, ◌==◌, ==_iff, Bool-cases, inl, inr, ltb,
}
use configurable_crm.Prelude.Covered.{KeysAmong}
use configurable_crm.Json.{Json}
use configurable_crm.Errors.{
  raise_if-passes, ok, raise_if, >>=-eq-ok, ok_inj, unprocessable, api_error, no_leads_selected,
  bulk_limit_exceeded, leads_not_found, integrity_error,
}
use configurable_crm.Timeline.{Lead, Action, ActionWriter, open_changeset, bulk_edit}
use configurable_crm.Undo.Preview.{Caller, can_see, lead_key}
use configurable_crm.Leads.Values.{Registry}
use configurable_crm.Leads.Merge.{Database, Schema, Edit, is_live}
use configurable_crm.Leads.Bulk.{
  set_of, found_leads, bulk_summary, is_empty, max_bulk_leads, apply_each, bulk_update,
  has_duplicate,
}
use configurable_crm.Leads.Batch.{is_lead, IsBatch}

pub contains-set_of :
    (i : ℕ) (ids : List ℕ) → contains ids i ≡ true → contains (set_of ids) i ≡ true
unfolding set_of
contains-set_of i [] h = h
contains-set_of i (j ∷ ids) h = ground (arith, h, contains-set_of i ids)

module _ (by : Caller) (ids : List ℕ) where
  pub found_leads-KeysAmong :
      (leads : List Lead) → KeysAmong lead_key (set_of ids) (found_leads by ids leads)
  unfolding found_leads
  found_leads-KeysAmong [] = tt
  found_leads-KeysAmong (l ∷ leads) =
      elim (Bool-cases (contains ids l.id && (is_live l && can_see by l))) [
        | inl e ↦ rw e (contains-set_of l.id ids (ground (arith, e)), found_leads-KeysAmong leads)
        | inr e ↦ rw e (found_leads-KeysAmong leads)
      ]

  pub found_leads-absent :
      (i : ℕ) (leads : List Lead)
      → contains ids i ≡ false
      → any (is_lead i) (found_leads by ids leads) ≡ false
  unfolding found_leads
  found_leads-absent i [] e = refl
  found_leads-absent i (l ∷ leads) e = elim (Bool-cases (l.id == i)) [
    | inl here ↦
        let dropped : contains ids l.id ≡ false = rw ((==_iff l.id i).0 here) e in
        rw dropped (found_leads-absent i leads e)
    | inr other ↦ ground (arith, other, found_leads-absent i leads e)
  ]

pub batch-among :
    (by : Caller) (ids : List ℕ) (leads : List Lead) (w : ActionWriter) (c : ℕ)
    → w.changeset_id ≡ c
    → (xs : List Action) → All (IsBatch w (found_leads by ids leads)) xs
    → All (λ (a : Action). (contains ids a.lead_id ≡ true) × (a.changeset_id ≡ c)) xs
batch-among by ids leads w c is [] h = tt
batch-among by ids leads w c is (x ∷ xs) ((here, stamp), h) =
    let selected : contains ids x.lead_id ≡ true = elim (Bool-cases (contains ids x.lead_id)) [
      | inl e ↦ e
      | inr e ↦ absurd (ground (arith, here, found_leads-absent by ids x.lead_id leads e))
    ] in
    ((selected, stamp ∙ is), batch-among by ids leads w c is xs h)

-- A property of all leads of a list, at the one with a key.
pub All-at {κ} :
    (P : Lead → Type κ) (i : ℕ) (leads : List Lead)
    → All P leads
    → any (is_lead i) leads ≡ true
    → (l : Lead) × (l.id ≡ i) × P l
All-at P i [] h e = absurd (ground (arith, e))
All-at P i (l ∷ leads) (h, all) e = elim (Bool-cases (l.id == i)) [
  | inl here ↦ (l, (==_iff l.id i).0 here, h)
  | inr other ↦ All-at P i leads all (ground (arith, other, e))
]

module _ (registry : Registry) (show : Json → String) (schema : Schema) (by : Caller)
    (edit : Edit) where
  -- What a successful batch passed: its guards, and the loop.
  pub bulk_update-parts :
      (now : ℕ) (ids edited : List ℕ) (db after : Database) (c : ℕ)
      → bulk_update registry show schema by edit now ids db ≡ ok (c, edited, after)
      → let leads = found_leads by ids db.leads in
        let (w, opened) =
          open_changeset by.actor_id bulk_edit
            (bulk_summary schema.fields edit (length leads))
            (length leads)
            db.ledger in
        (length ids ≤ max_bulk_leads)
        × (length leads ≡ length (set_of ids))
        × (apply_each registry show schema by edit
              (record db { ledger = opened })
              w
              now
              leads
              (record db { ledger = opened })
            ≡ ok after)
        × (c ≡ w.changeset_id)
        × (edited ≡ map (λ (l : Lead). l.id) leads)
        × (has_duplicate after.leads ≡ false)
  unfolding bulk_update
  bulk_update-parts now ids edited db after c h =
      let leads = found_leads by ids db.leads in
      let (w, opened) =
        open_changeset by.actor_id bulk_edit (bulk_summary schema.fields edit (length leads))
          (length leads) db.ledger in
      let started = record db { ledger = opened } in
      let (u1, g1, h1) =
        >>=-eq-ok (raise_if (is_empty ids) (unprocessable no_leads_selected)) (λ _. _) h in
      let (u2, g2, h2) =
        >>=-eq-ok (raise_if (ltb max_bulk_leads (length ids)) (unprocessable bulk_limit_exceeded))
          (λ _. _) h1 in
      let (u3, g3, h3) =
        >>=-eq-ok
          (raise_if (not (length leads == length (set_of ids))) (api_error 404 leads_not_found))
          (λ _. _) h2 in
      let (out, run, h4) =
        >>=-eq-ok (apply_each registry show schema by edit started w now leads started) (λ _. _)
          h3 in
      let (u5, g5, e) =
        >>=-eq-ok (raise_if (has_duplicate out.leads) (api_error 500 integrity_error)) (λ _. _)
          h4 in
      let small =
        raise_if-passes (ltb max_bulk_leads (length ids)) (unprocessable bulk_limit_exceeded) u2
          g2 in
      let all =
        raise_if-passes (not (length leads == length (set_of ids))) (api_error 404 leads_not_found)
          u3 g3 in
      let parts = ok_inj e in
      (
        ground (arith, small),
        ground (arith, all),
        run ∙ ap (λ (t : ℕ × List ℕ × Database). ok t.2) parts,
        sym (ap (λ (t : ℕ × List ℕ × Database). t.0) parts),
        sym (ap (λ (t : ℕ × List ℕ × Database). t.1) parts),
        ap (λ (t : ℕ × List ℕ × Database). has_duplicate t.2.leads) (sym parts)
            ∙ raise_if-passes (has_duplicate out.leads) (api_error 500 integrity_error) u5 g5,
      )
