-- ===== src/Leads/Batch.antt =====
-- The loop of `bulk_update` (api/app/services/leads.py), lead by lead: what each one's actions record.
use mathlib.Core.List.{append_assoc, append-nil}
use configurable_crm.Prelude.{
  ℕ, String, Bool, true, false, none, some, List, [], ◌∷◌, ◌++◌, ◌≡◌, refl, sym, ◌∙◌, ap, arith,
  any, keep, All, All-append, ◌==◌, ==_iff, ==_refl, Bool-cases, inl, inr,
}
use configurable_crm.Prelude.Table.{find, update, find-update, Distinct}
use configurable_crm.Json.{Json}
use configurable_crm.Errors.{ok, >>=-eq-ok, ok_inj}
use configurable_crm.Timeline.{Lead, Action, ActionWriter}
use configurable_crm.Undo.Tracks.{Records}
use configurable_crm.Undo.Preview.{Caller, lead_key}
use configurable_crm.Leads.Values.{Registry}
use configurable_crm.Leads.Merge.{Database, Schema, Edit}
use configurable_crm.Leads.Update.{apply_update}
use configurable_crm.Leads.Written.{IsOf}
use configurable_crm.Leads.Undone.{NamesKeys, apply_update-Written}
use configurable_crm.Leads.Bulk.{apply_each}

-- The actions about a lead.
abbrev pub about : ℕ → List Action → List Action
about i xs = keep (λ (a : Action). a.lead_id == i) xs

abbrev pub is_lead : ℕ → Lead → Bool
is_lead i l = l.id == i

module _ (w : ActionWriter) where
  about-own :
      (i : ℕ) (xs ys : List Action) → All (IsOf w i) xs → about i ys ≡ [] → about i (xs ++ ys) ≡ xs
  about-own i [] ys h e = e
  about-own i (x ∷ xs) ys ((here, _), h) e = ground (arith, here, about-own i xs ys h e)

  about-other :
      (i j : ℕ) (xs ys : List Action)
      → (i == j) ≡ false
      → All (IsOf w i) xs
      → about j (xs ++ ys) ≡ about j ys
  about-other i j [] ys e h = refl
  about-other i j (x ∷ xs) ys e ((here, _), h) = ground (arith, e, here, about-other i j xs ys e h)

  -- An action of the batch: of this writer, about one of the leads.
  abbrev pub IsBatch : List Lead → Action → Type 0
  IsBatch leads a = (any (is_lead a.lead_id) leads ≡ true) × (a.changeset_id ≡ w.changeset_id)

  about-absent :
      (i : ℕ) (leads : List Lead) (xs : List Action)
      → any (is_lead i) leads ≡ false
      → All (IsBatch leads) xs
      → about i xs ≡ []
  about-absent i leads [] none_ h = refl
  about-absent i leads (x ∷ xs) none_ ((here, _), h) = elim (Bool-cases (x.lead_id == i)) [
    | inl e ↦
        let gone : any (is_lead x.lead_id) leads ≡ false = rw ((==_iff x.lead_id i).0 e) none_ in
        absurd (ground (arith, gone, here))
    | inr e ↦ rw e (about-absent i leads xs none_ h)
  ]

  IsBatch-own :
      (lead : Lead) (leads : List Lead) (xs : List Action)
      → All (IsOf w lead.id) xs
      → All (IsBatch (lead ∷ leads)) xs
  IsBatch-own lead leads [] h = tt
  IsBatch-own lead leads (x ∷ xs) ((here, stamp), h) =
      ((ground (arith, here), stamp), IsBatch-own lead leads xs h)

  IsBatch-more :
      (lead : Lead) (leads : List Lead) (xs : List Action)
      → All (IsBatch leads) xs
      → All (IsBatch (lead ∷ leads)) xs
  IsBatch-more lead leads [] h = tt
  IsBatch-more lead leads (x ∷ xs) ((here, stamp), h) =
      ((ground (arith, here), stamp), IsBatch-more lead leads xs h)

any-absent :
    (i : ℕ) (leads : List Lead) → find lead_key i leads ≡ none → any (is_lead i) leads ≡ false
unfolding find
any-absent i [] h = refl
any-absent i (l ∷ leads) h = ground (arith, h, any-absent i leads)

-- The rows are those that a lookup in the table finds.
abbrev pub AllFound : List Lead → List Lead → Type 0
AllFound table rows = All (λ (l : Lead). find lead_key l.id table ≡ some l) rows

pub AllFound-update :
    (i : ℕ) (new : Lead) (table rows : List Lead)
    → new.id ≡ i
    → find lead_key i rows ≡ none
    → AllFound table rows
    → AllFound (update lead_key i (λ _. new) table) rows
unfolding find
AllFound-update i new table [] k absent h = tt
AllFound-update i new table (l ∷ rows) k absent (here, h) = (
  ground (arith, absent, here, find-update lead_key i l.id (λ _. new) table (λ _ _. k)),
  AllFound-update i new table rows k (ground (arith, absent)) h,
)

module _ (labels : List (String × String)) where
  -- The lead was edited: its row in the new table, and what the actions about it record.
  abbrev pub IsEdited : List Lead → List Action → Lead → Type 0
  IsEdited table actions lead =
      (edited : Lead) × (find lead_key lead.id table ≡ some edited)
      × Records labels lead (about lead.id actions) edited

  module _ (w : ActionWriter) where
    IsEdited-more :
        (i : ℕ) (table : List Lead) (leads : List Lead) (ys zs : List Action)
        → find lead_key i leads ≡ none
        → All (IsOf w i) ys
        → All (IsEdited table zs) leads
        → All (IsEdited table (ys ++ zs)) leads
    unfolding find
    IsEdited-more i table [] ys zs absent own h = tt
    IsEdited-more i table (l ∷ leads) ys zs absent own ((edited, here, records), h) = (
      (edited, here, rw (about-other w i l.id ys zs (ground (arith, absent)) own) records),
      IsEdited-more i table leads ys zs (ground (arith, absent)) own h,
    )

  module _ (registry : Registry) (show : Json → String) (schema : Schema) (by : Caller)
      (edit : Edit) (named : NamesKeys registry schema edit) (w : ActionWriter) (now : ℕ) where
    -- What a batch over some leads does.
    abbrev pub Edits : List Lead → Database → Database → Type 0
    Edits leads db after =
        (xs : List Action) × (after.ledger.actions ≡ db.ledger.actions ++ xs)
        × All (IsBatch w leads) xs
        × (after.ledger.changesets ≡ db.ledger.changesets)
        × ((j : ℕ)
            → any (is_lead j) leads ≡ false
            → find lead_key j after.leads ≡ find lead_key j db.leads)
        × All (IsEdited after.leads xs) leads

    pub apply_each-Edits :
        (stored : Database) (leads : List Lead) (db after : Database)
        → apply_each registry show schema by edit stored w now leads db ≡ ok after
        → Distinct lead_key leads
        → AllFound db.leads leads
        → Edits leads db after
    unfolding apply_each
    apply_each-Edits stored [] db after h d f =
        rw (← ok_inj h) ([], sym (append-nil db.ledger.actions), tt, refl, (λ j e. refl), tt)
    apply_each-Edits stored (lead ∷ leads) db after h (fresh, d) (here, f) =
        let (out, run, rest) =
          >>=-eq-ok (apply_update registry show schema by edit stored w now lead db.ledger) (λ _. _)
            h in
        let (ys, grown, records, own, kept, sets) =
          apply_update-Written labels registry show schema by edit named stored w now lead db.ledger
            out run in
        let (zs, more, batch, same, others, edits) =
          apply_each-Edits stored leads
            (record db { leads = update lead_key lead.id (λ _. out.0) db.leads; ledger = out.1 })
            after rest d (AllFound-update lead.id out.0 db.leads leads kept fresh f) in
        let table = update lead_key lead.id (λ _. out.0) db.leads in
        let absent = any-absent lead.id leads fresh in
        (
          ys ++ zs,
          more ∙ ap (λ xs. xs ++ zs) grown ∙ append_assoc db.ledger.actions ys zs,
          All-append (IsBatch w (lead ∷ leads)) ys zs (IsBatch-own w lead leads ys own)
              (IsBatch-more w lead leads zs batch),
          same ∙ sets,
          (λ j e.
              others j (ground (arith, e))
              ∙ ground
                  (arith, e, find-update lead_key lead.id j (λ _. out.0) db.leads (λ _ _. kept))),
          (
            (
              out.0,
              others lead.id absent
                  ∙ ground (
                    arith,
                    here,
                    ==_refl lead.id,
                    find-update lead_key lead.id lead.id (λ _. out.0) db.leads (λ _ _. kept),
                  ),
              rw (about-own w lead.id ys zs own (about-absent w lead.id leads zs absent batch))
                  records,
            ),
            IsEdited-more w lead.id after.leads leads ys zs fresh own edits,
          ),
        )
