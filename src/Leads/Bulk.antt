-- ===== src/Leads/Bulk.antt =====
-- `LeadService.bulk_update` (api/app/services/leads.py): one edit of many leads under one changeset.
use configurable_crm.Prelude.{
  ℕ, String, Bool, true, false, not, ◌&&◌, ◌||◌, any, str_eq, Option, none, some, List, [], ◌∷◌,
  ◌++◌, ◌==◌, map, ltb, keep, contains, length, sort_by, text_before, if◌then◌else◌,
}
use configurable_crm.Prelude.Table.{update}
use configurable_crm.Json.{Json}
use configurable_crm.Errors.{
  no_leads_selected, bulk_limit_exceeded, leads_not_found, integrity_error, Result, ok, raise_if,
  unprocessable, api_error, ◌>>=◌, ◌>>◌,
}
use configurable_crm.Timeline.{Lead, ActionWriter, Summary, bulk_edited, bulk_edit, open_changeset}
use configurable_crm.Undo.Preview.{Caller, can_see, lead_key}
use configurable_crm.Leads.Values.{LeadField, Registry}
use configurable_crm.Leads.Merge.{Database, Schema, Edit, is_live, label_in}
use configurable_crm.Leads.Update.{apply_update}

abbrev pub max_bulk_leads : ℕ
max_bulk_leads = 500

-- `set(ids)`: each identifier once.
unfoldable pub set_of : List ℕ → List ℕ
set_of [] = []
set_of (i ∷ ids) = let rest = set_of ids in if contains rest i then rest else i ∷ rest

abbrev pub is_empty {ℓ} : {A : Type ℓ} → List A → Bool
is_empty [] = true
is_empty (x ∷ xs) = false

-- The rows that the batch edits, as the query finds them.
unfoldable pub found_leads : Caller → List ℕ → List Lead → List Lead
found_leads by ids leads =
    keep (λ (l : Lead). contains ids l.id && (is_live l && can_see by l)) leads

-- The unique index `leads_identity_uq` (api/app/models/lead.py): two live leads have one identity.
unfoldable pub has_duplicate : List Lead → Bool
has_duplicate [] = false
has_duplicate (l ∷ leads) =
    (is_live l && any (λ (x : Lead). str_eq x.identity_value l.identity_value && is_live x) leads)
    || has_duplicate leads

abbrev named_if : Option ℕ → String → List String
named_if none label = []
named_if (some i) label = label ∷ []

-- `_bulk_summary`, from the labels of what changes and the number of leads.
unfoldable pub bulk_summary : List LeadField → Edit → ℕ → Summary
unfolding sort_by
bulk_summary fields edit count =
    bulk_edited
      (map (λ (v : String × Json). label_in fields v.0) edit.values
        ++ map (label_in fields) (sort_by text_before edit.unset)
        ++ named_if edit.stage_id "Stage"
        ++ named_if edit.assignee_id "Assignee"
        ++ named_if edit.rating "Rating")
      count

module _ (registry : Registry) (show : Json → String) (schema : Schema) (by : Caller)
    (edit : Edit) where
  -- The loop over the leads. Nothing is flushed in it, and the session has `autoflush=False`: the
  -- queries of each edit read the tables as they were `stored` before the loop.
  unfoldable pub apply_each : Database → ActionWriter → ℕ → List Lead → Database → Result Database
  unfolding apply_update
  apply_each stored w now [] db = ok db
  apply_each stored w now (lead ∷ leads) db = do
    (lead', l) ← apply_update registry show schema by edit stored w now lead db.ledger
    apply_each stored w now leads
        (record db { leads = update lead_key lead.id (λ _. lead') db.leads; ledger = l })

  -- The identifiers of the leads that were edited, and the changeset's, with the new state. The last
  -- flush writes the rows, where the index fails it with an `IntegrityError`, which nobody translates.
  unfoldable pub bulk_update : ℕ → List ℕ → Database → Result (ℕ × List ℕ × Database)
  unfolding found_leads set_of bulk_summary apply_each open_changeset has_duplicate
  bulk_update now lead_ids db = do
    raise_if (is_empty lead_ids) (unprocessable no_leads_selected)
    raise_if (ltb max_bulk_leads (length lead_ids)) (unprocessable bulk_limit_exceeded)
    let leads = found_leads by lead_ids db.leads
    raise_if (not (length leads == length (set_of lead_ids))) (api_error 404 leads_not_found)
    let (w, opened) =
        open_changeset by.actor_id bulk_edit (bulk_summary schema.fields edit (length leads))
          (length leads) db.ledger
    after ← apply_each (record db { ledger = opened }) w now leads (record db { ledger = opened })
    raise_if (has_duplicate after.leads) (api_error 500 integrity_error)
    ok (w.changeset_id, map (λ (l : Lead). l.id) leads, after)
