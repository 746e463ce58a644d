-- ===== src/Undo/Service.antt =====
-- `UndoService.undo` (api/app/services/undo.py). An error leaves the state as it was. The search vector of
-- a reverted lead is left out.
use configurable_crm.Prelude.{
  ℕ, ◌-◌, String, Bool, true, false, not, ◌&&◌, Option, none, some, List, [], ◌∷◌, ◌++◌, map, ltb,
  keep, any, has, length, sort_by, str_eq, get_key, if◌then◌else◌,
}
use configurable_crm.Prelude.Table.{find, update}
use configurable_crm.Json.{Json}
use configurable_crm.Errors.{
  already_undone, nothing_to_undo, undo_conflicts, Result, ok, raise, not_found, conflict, raise_if,
  ◌>>◌,
}
use configurable_crm.Permissions.Projection.{check_keys}
use configurable_crm.Timeline.{
  Lead, Ledger, Changeset, single_edit, bulk_edit, undid, ActionWriter, open_changeset, FieldDelta,
  record_field_changes, record_stage_change, record_assignment_change, record_rating_change,
}
use configurable_crm.Undo.Plan.{
  field, stage, assignee, rating, Value, stored, reference, stars, Reversal,
}
use configurable_crm.Undo.Preview.{
  LeadUndoPlan, Store, Caller, UndoReport, changeset_key, lead_key, preview, is_reversible,
  is_conflicted,
}

-- The keys of `touched`.
unfoldable pub reversal_keys : List Reversal → List String → List String
reversal_keys [] seen = seen
reversal_keys (r ∷ rest) seen =
    reversal_keys rest
      (elim r.target [ field k ↦ if has seen k then seen else seen ++ k ∷ [] | _ ↦ seen ])

unfoldable pub touched_keys : List LeadUndoPlan → List String → List String
unfolding reversal_keys
touched_keys [] seen = seen
touched_keys (p ∷ rest) seen =
    touched_keys rest (if is_reversible p then reversal_keys p.reversals seen else seen)

-- `_assert_editable`
unfoldable pub assert_editable : Caller → List LeadUndoPlan → Store → Result (Unit {0})
unfolding touched_keys sort_by
assert_editable by plans s =
    check_keys by.grants (touched_keys plans []) (map (λ (l : String × String). l.0) s.labels)

-- `values[key] = v` and `values.pop(key, None)`
unfoldable pub set_key : String → Json → List (String × Json) → List (String × Json)
set_key k v [] = (k, v) ∷ []
set_key k v ((j, w) ∷ rest) = if str_eq k j then (j, v) ∷ rest else (j, w) ∷ set_key k v rest

unfoldable pub pop_key : String → List (String × Json) → List (String × Json)
pop_key k values = keep (λ (v : String × Json). not (str_eq k v.0)) values

abbrev pub write_key : String → Value → List (String × Json) → List (String × Json)
write_key k (stored v) values = set_key k v values
write_key k _ values = pop_key k values

abbrev pub as_json : Value → Option Json
as_json (stored v) = some v
as_json _ = none

abbrev pub as_id : Value → Option ℕ
as_id (reference i) = some i
as_id _ = none

abbrev pub as_rating : Value → Option ℕ
as_rating (stars n) = some n
as_rating _ = none

-- The body of the loop over the reversals: the lead, the deltas collected, the ledger.
unfoldable pub apply_reversal :
    ActionWriter → ℕ → Reversal → Lead → List FieldDelta → Ledger → Lead × List FieldDelta × Ledger
unfolding record_stage_change record_assignment_change record_rating_change set_key pop_key
apply_reversal w now r lead deltas l = elim r.target [
  | stage ↦
      let to = as_id r.revert_to in
      let (lead', l') =
        record_stage_change w now (record lead { stage_id = to }) lead.stage_id to l in
      (lead', deltas, l')
  | assignee ↦
      let to = as_id r.revert_to in
      let (lead', l') =
        record_assignment_change w now (record lead { assignee_id = to }) lead.assignee_id to l in
      (lead', deltas, l')
  | rating ↦
      let to = as_rating r.revert_to in
      let (lead', l') = record_rating_change w now (record lead { rating = to }) lead.rating to l in
      (lead', deltas, l')
  | field key ↦
      let delta : FieldDelta = record {
        field_key = key;
        label = r.label;
        old = get_key key lead.values;
        new = as_json r.revert_to;
      } in
      (record lead { values = write_key key r.revert_to lead.values }, deltas ++ delta ∷ [], l)
]

unfoldable pub apply_reversals :
    ActionWriter
    → ℕ
    → List Reversal
    → Lead
    → List FieldDelta
    → Ledger
    → Lead × List FieldDelta × Ledger
unfolding apply_reversal
apply_reversals w now [] lead deltas l = (lead, deltas, l)
apply_reversals w now (r ∷ rest) lead deltas l =
    let (lead', deltas', l') = apply_reversal w now r lead deltas l in
    apply_reversals w now rest lead' deltas' l'

-- One plan: the reversals, and then the field changes in one call, which records none of none.
unfoldable pub revert_lead : ActionWriter → ℕ → List Reversal → Lead → Ledger → Lead × Ledger
unfolding apply_reversals record_field_changes
revert_lead w now reversals lead l =
    let (lead', deltas, l') = apply_reversals w now reversals lead [] l in
    record_field_changes w now lead' deltas l'

unfoldable pub apply_plans :
    ActionWriter → ℕ → List LeadUndoPlan → List Lead → Ledger → List Lead × Ledger
unfolding revert_lead
apply_plans w now [] leads l = (leads, l)
apply_plans w now (p ∷ rest) leads l = elim (find lead_key p.lead_id leads) [
  | none ↦ apply_plans w now rest leads l
  | some lead ↦
      let (lead', l') = revert_lead w now p.reversals lead l in
      apply_plans w now rest (update lead_key p.lead_id (λ _. lead') leads) l'
]

abbrev pub mark_undone : ℕ → Option ℕ → Changeset → Changeset
mark_undone now by c = record c { is_undone = true; undone_at = some now; undone_by_id = by }

abbrev pub mark_undo_of : ℕ → Changeset → Changeset
mark_undo_of i c = record c { undo_of_id = some i }

-- The writes of `undo`, for the plans that apply.
unfoldable pub reverse_plans :
    Caller → ℕ → Changeset → List LeadUndoPlan → List LeadUndoPlan → Store → Store × UndoReport
unfolding apply_plans open_changeset
reverse_plans by now changeset plans applicable s =
    let n = length applicable in
    let (w, l1) =
      open_changeset by.actor_id (if ltb 1 n then bulk_edit else single_edit)
        (undid changeset.summary) n s.ledger in
    let l2 = record l1 {
      changesets = update changeset_key w.changeset_id (mark_undo_of changeset.id) l1.changesets;
    } in
    let (leads, l3) = apply_plans w now applicable s.leads l2 in
    let l4 = record l3 {
      changesets = update changeset_key changeset.id (mark_undone now by.actor_id) l3.changesets;
    } in
    (
      record s { leads = leads; ledger = l4 },
      record {
        undo_changeset_id = w.changeset_id;
        undone_changeset_id = changeset.id;
        leads_reverted = n;
        leads_skipped = length plans - n;
        skipped = keep (λ p. not (is_reversible p)) plans;
      },
    )

abbrev pub is_nil {ℓ} : {A : Type ℓ} → List A → Bool
is_nil [] = true
is_nil (x ∷ xs) = false

-- `undo`
unfoldable pub undo : Caller → ℕ → ℕ → Bool → Store → Result (Store × UndoReport)
unfolding preview assert_editable reverse_plans
undo by now i skip_conflicts s = elim (find changeset_key i s.ledger.changesets) [
  | none ↦ raise not_found
  | some changeset ↦ do
    raise_if changeset.is_undone (conflict already_undone)
    let plans = preview by changeset s
    raise_if (is_nil plans) (conflict nothing_to_undo)
    raise_if (any is_conflicted plans && not skip_conflicts) (conflict undo_conflicts)
    assert_editable by plans s
    let applicable = keep is_reversible plans
    raise_if (is_nil applicable) (conflict nothing_to_undo)
    ok (reverse_plans by now changeset plans applicable s)
]
