-- ===== src/Tests/History.antt =====
-- A changeset that gave one lead to member 2 and moved a second lead, which was deleted later.
use configurable_crm.Prelude.{
  inr, ℕ, ◌+◌, true, false, Option, none, some, [], ◌∷◌, ◌≡◌, refl, any, arith,
}
use configurable_crm.Prelude.Table.{find, update}
use configurable_crm.Errors.{Result, ok, raise, conflict, already_undone}
use configurable_crm.Timeline.{
  append_action, Lead, Ledger, Changeset, Action, ActionWriter, assignment_change, assignee_ids,
  sentence, bulk_edit,
}
use configurable_crm.Undo.Plan.{
  reference, Target, field, stage, assignee, rating, Reversal, target_eq, current_value, change_of,
  plan_for,
}
use configurable_crm.Undo.Conflicts.{last_given}
use configurable_crm.Undo.Preview.{
  Store, Caller, UndoReport, lead_key, is_conflicted, plan_of_lead, plans_of, actions_of,
  outcome_of, preview,
}
use configurable_crm.Undo.Service.{
  assert_editable, touched_keys, reverse_plans, apply_plans, revert_lead, undo,
}
use configurable_crm.Undo.Tracks.{Records}
use configurable_crm.Undo.Roundtrip.{revert_lead-plan_for}
use configurable_crm.Undo.Safety.{undo-unsafe_kept, undo-twice}

abbrev a_lead : ℕ → Option ℕ → Option ℕ → Lead
a_lead id owner deleted_at = record {
  id = id;
  identity_value = "lead";
  values = [];
  stage_id = some 1;
  assignee_id = owner;
  rating = none;
  lost_reason_id = none;
  last_action_at = none;
  created_at = 0;
  deleted_at = deleted_at;
}

abbrev an_action : ℕ → Option ℕ → Option ℕ → Action
an_action lead old new = record {
  lead_id = lead;
  changeset_id = 800;
  kind = assignment_change;
  actor_id = some 1;
  payload = assignee_ids old new;
  body = none;
  performed_at = 5;
}

abbrev ledger : Ledger
ledger = record {
  changesets =
      record {
        id = 800;
        source = bulk_edit;
        actor_id = some 1;
        summary = sentence "Assigned";
        lead_count = 2;
        is_undone = false;
        undone_at = none;
        undone_by_id = none;
        undo_of_id = none;
      }
      ∷ [];
  actions = an_action 50 none (some 2) ∷ an_action 51 none (some 2) ∷ [];
  endpoints = [];
  outbox = [];
  draw = λ n. 900 + n;
  drawn = 0;
}

abbrev store : Store
store = record {
  leads = a_lead 50 (some 2) none ∷ a_lead 51 (some 2) (some 6) ∷ [];
  ledger = ledger;
  labels = [];
}

abbrev caller : Caller
caller = record {
  actor_id = some 1;
  grants = record { view = []; edit = []; import_ = []; export = []; is_admin = false };
  visible = [];
  sees_all = true;
}

abbrev changeset : Changeset
changeset = record {
  id = 800;
  source = bulk_edit;
  actor_id = some 1;
  summary = sentence "Assigned";
  lead_count = 2;
  is_undone = false;
  undone_at = none;
  undone_by_id = none;
  undo_of_id = none;
}

abbrev no_report : UndoReport
no_report = record {
  undo_changeset_id = 0;
  undone_changeset_id = 0;
  leads_reverted = 0;
  leads_skipped = 0;
  skipped = [];
}

abbrev or_nothing : Result (Store × UndoReport) → Store × UndoReport
or_nothing (ok r) = r
or_nothing (raise e) = (store, no_report)

abbrev undone : Store × UndoReport
undone = or_nothing (undo caller 9 800 false store)

reverted :
    find lead_key 50 undone.0.leads
    ≡ some (record (a_lead 50 none none) { last_action_at = some 9 })
unfolding undo reverse_plans apply_plans preview plans_of plan_of_lead actions_of find update
    assert_editable touched_keys plan_for revert_lead outcome_of append_action
reverted = refl

others_same :
    (t : Target)
    → target_eq assignee t ≡ false
    → current_value (a_lead 50 (some 2) none) t ≡ current_value (a_lead 50 none none) t
unfolding current_value
others_same (field k) h = refl
others_same stage h = refl
others_same rating h = refl
others_same assignee h = absurd (ground arith)

recorded :
    Records [] (a_lead 50 none none) (an_action 50 none (some 2) ∷ []) (a_lead 50 (some 2) none)
unfolding change_of current_value
recorded = (_, (a_lead 50 (some 2) none), refl, refl, refl, others_same, λ t. refl)

revert_lead-plan_for_example :
    let plan = plan_for (a_lead 50 (some 2) none) (an_action 50 none (some 2) ∷ []) [] in
    (any (λ (r : Reversal). r.conflicted) plan ≡ false)
    × ((w : ActionWriter) (now : ℕ) (l : Ledger) (t : Target)
        → current_value (revert_lead w now plan (a_lead 50 (some 2) none) l).0 t
          ≡ current_value (a_lead 50 none none) t)
revert_lead-plan_for_example =
    revert_lead-plan_for [] (a_lead 50 none none) (a_lead 50 (some 2) none)
      (an_action 50 none (some 2) ∷ []) recorded

-- Member 3 has the first lead now, which the changeset gave to member 2.
abbrev moved_on : Store
moved_on = record store { leads = a_lead 50 (some 3) none ∷ a_lead 51 (some 2) none ∷ [] }

abbrev skipped_one : Store × UndoReport
skipped_one = or_nothing (undo caller 9 800 true moved_on)

undo-unsafe_kept_example :
    (find lead_key 50 skipped_one.0.leads ≡ some (a_lead 50 (some 3) none))
    × (true ≡ false → any is_conflicted (preview caller changeset moved_on) ≡ false)
unfolding undo reverse_plans preview plans_of plan_of_lead actions_of find update assert_editable
    touched_keys plan_for outcome_of append_action last_given apply_plans revert_lead
undo-unsafe_kept_example =
    undo-unsafe_kept caller 9 800 true moved_on skipped_one.0 skipped_one.1 changeset 50
      (a_lead 50 (some 3) none) refl refl refl
      (inr (inr (assignee, reference 2, refl, λ e. ground (arith, e))))

-- The other lead goes back.
other_reverted :
    find lead_key 51 skipped_one.0.leads
    ≡ some (record (a_lead 51 none none) { last_action_at = some 9 })
unfolding undo reverse_plans apply_plans preview plans_of plan_of_lead actions_of find update
    assert_editable touched_keys plan_for revert_lead outcome_of append_action
other_reverted = refl

undo-twice_example : undo caller 10 800 true undone.0 ≡ raise (conflict already_undone)
unfolding undo preview plans_of plan_of_lead actions_of find assert_editable touched_keys plan_for
    outcome_of
undo-twice_example = undo-twice caller caller 9 10 800 false true store undone.0 undone.1 refl
