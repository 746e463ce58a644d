-- ===== src/Tests/Batches.antt =====
-- A batch over two leads, and a new lead that the rules give to a member.
use configurable_crm.Prelude.{
  ◌⊎◌, ℕ, ◌≤◌, Bool, map, true, false, ◌&&◌, none, some, List, [], ◌∷◌, ◌++◌, ◌≡◌, refl, arith, any,
  contains, length, All, sort_by,
}
use configurable_crm.Prelude.Table.{find, update}
use configurable_crm.Json.{text}
use configurable_crm.Errors.{Result, ok, raise, ok_inj}
use configurable_crm.Filters.Dsl.{FilterNode}
use configurable_crm.Timeline.{Lead, Ledger, Action, ActionWriter, Changeset, append_action}
use configurable_crm.Undo.Plan.{Target, Reversal, current_value, plan_for}
use configurable_crm.Undo.Preview.{can_see, lead_key}
use configurable_crm.Undo.Service.{revert_lead}
use configurable_crm.Leads.Values.{validate_update}
use configurable_crm.Leads.Undone.{NamesKeys}
use configurable_crm.Assignment.Rows.{fixed}
use configurable_crm.Tests.Dealing.{no_config}
use configurable_crm.Leads.Merge.{payload_of, Database, Edit, is_live}
use configurable_crm.Leads.Bulk.{set_of, bulk_update}
use configurable_crm.Leads.Batch.{about}
use configurable_crm.Leads.Reversible.{bulk_update-one_changeset, bulk_update-undone}
use configurable_crm.Leads.Create.{Rules, NewLead}
use configurable_crm.Leads.Identities.{create, perform, perform-IsUnique}
use configurable_crm.Leads.Identity.{IsUnique}
use configurable_crm.Tests.Edits.{a_lead, schema, registry, show, database, caller, edit}

abbrev other_lead : Lead
other_lead = record a_lead { id = 51; identity_value = "333"; assignee_id = some 2 }

abbrev third_lead : Lead
third_lead = record a_lead { id = 52; identity_value = "444" }

abbrev two : Database
two = record database { leads = a_lead ∷ other_lead ∷ third_lead ∷ [] }

-- A stage and a member for both, and no value: the identity may stand once.
abbrev batch : Edit
batch = record edit { values = []; unset = "city" ∷ [] }

abbrev selected : List ℕ
selected = 51 ∷ 50 ∷ 51 ∷ []

abbrev or_nothing : Result (ℕ × List ℕ × Database) → ℕ × List ℕ × Database
or_nothing (ok done) = done
or_nothing (raise e) = (0, [], two)

abbrev done : ℕ × List ℕ × Database
done = or_nothing (bulk_update registry show schema caller batch 9 selected two)

runs : bulk_update registry show schema caller batch 9 selected two ≡ ok done
unfolding bulk_update append_action find update
runs = refl

edits_both : done.1 ≡ 50 ∷ 51 ∷ []
unfolding bulk_update append_action find update
edits_both = refl

named_batch : NamesKeys registry schema batch
unfolding payload_of validate_update
named_batch out h = rw (← ok_inj h) (refl, tt)

bulk_update-one_changeset_example :
    (length selected ≤ 500)
    × ((i : ℕ)
        → ((contains selected i ≡ true)
            × ((l : Lead) × (find lead_key i two.leads ≡ some l)
                × ((is_live l && can_see caller l) ≡ true)))
          ⊎ ((contains selected i ≡ false)
              × (find lead_key i done.2.leads ≡ find lead_key i two.leads)))
    × ((row : Changeset) × (done.2.ledger.changesets ≡ two.ledger.changesets ++ row ∷ [])
        × (row.id ≡ done.0)
        × (row.lead_count ≡ length (set_of selected)))
    × ((actions : List Action) × (done.2.ledger.actions ≡ two.ledger.actions ++ actions)
        × All
            (λ (a : Action). (contains selected a.lead_id ≡ true) × (a.changeset_id ≡ done.0))
            actions)
unfolding bulk_update append_action find update
bulk_update-one_changeset_example =
    bulk_update-one_changeset [] registry show schema caller batch named_batch 9 selected done.1 two
      done.2 done.0 (refl, (refl, (refl, tt))) refl

bulk_update-undone_example :
    (actions : List Action) × (done.2.ledger.actions ≡ two.ledger.actions ++ actions)
    × (lead : Lead) × (find lead_key 51 two.leads ≡ some lead)
    × (row : Lead) × (find lead_key 51 done.2.leads ≡ some row)
    × (any (λ (r : Reversal). r.conflicted) (plan_for row (about 51 actions) []) ≡ false)
    × ((w : ActionWriter) (at : ℕ) (l : Ledger) (t : Target)
        → current_value (revert_lead w at (plan_for row (about 51 actions) []) row l).0 t
          ≡ current_value lead t)
unfolding bulk_update append_action find update
bulk_update-undone_example =
    bulk_update-undone [] registry show schema caller batch named_batch 9 selected done.1 two done.2
      done.0 (refl, (refl, (refl, tt))) refl 51 refl

abbrev to_anyone : Rules
to_anyone = record {
  rules =
      record {
        id = 20;
        name = "All";
        priority = 0;
        conditions = none;
        strategy = fixed;
        config = record no_config { membership_id = some 2 };
        skip_unavailable = true;
        is_active = true;
      }
      ∷ [];
  groups = [];
  group_members = [];
  cursors = [];
}

abbrev new_lead : NewLead
new_lead = record {
  values = ("phone", some (text "222")) ∷ [];
  stage_id = none;
  assignee_id = none;
  rating = none;
  apply_assignment_rules = true;
}

abbrev always : FilterNode → Lead → Bool
always n l = true

abbrev or_before : Result (Rules × Database) → Rules × Database
or_before (ok s) = s
or_before (raise e) = (to_anyone, database)

abbrev created : Rules × Database
created =
    or_before (perform registry show always schema caller 9 (create new_lead) (to_anyone, database))

perform-IsUnique_example : IsUnique created.1.leads
unfolding perform find append_action sort_by
perform-IsUnique_example =
    perform-IsUnique registry show always schema caller 9 (create new_lead) (to_anyone, database)
      created refl (λ s. ground arith)

-- The rule gave the new lead to the member.
gives : map (λ (l : Lead). l.assignee_id) created.1.leads ≡ none ∷ some 2 ∷ []
unfolding perform find append_action sort_by
gives = refl
