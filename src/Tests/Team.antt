-- ===== src/Tests/Team.antt =====
-- A small office: a manager, a member with two leads of which one is won, and their requests.
use configurable_crm.Prelude.{
  ℕ, All, count, ◌&&◌, ◌==◌, min, length, true, false, Option, none, some, List, [], ◌∷◌, ◌≡◌, ◌≢◌,
  ◌↔◌, refl, arith,
}
use configurable_crm.Prelude.Table.{find, Distinct}
use configurable_crm.Errors.{Result, ok, raise}
use configurable_crm.Pipeline.Rows.{Stage, StageKind}
use configurable_crm.Timeline.{Lead, Ledger, Action, Changeset}
use configurable_crm.LeadOwnership.Defs.{is_open_lead_of, count_open_leads, reassign_open_leads}
use configurable_crm.LeadOwnership.Transfer.{lead_id, reassign_open_leads-none_left}
use configurable_crm.LeadOwnership.Recorded.{IsHandOver, reassign_open_leads-recorded}
use configurable_crm.Members.Defs.{
  Workspace, Membership, AvailabilityStatus, member_id, seats_used, Request, invite, assign_license,
  inviting, licensing, limiting, perform, serve, deactivate, manager_of, would_create_cycle,
}
use configurable_crm.Members.Hierarchy.{climb}
use configurable_crm.Members.Seats.{WithinSeats, serve-WithinSeats}
use configurable_crm.Members.Reporting.{IsOrganised, would_create_cycle_iff}
use configurable_crm.Members.Requests.{perform-IsOrganised}
use configurable_crm.Members.Deactivation.{deactivate-leaves_nothing}

abbrev won_stage : Stage
won_stage = record {
  id = 9;
  kind = StageKind.won;
  label = "Won";
  color = "green";
  sort_order = 2;
  is_archived = false;
}

abbrev a_lead : ℕ → Option ℕ → ℕ → Lead
a_lead id stage assignee = record {
  id = id;
  identity_value = "lead";
  values = [];
  stage_id = stage;
  assignee_id = some assignee;
  rating = none;
  lost_reason_id = none;
  last_action_at = none;
  created_at = id;
  deleted_at = none;
}

abbrev office_leads : List Lead
office_leads = a_lead 50 none 2 ∷ a_lead 51 (some 9) 2 ∷ a_lead 52 none 1 ∷ []

abbrev no_ledger : Ledger
no_ledger = record {
  changesets = [];
  actions = [];
  endpoints = [];
  outbox = [];
  draw = λ n. n;
  drawn = 0;
}

abbrev empty_office : Workspace
empty_office = record {
  seat_limit = 2;
  members = [];
  template_ids = 7 ∷ [];
  log = [];
  stages = won_stage ∷ [];
  leads = office_leads;
  ledger = no_ledger;
}

abbrev or_empty : Result Workspace → Workspace
or_empty (ok s) = s
or_empty (raise e) = empty_office

-- The manager 1 is invited, then the member 2 who reports to them.
abbrev invite_manager : Request
invite_manager = inviting 1 101 7 none true

abbrev invite_member : Request
invite_member = inviting 2 102 7 (some 1) true

abbrev managed : Workspace
managed = or_empty (perform invite_manager empty_office)

abbrev office : Workspace
office = or_empty (perform invite_member managed)

abbrev member_two : Option Membership
member_two = find member_id 2 office.members

empty-IsOrganised : IsOrganised empty_office.members
unfolding climb manager_of find
empty-IsOrganised = record {
  grounded = λ i. (1, refl);
  referenced = λ i p h. absurd (ground arith);
}

managed-IsOrganised : IsOrganised managed.members
unfolding perform find invite
managed-IsOrganised =
    perform-IsOrganised invite_manager empty_office managed refl empty-IsOrganised refl

office-IsOrganised : IsOrganised office.members
unfolding perform find invite
office-IsOrganised = perform-IsOrganised invite_member managed office refl managed-IsOrganised refl

leads-Distinct : Distinct lead_id office_leads
unfolding find
leads-Distinct = (refl, (refl, (refl, tt)))

full_office :
    seats_used (serve (invite_manager ∷ invite_member ∷ licensing 1 ∷ []) empty_office).members ≡ 2
unfolding serve seats_used find invite assign_license
full_office = refl

reassign_open_leads-none_left_example :
    count_open_leads
      (won_stage ∷ [])
      2
      (reassign_open_leads (won_stage ∷ []) 100 (some 1) 2 1 office_leads no_ledger).0
    ≡ 0
reassign_open_leads-none_left_example =
    reassign_open_leads-none_left (won_stage ∷ []) 100 (some 1) 2 1 office_leads no_ledger
      leads-Distinct (λ e. absurd (ground (arith, e)))

reassign_open_leads-recorded_example :
    let r = reassign_open_leads (won_stage ∷ []) 100 (some 1) 2 1 office_leads no_ledger in
    let n = count_open_leads (won_stage ∷ []) 2 office_leads in
    (r.2 ≡ n)
    × ((rows : List Changeset) × (actions : List Action) × (r.1.changesets ≡ rows)
        × (r.1.actions ≡ actions)
        × (length rows ≡ min 1 n)
        × All
            (λ (row : Changeset).
              (row.lead_count ≡ n) × All (IsHandOver row.id 100 (some 1) 2 1) actions)
            rows
        × ((j : ℕ)
            → count (λ (a : Action). a.lead_id == j) actions
              ≡ count
                  (λ (x : Lead). x.id == j && is_open_lead_of (won_stage ∷ []) 2 x)
                  office_leads))
reassign_open_leads-recorded_example =
    reassign_open_leads-recorded (won_stage ∷ []) 100 (some 1) 2 1 office_leads no_ledger

serve-WithinSeats_example :
    WithinSeats
      (serve (invite_manager ∷ invite_member ∷ licensing 1 ∷ limiting 1 ∷ []) empty_office)
unfolding seats_used
serve-WithinSeats_example =
    serve-WithinSeats (invite_manager ∷ invite_member ∷ licensing 1 ∷ limiting 1 ∷ []) empty_office
      (omega arith)

perform-IsOrganised_example : IsOrganised office.members
unfolding perform find invite
perform-IsOrganised_example =
    perform-IsOrganised invite_member managed office refl managed-IsOrganised refl

-- The manager may not come to report to the member who reports to them.
would_create_cycle_iff_example :
    (would_create_cycle office.members 1 2 ≡ true)
    ↔ ((k : ℕ) × (climb (manager_of office.members) k 2 ≡ some 1))
would_create_cycle_iff_example = would_create_cycle_iff office.members 1 2

cycle_refused : would_create_cycle office.members 1 2 ≡ true
unfolding would_create_cycle perform find invite
cycle_refused = refl

abbrev alice : Membership
alice = record {
  id = 2;
  user_id = 102;
  template_id = 7;
  manager_id = some 1;
  is_active = true;
  has_license = true;
  availability = AvailabilityStatus.working;
}

abbrev or_empty_counted : Result (Workspace × ℕ) → Workspace
or_empty_counted (ok r) = r.0
or_empty_counted (raise e) = empty_office

abbrev after_leaving : Workspace
after_leaving = or_empty_counted (deactivate 100 2 (some 1) (some 1) office)

deactivate-leaves_nothing_example :
    (count_open_leads after_leaving.stages 2 after_leaving.leads ≡ 0)
    × (1 ≡ count_open_leads office.stages 2 office.leads)
    × ((x : Membership) × (find member_id 2 after_leaving.members ≡ some x)
        × (x.is_active ≡ false)
        × (x.has_license ≡ false)
        × (x.availability ≡ AvailabilityStatus.inactive))
    × ((j : ℕ) → manager_of after_leaving.members j ≢ some 2)
unfolding deactivate perform find invite reassign_open_leads count_open_leads
deactivate-leaves_nothing_example =
    deactivate-leaves_nothing 100 2 (some 1) (some 1) office after_leaving 1 leads-Distinct
      office-IsOrganised refl
