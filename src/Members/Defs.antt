-- ===== src/Members/Defs.antt =====
-- The state of one workspace that the member service reads and writes, and the operations of
-- `MemberService` (api/app/services/members.py) with the seat check of `update_workspace`
-- (api/app/routers/workspaces.py). An operation that raises leaves the state as it was: the
-- request does not commit.
use configurable_crm.Prelude.{
  ℕ, ◌+◌, String, Bool, true, false, not, Option, none, some, List, [], ◌∷◌, ◌++◌, map, ◌==◌, ltb,
  leb, length, count, contains, if◌then◌else◌,
}
use configurable_crm.Prelude.Table.{find, update}
use configurable_crm.Errors.{
  Code, not_found, conflict, forbidden, unprocessable, Result, ok, raise, raise_if, ◌>>=◌, ◌>>◌,
}
use configurable_crm.Pipeline.Rows.{Stage}
use configurable_crm.Timeline.{Lead, Ledger}
use configurable_crm.LeadOwnership.Defs.{count_open_leads, reassign_open_leads}
use configurable_crm.Members.Hierarchy.{walk}

pub data AvailabilityStatus : Type 0 where
  working on_leave inactive : AvailabilityStatus

pub record Membership : Type 0 where
  pub id : ℕ
  pub user_id : ℕ
  pub template_id : ℕ
  pub manager_id : Option ℕ
  pub is_active : Bool
  pub has_license : Bool
  pub availability : AvailabilityStatus

pub record AvailabilityLog : Type 0 where
  pub membership_id : ℕ
  pub status : AvailabilityStatus
  pub note : Option String
  pub changed_by_id : Option ℕ

pub record Workspace : Type 0 where
  pub seat_limit : ℕ
  pub members : List Membership
  pub template_ids : List ℕ
  pub log : List AvailabilityLog
  pub stages : List Stage
  pub leads : List Lead
  pub ledger : Ledger

abbrev pub member_id : Membership → ℕ
member_id m = m.id

-- `get`: 404 for an identifier that this workspace does not have.
unfoldable pub get : ℕ → Workspace → Result Membership
get i s = elim (find member_id i s.members) [ none ↦ raise not_found | some m ↦ ok m ]

unfoldable pub seats_used : List Membership → ℕ
seats_used members = count (λ m. m.has_license) members

unfoldable pub assert_seat_available : Workspace → Result (Unit {0})
unfolding seats_used
assert_seat_available s =
    raise_if (leb s.seat_limit (seats_used s.members)) (conflict Code.seat_limit_reached)

-- A row is changed, and the rest of the state kept.
abbrev pub set_member : ℕ → (Membership → Membership) → Workspace → Workspace
set_member i f s = record s { members = update member_id i f s.members }

abbrev pub set_license : Bool → Membership → Membership
set_license b m = record m { has_license = b }

abbrev pub set_manager_id : Option ℕ → Membership → Membership
set_manager_id p m = record m { manager_id = p }

unfoldable pub manager_of : List Membership → ℕ → Option ℕ
manager_of members i = elim (find member_id i members) [ none ↦ none | some m ↦ m.manager_id ]

abbrev pub user_is_member : ℕ → List Membership → Bool
user_is_member u [] = false
user_is_member u (m ∷ ms) = if m.user_id == u then true else user_is_member u ms

abbrev pub get_optional : Option ℕ → Workspace → Result (Unit {0})
get_optional none s = ok tt
get_optional (some i) s = do get i s; ok tt

-- A new row, with the columns' defaults.
abbrev pub new_member : ℕ → ℕ → ℕ → Option ℕ → Bool → Membership
new_member id user template manager grant_license = record {
  id = id;
  user_id = user;
  template_id = template;
  manager_id = manager;
  is_active = true;
  has_license = grant_license;
  availability = working;
}

-- `invite`; `id` is the key that the database gives the new row.
unfoldable pub invite : ℕ → ℕ → ℕ → Option ℕ → Bool → Workspace → Result Workspace
unfolding get assert_seat_available
invite id user template manager grant_license s = do
  raise_if (not (contains s.template_ids template)) not_found
  raise_if (user_is_member user s.members) (conflict Code.member_exists)
  get_optional manager s
  if grant_license then assert_seat_available s else ok tt
  ok (record s { members = s.members ++ new_member id user template manager grant_license ∷ [] })

-- `_would_create_cycle`. The fuel is enough for every table (Members.Reporting), so the last case is
-- never reached.
unfoldable pub would_create_cycle : List Membership → ℕ → ℕ → Bool
unfolding walk manager_of
would_create_cycle members member proposed =
    elim (walk (manager_of members) member (length members + 2) (some proposed) []) [
      | some b ↦ b
      | none ↦ false
    ]

-- The checks of `set_manager` for a manager that is named.
unfoldable pub check_manager : ℕ → Option ℕ → Workspace → Result (Unit {0})
unfolding get would_create_cycle
check_manager member none s = ok tt
check_manager member (some p) s = do
  raise_if (p == member) (unprocessable Code.invalid_manager)
  get p s
  raise_if (would_create_cycle s.members member p) (unprocessable Code.manager_cycle)

unfoldable pub set_manager : ℕ → Option ℕ → Workspace → Result Workspace
unfolding get check_manager
set_manager member manager s = do
  get member s
  check_manager member manager s
  ok (set_member member (set_manager_id manager) s)

unfoldable pub set_template : ℕ → ℕ → Workspace → Result Workspace
unfolding get
set_template member template s = do
  get member s
  raise_if (not (contains s.template_ids template)) not_found
  ok (set_member member (λ m. record m { template_id = template }) s)

unfoldable pub assign_license : ℕ → Workspace → Result Workspace
unfolding get assert_seat_available
assign_license member s = do
  m ← get member s
  if m.has_license
      then ok s
      else (do assert_seat_available s; ok (set_member member (set_license true) s))

unfoldable pub revoke_license : ℕ → Workspace → Result Workspace
unfolding get
revoke_license member s = do get member s; ok (set_member member (set_license false) s)

-- The `seat_limit` of `update_workspace`.
unfoldable pub set_seat_limit : ℕ → Workspace → Result Workspace
unfolding seats_used
set_seat_limit limit s = do
  raise_if (ltb limit (seats_used s.members)) (forbidden Code.seat_limit_below_usage)
  ok (record s { seat_limit = limit })

abbrev pub log_row : ℕ → AvailabilityStatus → Option String → Option ℕ → AvailabilityLog
log_row m status reason by = record {
  membership_id = m;
  status = status;
  note = reason;
  changed_by_id = by;
}

unfoldable pub set_availability :
    ℕ → AvailabilityStatus → Option String → Option ℕ → Workspace → Result Workspace
unfolding get
set_availability member status reason by s = do
  get member s
  let s' = set_member member (λ m. record m { availability = status }) s
  ok (record s' { log = s.log ++ log_row member status reason by ∷ [] })

-- The transfer inside `deactivate`: its guards, and the leads and the ledger after it.
unfoldable pub hand_over : ℕ → Membership → Option ℕ → Option ℕ → Workspace → Result (Workspace × ℕ)
unfolding get
hand_over now m target by s =
    let n = count_open_leads s.stages m.id s.leads in
    if n == 0 then ok (s, 0) else elim target [
      | none ↦ raise (conflict Code.reassignment_required)
      | some t ↦ do
        to ← get t s
        raise_if (to.id == m.id) (unprocessable Code.invalid_reassignment_target)
        raise_if (not to.is_active) (unprocessable Code.invalid_reassignment_target)
        let (leads, ledger, moved) = reassign_open_leads s.stages now by m.id to.id s.leads s.ledger
        ok (record s { leads = leads; ledger = ledger }, moved)
    ]

abbrev pub reparent : Membership → Membership → Membership
reparent departing m =
    if (elim m.manager_id [ none ↦ false | some p ↦ p == departing.id ])
    then set_manager_id departing.manager_id m
    else m

-- `_reparent_reports`
unfoldable pub reparent_reports : Membership → List Membership → List Membership
reparent_reports departing members = map (reparent departing) members

abbrev pub retire : Membership → Membership
retire m = record m { is_active = false; has_license = false; availability = inactive }

-- The writes at the end of `deactivate`: the reports move up, and the member is retired and logged.
abbrev pub close_membership : ℕ → Membership → Option ℕ → Workspace → Workspace
close_membership member m by s = record s {
  members = update member_id member retire (reparent_reports m s.members);
  log = s.log ++ log_row member inactive (some "Membership deactivated") by ∷ [];
}

unfoldable pub deactivate : ℕ → ℕ → Option ℕ → Option ℕ → Workspace → Result (Workspace × ℕ)
unfolding get hand_over reparent_reports
deactivate now member target by s = do
  m ← get member s
  (s1, transferred) ← hand_over now m target by s
  ok (close_membership member m by s1, transferred)

abbrev pub reinstate : Membership → Membership
reinstate m = record m { is_active = true; has_license = true; availability = working }

unfoldable pub reactivate : ℕ → Option ℕ → Workspace → Result Workspace
unfolding get assert_seat_available
reactivate member by s = do
  m ← get member s
  if m.is_active then ok s else (do
    assert_seat_available s
    ok (record s {
      members = update member_id member reinstate s.members;
      log = s.log ++ log_row member working (some "Membership reactivated") by ∷ [];
    }))

-- A request to the member service, with what the request and the clock bring.
pub data Request : Type 0 where
  inviting : ℕ → ℕ → ℕ → Option ℕ → Bool → Request
  managing : ℕ → Option ℕ → Request
  templating : ℕ → ℕ → Request
  licensing revoking : ℕ → Request
  limiting : ℕ → Request
  switching : ℕ → AvailabilityStatus → Option String → Option ℕ → Request
  deactivating : ℕ → ℕ → Option ℕ → Option ℕ → Request
  reactivating : ℕ → Option ℕ → Request

unfoldable pub perform : Request → Workspace → Result Workspace
perform (inviting id user template manager grant) s = invite id user template manager grant s
perform (managing member manager) s = set_manager member manager s
perform (templating member template) s = set_template member template s
perform (licensing member) s = assign_license member s
perform (revoking member) s = revoke_license member s
perform (limiting limit) s = set_seat_limit limit s
perform (switching member status reason by) s = set_availability member status reason by s
perform (deactivating now member target by) s = do
  (s', _) ← deactivate now member target by s
  ok s'
perform (reactivating member by) s = reactivate member by s

-- A request that raises changes nothing, since its transaction is rolled back.
unfoldable pub serve : List Request → Workspace → Workspace
unfolding perform
serve [] s = s
serve (r ∷ rs) s = elim (perform r s) [ ok s' ↦ serve rs s' | raise e ↦ serve rs s ]
