-- ===== src/Routing/Groups.antt =====
-- `SalesGroupService` (api/app/services/routing.py). A new row's key is a parameter.
use configurable_crm.Prelude.{
  ℕ, String, Bool, true, false, not, ◌&&◌, Option, none, some, List, [], ◌∷◌, ◌++◌, ◌==◌, ltb, leb,
  keep, any, contains, map, str_eq, sort_by, if◌then◌else◌,
}
use configurable_crm.Prelude.Table.{find, update}
use configurable_crm.Errors.{
  group_not_found, duplicate_group, duplicate_member, invalid_weight, unknown_member, Result, ok,
  raise, raise_if, api_error, conflict, unprocessable, ◌>>=◌, ◌>>◌,
}
use configurable_crm.Members.Defs.{Membership, member_id}
use configurable_crm.Assignment.Rows.{SalesGroup, SalesGroupMember}
use configurable_crm.Assignment.Engine.{max_weight, weight_or_one}
use configurable_crm.Routing.Rules.{Lowering, or_old}

pub record GroupStore : Type 0 where
  pub groups : List SalesGroup
  pub group_members : List SalesGroupMember
  pub members : List Membership

abbrev pub group_key : SalesGroup → ℕ
group_key g = g.id

unfoldable pub get_group : ℕ → GroupStore → Result SalesGroup
get_group i t = elim (find group_key i t.groups) [
  | none ↦ raise (api_error 404 group_not_found)
  | some g ↦ ok g
]

abbrev or_none : Option String → Option String → Option String
or_none none old = old
or_none (some s) old = some s

module _ (lower : Lowering) where
  -- `_assert_name_free` of the groups.
  unfoldable pub assert_group_free : String → List SalesGroup → Result (Unit {0})
  assert_group_free name groups =
      raise_if
        (any (λ (g : SalesGroup). str_eq (lower.of_postgres g.name) (lower.of_python name)) groups)
        (conflict duplicate_group)

  unfoldable pub create_group : ℕ → String → Option String → GroupStore → Result GroupStore
  unfolding assert_group_free
  create_group id name description t = do
    assert_group_free name t.groups
    let row : SalesGroup = record {
      id = id;
      name = name;
      description = description;
      is_archived = false;
    }
    ok (record t { groups = t.groups ++ row ∷ [] })

  unfoldable pub check_group_rename :
      Option String → SalesGroup → List SalesGroup → Result (Unit {0})
  unfolding assert_group_free
  check_group_rename none g groups = ok tt
  check_group_rename (some name) g groups =
      if str_eq name g.name then ok tt else assert_group_free name groups

  unfoldable pub update_group :
      ℕ → Option String → Option String → Option Bool → GroupStore → Result GroupStore
  unfolding get_group check_group_rename
  update_group i name description is_archived t = do
    g ← get_group i t
    check_group_rename name g t.groups
    ok (record t {
      groups =
          update group_key i
            (λ (x : SalesGroup). record x {
              name = or_old name x.name;
              description = or_none description x.description;
              is_archived = or_old is_archived x.is_archived;
            })
            t.groups;
    })

unfoldable pub archive_group : ℕ → GroupStore → Result GroupStore
unfolding get_group
archive_group i t = do
  get_group i t
  ok (record t {
    groups = update group_key i (λ (x : SalesGroup). record x { is_archived = true }) t.groups;
  })

-- `members`, by member.
unfoldable pub members_of : ℕ → GroupStore → Result (List SalesGroupMember)
unfolding get_group sort_by
members_of i t = do
  get_group i t
  ok (
      sort_by (λ (a : SalesGroupMember) (b : SalesGroupMember). ltb a.membership_id b.membership_id)
        (keep (λ (x : SalesGroupMember). x.group_id == i) t.group_members))

-- The loop of `set_members`: `seen` holds the members of the rows before.
unfoldable pub clean_rows : List ℕ → List (ℕ × Option ℕ) → Result (List (ℕ × ℕ))
clean_rows seen [] = ok []
clean_rows seen ((m, w) ∷ rows) = do
  raise_if (contains seen m) (unprocessable duplicate_member)
  let weight = weight_or_one w
  raise_if (not (leb 1 weight && leb weight max_weight)) (unprocessable invalid_weight)
  more ← clean_rows (m ∷ seen) rows
  ok ((m, weight) ∷ more)

abbrev is_missing {ℓ} : {A : Type ℓ} → Option A → Bool
is_missing none = true
is_missing (some a) = false

-- `if missing: raise …`
unfoldable pub check_known : List Membership → List (ℕ × ℕ) → Result (Unit {0})
check_known members cleaned =
    raise_if (any (λ (p : ℕ × ℕ). is_missing (find member_id p.0 members)) cleaned)
      (unprocessable unknown_member)

abbrev pub member_row : ℕ → ℕ × ℕ → SalesGroupMember
member_row g (m, w) = record { group_id = g; membership_id = m; weight = w }

unfoldable pub set_members : ℕ → List (ℕ × Option ℕ) → GroupStore → Result GroupStore
unfolding get_group clean_rows check_known
set_members g rows t = do
  get_group g t
  cleaned ← clean_rows [] rows
  check_known t.members cleaned
  ok (record t {
    group_members =
        keep (λ (x : SalesGroupMember). not (x.group_id == g)) t.group_members
        ++ map (member_row g) cleaned;
  })
