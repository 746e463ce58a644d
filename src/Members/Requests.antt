-- ===== src/Members/Requests.antt =====
-- The reporting lines after any request to the member service.
use configurable_crm.Prelude.{
  ℕ, true, false, Option, none, List, ◌≡◌, ◌⊎◌, inl, inr, refl, arith, Option-cases, Bool-cases,
}
use configurable_crm.Prelude.Table.{find, update}
use configurable_crm.Errors.{ok, >>=-eq-ok}
use configurable_crm.Members.Defs.{
  Workspace, Membership, member_id, get, set_license, reinstate, new_member, set_template,
  assign_license, revoke_license, set_seat_limit, set_availability, reactivate, deactivate, Request,
  inviting, managing, templating, licensing, revoking, limiting, switching, deactivating,
  reactivating, perform,
}
use configurable_crm.Members.Reporting.{IsOrganised, update-IsOrganised}
use configurable_crm.Members.Organised.{
  set_manager-IsOrganised, deactivate-IsOrganised, grown-IsOrganised, invite-eq-ok,
}

-- A row is changed by a function that keeps its key and its manager, or none is.
abbrev Touches : List Membership → List Membership → Type 0
Touches ms ns =
    (ns ≡ ms)
    ⊎ ((i : ℕ) × (f : Membership → Membership) × ((x : Membership) → (f x).id ≡ x.id)
        × ((x : Membership) → (f x).manager_id ≡ x.manager_id)
        × (ns ≡ update member_id i f ms))

Touches-IsOrganised : (ms ns : List Membership) → Touches ms ns → IsOrganised ms → IsOrganised ns
Touches-IsOrganised ms ns (inl e) o = rw e o
Touches-IsOrganised ms ns (inr (i, f, same, kept, e)) o =
    rw e (update-IsOrganised ms i f same kept o)

assign_license-Touches :
    (i : ℕ) (s t : Workspace) → assign_license i s ≡ ok t → Touches s.members t.members
unfolding assign_license get
assign_license-Touches i s t h = elim (Option-cases (find member_id i s.members)) [
  | inl absent ↦ absurd (ground arith)
  | inr (m, here) ↦ elim (Bool-cases m.has_license) [
    | inl held ↦ inl (ground arith)
    | inr free ↦ inr (i, set_license true, λ _. refl, λ _. refl, ground arith)
  ]
]

reactivate-Touches :
    (i : ℕ) (by : Option ℕ) (s t : Workspace)
    → reactivate i by s ≡ ok t
    → Touches s.members t.members
unfolding reactivate get
reactivate-Touches i by s t h = elim (Option-cases (find member_id i s.members)) [
  | inl absent ↦ absurd (ground arith)
  | inr (m, here) ↦ elim (Bool-cases m.is_active) [
    | inl working ↦ inl (ground arith)
    | inr retired ↦ inr (i, reinstate, λ _. refl, λ _. refl, ground arith)
  ]
]

-- An invitation brings a key that the table does not have; no other request brings a key.
abbrev pub IsFresh : Request → Workspace → Type 0
IsFresh (inviting id user template manager grant) s = find member_id id s.members ≡ none
IsFresh (managing i p) s = Unit
IsFresh (templating i p) s = Unit
IsFresh (licensing i) s = Unit
IsFresh (revoking i) s = Unit
IsFresh (limiting n) s = Unit
IsFresh (switching i a reason by) s = Unit
IsFresh (deactivating now i target by) s = Unit
IsFresh (reactivating i by) s = Unit

-- Every request that succeeds keeps all chains of managers finite and within the workspace, if they
-- were so before and an invitation brings a new key.
pub perform-IsOrganised :
    (r : Request) (s t : Workspace)
    → IsFresh r s
    → IsOrganised s.members
    → perform r s ≡ ok t
    → IsOrganised t.members
unfolding perform set_template revoke_license set_seat_limit set_availability get
perform-IsOrganised (inviting id user template manager grant) s t fresh o h =
    let (e, known) = invite-eq-ok id user template manager grant s t h in
    rw e (grown-IsOrganised s.members (new_member id user template manager grant) fresh known o)
perform-IsOrganised (managing i p) s t fresh o h = set_manager-IsOrganised i p s t o h
perform-IsOrganised (templating i p) s t fresh o h =
    Touches-IsOrganised s.members t.members
      (inr (i, (λ m. record m { template_id = p }), λ _. refl, λ _. refl, ground arith)) o
perform-IsOrganised (licensing i) s t fresh o h =
    Touches-IsOrganised s.members t.members (assign_license-Touches i s t h) o
perform-IsOrganised (revoking i) s t fresh o h =
    Touches-IsOrganised s.members t.members
      (inr (i, set_license false, λ _. refl, λ _. refl, ground arith)) o
perform-IsOrganised (limiting n) s t fresh o h =
    Touches-IsOrganised s.members t.members (inl (ground arith)) o
perform-IsOrganised (switching i a reason by) s t fresh o h =
    Touches-IsOrganised s.members t.members
      (inr (i, (λ m. record m { availability = a }), λ _. refl, λ _. refl, ground arith)) o
perform-IsOrganised (deactivating now i target by) s t fresh o h =
    let ((s', n), done, e) = >>=-eq-ok (deactivate now i target by s) (λ _. _) h in
    deactivate-IsOrganised now i target by s t n o (ground (arith, done, e))
perform-IsOrganised (reactivating i by) s t fresh o h =
    Touches-IsOrganised s.members t.members (reactivate-Touches i by s t h) o
