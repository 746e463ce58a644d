-- ===== src/Members/Deactivation.antt =====
-- What a deactivation leaves: no open lead, no licence, no reports.
use configurable_crm.Prelude.{
  ℕ, false, Option, none, some, List, map, ◌≡◌, ◌≢◌, inl, inr, refl, sym, ap, ◌∙◌, arith, ◌==◌,
  Option-cases, Bool-cases,
}
use configurable_crm.Prelude.Table.{find, update, find-update, find-map, find-key, Distinct}
use configurable_crm.Errors.{ok}
use configurable_crm.LeadOwnership.Defs.{count_open_leads}
use configurable_crm.LeadOwnership.Transfer.{
  lead_id, reassign_open_leads-none_left, reassign_open_leads-counted,
}
use configurable_crm.Members.Defs.{
  Workspace, Membership, member_id, inactive, get, hand_over, deactivate, manager_of, retire,
  reparent, reparent_reports, close_membership,
}
use configurable_crm.Members.Seats.{deactivate-eq-ok, hand_over-members, reparent-id}
use configurable_crm.Members.Reporting.{IsOrganised, manager_of-update, manager_of-reparent}
use configurable_crm.Members.Hierarchy.Grounded.{skip_level, IsGrounded-ne_self}

-- A hand-over that succeeds leaves the member no open lead, and counts what it moved.
hand_over-none_left :
    (now : ℕ) (m : Membership) (target by : Option ℕ) (s s1 : Workspace) (n : ℕ)
    → Distinct lead_id s.leads
    → hand_over now m target by s ≡ ok (s1, n)
    → (count_open_leads s1.stages m.id s1.leads ≡ 0) × (n ≡ count_open_leads s.stages m.id s.leads)
unfolding hand_over get
hand_over-none_left now m none by s s1 n d h = ground arith
hand_over-none_left now m (some t) by s s1 n d h =
    elim (Bool-cases (count_open_leads s.stages m.id s.leads == 0)) [
      | inl idle ↦ ground arith
      | inr busy ↦ elim (Option-cases (find member_id t s.members)) [
        | inl absent ↦ absurd (ground arith)
        | inr (to, here) ↦
            let ne : m.id ≢ to.id = λ e. ground (arith, e) in
            ground (
              arith,
              reassign_open_leads-none_left s.stages now by m.id to.id s.leads s.ledger d ne,
              reassign_open_leads-counted s.stages now by m.id to.id s.leads s.ledger,
            )
      ]
    ]

-- The member's row after a successful deactivation.
retired_row :
    (i : ℕ) (m : Membership) (by : Option ℕ) (s : Workspace)
    → find member_id i s.members ≡ some m
    → find member_id i (close_membership i m by s).members ≡ some (retire (reparent m m))
unfolding reparent_reports
retired_row i m by s here = ground (
  arith,
  find-update member_id i i retire (map (reparent m) s.members) (λ _ e. e),
  find-map member_id i (reparent m) s.members (reparent-id m),
)

-- The reports have moved up.
no_reports :
    (d : Membership) (ms : List Membership) (i j : ℕ)
    → find member_id d.id ms ≡ some d
    → IsOrganised ms
    → manager_of (update member_id i retire (reparent_reports d ms)) j ≢ some d.id
unfolding skip_level
no_reports d ms i j here o e = absurd (
    ground (
      arith,
      manager_of-update (reparent_reports d ms) i j retire (λ _. refl) (λ _. refl),
      manager_of-reparent d ms j here,
      IsGrounded-ne_self (manager_of ms) d.id o.grounded,
    ))

-- A successful deactivation, in an organised workspace whose leads have distinct keys: the member
-- keeps no open lead, and the number returned is that of the open leads before; their row is
-- inactive, unlicensed and unavailable; and nobody reports to them any more.
pub deactivate-leaves_nothing :
    (now i : ℕ) (target by : Option ℕ) (s t : Workspace) (n : ℕ)
    → Distinct lead_id s.leads
    → IsOrganised s.members
    → deactivate now i target by s ≡ ok (t, n)
    → (count_open_leads t.stages i t.leads ≡ 0)
      × (n ≡ count_open_leads s.stages i s.leads)
      × ((x : Membership) × (find member_id i t.members ≡ some x)
          × (x.is_active ≡ false)
          × (x.has_license ≡ false)
          × (x.availability ≡ inactive))
      × ((j : ℕ) → manager_of t.members j ≢ some i)
deactivate-leaves_nothing now i target by s t n d o h =
    let (m, s1, here, handed, e) = deactivate-eq-ok now i target by s t n h in
    let (same, _) = hand_over-members now m target by s s1 n handed in
    let key = find-key member_id i s.members m here in
    let (none_left, counted) = hand_over-none_left now m target by s s1 n d handed in
    let there : find member_id i s1.members ≡ some m = rw same here in
    let quiet : (j : ℕ)
        → manager_of t.members j ≡ some i
        → manager_of (update member_id i retire (reparent_reports m s.members)) j ≡ some m.id =
      λ j h.
        ap (λ ms. manager_of (update member_id i retire (reparent_reports m ms)) j) (sym same)
        ∙ ap (λ (w : Workspace). manager_of w.members j) (sym e)
        ∙ h
        ∙ ap some (sym key) in
    (
      rw e (rw (← key) none_left),
      rw (← key) counted,
      (retire (reparent m m), rw e (retired_row i m by s1 there), refl, refl, refl),
      λ j h. no_reports m s.members i j (rw key here) o (quiet j h),
    )
