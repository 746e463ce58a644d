-- ===== src/Members/Organised.antt =====
-- Every request to the member service keeps the reporting lines finite.
use mathlib.Core.Option
use configurable_crm.Prelude.{
  ℕ, zero, suc, Bool, false, Option, none, some, List, [], ◌∷◌, ◌++◌, ◌==◌, ◌≡◌, ◌≢◌, inl, inr,
  refl, sym, ◌∙◌, ap, arith, if◌then◌else◌, Bool-cases, Option-cases, ==_iff,
}
use configurable_crm.Prelude.Table.{find, update, find-map, find-append, find-key}
use configurable_crm.Errors.{ok}
use configurable_crm.Members.Hierarchy.{climb}
use configurable_crm.Members.Hierarchy.Grounded.{
  redirect-IsGrounded, skip_level, skip_level-IsGrounded, IsGrounded-eq,
}
use configurable_crm.Members.Defs.{
  Workspace, Membership, member_id, get, manager_of, set_manager_id, would_create_cycle,
  check_manager, set_manager, reparent, reparent_reports, retire, new_member, invite, deactivate,
}
use configurable_crm.Members.Seats.{
  set_manager-eq-ok, deactivate-eq-ok, hand_over-members, reparent-id,
}
use configurable_crm.Members.Reporting.{
  would_create_cycle_iff, manager_of-set_manager, manager_of-reparent, IsOrganised, Listed,
  Listed-update, update-IsOrganised,
}

check_manager-eq-ok :
    (i p : ℕ) (s : Workspace) (u : Unit {0})
    → check_manager i (some p) s ≡ ok u
    → (would_create_cycle s.members i p ≡ false) × Listed s.members p
unfolding check_manager get
check_manager-eq-ok i p s u h = elim (Option-cases (find member_id p s.members)) [
  | inl absent ↦ absurd (ground arith)
  | inr (x, here) ↦ (ground arith, (x, here))
]

module _ (i : ℕ) (p : Option ℕ) (s : Workspace) (m : Membership)
    (here : find member_id i s.members ≡ some m) (checked : check_manager i p s ≡ ok tt)
    (o : IsOrganised s.members) where
  abbrev old : ℕ → Option ℕ
  old = manager_of s.members

  abbrev new : ℕ → Option ℕ
  new = manager_of (update member_id i (set_manager_id p) s.members)

  elsewhere : (j : ℕ) → j ≢ i → new j ≡ old j
  elsewhere j ne = ground (arith, manager_of-set_manager s.members i j p m here)

  new_manager : (q : ℕ) → new i ≡ some q → check_manager i (some q) s ≡ ok tt
  new_manager q e = ground (arith, manager_of-set_manager s.members i i p m here, checked)

  clear : (q : ℕ) → new i ≡ some q → (j : ℕ) → climb old j q ≢ some i
  clear q e j up =
      let (no_cycle, _) = check_manager-eq-ok i q s tt (new_manager q e) in
      absurd (ground (arith, no_cycle, (would_create_cycle_iff s.members i q).1 (j, up)))

  changed_manager-IsOrganised : IsOrganised (update member_id i (set_manager_id p) s.members)
  changed_manager-IsOrganised = record {
    grounded = redirect-IsGrounded old new i elsewhere o.grounded clear;
    referenced = λ j q h. Listed-update s.members i q (set_manager_id p) (λ _. refl) (known j q h);
  }
    where
      known : (j q : ℕ) → new j ≡ some q → Listed s.members q
      known j q h = elim (Bool-cases (j == i)) [
        | inl e ↦
            let here = (==_iff j i).0 e in
            (check_manager-eq-ok i q s tt (new_manager q (sym (ap new here) ∙ h))).1
        | inr e ↦ o.referenced j q (sym (elsewhere j (λ t. ground (arith, e, t))) ∙ h)
      ]

pub set_manager-IsOrganised :
    (i : ℕ) (p : Option ℕ) (s t : Workspace)
    → IsOrganised s.members
    → set_manager i p s ≡ ok t
    → IsOrganised t.members
set_manager-IsOrganised i p s t o h =
    let (m, here, checked, e) = set_manager-eq-ok i p s t h in
    rw e (changed_manager-IsOrganised i p s m here checked o)

Listed-reparent :
    (d : Membership) (ms : List Membership) (q : ℕ) → Listed ms q → Listed (reparent_reports d ms) q
unfolding reparent_reports
Listed-reparent d ms q (x, here) = (
  reparent d x,
  find-map member_id q (reparent d) ms (reparent-id d) ∙ ap (Option.map (reparent d)) here,
)

-- A manager after the reports moved up was one before.
skip_level-eq-some :
    (f : ℕ → Option ℕ) (m x q : ℕ) → skip_level f m x ≡ some q → (i : ℕ) × (f i ≡ some q)
unfolding skip_level
skip_level-eq-some f m x q h = elim (Option-cases (f x)) [
  | inl top ↦ absurd (ground arith)
  | inr (y, up) ↦ elim (Bool-cases (y == m)) [
    | inl e ↦ (m, ground arith)
    | inr e ↦ (x, ground arith)
  ]
]

reparent-IsOrganised :
    (d : Membership) (ms : List Membership)
    → find member_id d.id ms ≡ some d
    → IsOrganised ms
    → IsOrganised (reparent_reports d ms)
reparent-IsOrganised d ms here o = record {
  grounded =
      IsGrounded-eq (skip_level (manager_of ms) d.id) (manager_of (reparent_reports d ms))
        (λ j. manager_of-reparent d ms j here)
        (skip_level-IsGrounded (manager_of ms) d.id o.grounded);
  referenced = λ j q h.
      let (i, up) =
        skip_level-eq-some (manager_of ms) d.id j q (sym (manager_of-reparent d ms j here) ∙ h) in
      Listed-reparent d ms q (o.referenced i q up);
}

pub deactivate-IsOrganised :
    (now i : ℕ) (target by : Option ℕ) (s t : Workspace) (n : ℕ)
    → IsOrganised s.members
    → deactivate now i target by s ≡ ok (t, n)
    → IsOrganised t.members
deactivate-IsOrganised now i target by s t n o h =
    let (m, s1, here, handed, e) = deactivate-eq-ok now i target by s t n h in
    let (same, _) = hand_over-members now m target by s s1 n handed in
    let at_key : find member_id m.id s.members ≡ some m =
      rw (find-key member_id i s.members m here) here in
    rw (e, same)
      (update-IsOrganised (reparent_reports m s.members) i retire (λ _. refl) (λ _. refl)
        (reparent-IsOrganised m s.members at_key o))

-- The new member of an invitation has an unused key, and a manager from the table or none.
module _ (ms : List Membership) (r : Membership) (fresh : find member_id r.id ms ≡ none)
    (manager_known : (p : ℕ) → r.manager_id ≡ some p → Listed ms p) (o : IsOrganised ms) where
  abbrev grown : List Membership
  grown = ms ++ r ∷ []

  manager_of-grown :
      (j : ℕ) → manager_of grown j ≡ (if r.id == j then r.manager_id else manager_of ms j)
  unfolding manager_of
  manager_of-grown j = ground (arith, find-append member_id j ms r, fresh)

  Listed-grown : (q : ℕ) → Listed ms q → Listed grown q
  Listed-grown q (x, here) = (x, ground (arith, find-append member_id q ms r))

  -- Nobody in the table reports to the newcomer, so no chain from the table meets them.
  climb-ne-newcomer : (j q : ℕ) → Listed ms q → climb (manager_of ms) j q ≢ some r.id
  unfolding climb
  climb-ne-newcomer zero q (x, here) e = ground (arith, e)
  climb-ne-newcomer (suc j) q l e = elim (Option-cases (manager_of ms q)) [
    | inl top ↦ ground arith
    | inr (p, up) ↦ climb-ne-newcomer j p (o.referenced q p up) (ground arith)
  ]

  pub grown-IsOrganised : IsOrganised grown
  grown-IsOrganised = record {
    grounded =
        redirect-IsGrounded (manager_of ms) (manager_of grown) r.id
          (λ j ne. ground (arith, manager_of-grown j, ne)) o.grounded
          (λ p e j.
            climb-ne-newcomer j p (manager_known p (ground (arith, manager_of-grown r.id))));
    referenced = λ j q h. Listed-grown q (known j q h);
  }
    where
      known : (j q : ℕ) → manager_of grown j ≡ some q → Listed ms q
      known j q h = elim (Bool-cases (r.id == j)) [
        | inl e ↦ manager_known q (ground (arith, manager_of-grown j))
        | inr e ↦ o.referenced j q (ground (arith, manager_of-grown j))
      ]

pub invite-eq-ok :
    (id user template : ℕ) (manager : Option ℕ) (grant : Bool) (s t : Workspace)
    → invite id user template manager grant s ≡ ok t
    → (t.members ≡ s.members ++ new_member id user template manager grant ∷ [])
      × ((p : ℕ) → manager ≡ some p → Listed s.members p)
unfolding invite
invite-eq-ok id user template none grant s t h = (ground arith, λ p e. absurd (ground arith))
invite-eq-ok id user template (some q) grant s t h =
    elim (Option-cases (find member_id q s.members)) [
      | inl absent ↦ absurd (ground arith)
      | inr (x, here) ↦ (ground arith, λ p e. (x, ground (arith, e)))
    ]
