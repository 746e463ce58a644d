-- ===== src/Members/Reporting.antt =====
-- The reporting lines under every operation of the member service: no chain of managers is endless.

use configurable_crm.Prelude.{
  ℕ, suc, ◌+◌, true, Option, some, List, [], ◌∷◌, map, ◌==◌, ◌≡◌, ◌↔◌, inl, inr, refl, sym, ◌∙◌, ap,
  arith, length, contains, if◌then◌else◌, Bool-cases, Option-cases,
}
use configurable_crm.Prelude.Table.{find, update, find-update, find-map}
use configurable_crm.Members.Hierarchy.{climb, IsGrounded}
use configurable_crm.Members.Hierarchy.Walk.{walk_iff}
use configurable_crm.Members.Hierarchy.Grounded.{skip_level, IsGrounded-eq}
use configurable_crm.Members.Defs.{
  Membership, member_id, manager_of, set_manager_id, would_create_cycle, reparent, reparent_reports,
}
use configurable_crm.Members.Seats.{reparent-id}

ids : List Membership → List ℕ
ids ms = map member_id ms

length-ids : (ms : List Membership) → length (ids ms) ≡ length ms
unfolding ids
length-ids [] = refl
length-ids (m ∷ ms) = ap suc (length-ids ms)

-- Only a row of the table has a manager.
manager_of-listed :
    (ms : List Membership) (i m : ℕ) → manager_of ms i ≡ some m → contains (ids ms) i ≡ true
unfolding manager_of ids find
manager_of-listed [] i m h = absurd (ground arith)
manager_of-listed (x ∷ ms) i m h = ground (arith, manager_of-listed ms i m)

-- The check is exact in any table, even one with a cycle: it refuses a manager when and only when
-- the member is that manager or somewhere above them.
pub would_create_cycle_iff :
    (ms : List Membership) (member proposed : ℕ)
    → (would_create_cycle ms member proposed ≡ true)
      ↔ ((k : ℕ) × (climb (manager_of ms) k proposed ≡ some member))
unfolding would_create_cycle
would_create_cycle_iff ms member proposed =
    let (exact, total) =
      walk_iff (manager_of ms) member (ids ms) (manager_of-listed ms) (length ms + 2) proposed
        (omega (arith, length-ids ms)) in
    elim total [
      | inl f ↦ (λ t. absurd (ground (arith, t, f)), λ up. absurd (ground (arith, exact.1 up, f)))
      | inr t ↦ (λ _. exact.0 t, λ _. ground (arith, t))
    ]

-- The managers after a change of one member's manager.
pub manager_of-set_manager :
    (ms : List Membership) (i j : ℕ) (p : Option ℕ) (m : Membership)
    → find member_id i ms ≡ some m
    → manager_of (update member_id i (set_manager_id p) ms) j
      ≡ (if i == j then p else manager_of ms j)
unfolding manager_of
manager_of-set_manager ms i j p m h =
    ground (arith, find-update member_id i j (set_manager_id p) ms (λ _ e. e))

-- An update that leaves the managers alone.
pub manager_of-update :
    (ms : List Membership) (i j : ℕ) (f : Membership → Membership)
    → ((x : Membership) → (f x).id ≡ x.id)
    → ((x : Membership) → (f x).manager_id ≡ x.manager_id)
    → manager_of (update member_id i f ms) j ≡ manager_of ms j
unfolding manager_of
manager_of-update ms i j f same kept = elim (Option-cases (find member_id i ms)) [
  | inl absent ↦ ground (arith, find-update member_id i j f ms (λ x e. same x ∙ e))
  | inr (x, here) ↦ ground (arith, find-update member_id i j f ms (λ x e. same x ∙ e), kept x)
]

pub manager_of-reparent :
    (d : Membership) (ms : List Membership) (j : ℕ)
    → find member_id d.id ms ≡ some d
    → manager_of (reparent_reports d ms) j ≡ skip_level (manager_of ms) d.id j
unfolding manager_of reparent_reports skip_level
manager_of-reparent d ms j here = elim (Option-cases (find member_id j ms)) [
  | inl absent ↦ ground (arith, find-map member_id j (reparent d) ms (reparent-id d))
  | inr (x, there) ↦ ground (arith, find-map member_id j (reparent d) ms (reparent-id d))
]

-- Every reporting line is finite, and names a member of the workspace.
pub record IsOrganised (ms : List Membership) : Type 0 where
  pub grounded : IsGrounded (manager_of ms)
  pub referenced :
      (i p : ℕ) → manager_of ms i ≡ some p → (x : Membership) × (find member_id p ms ≡ some x)

abbrev pub Listed : List Membership → ℕ → Type 0
Listed ms i = (x : Membership) × (find member_id i ms ≡ some x)

pub Listed-update :
    (ms : List Membership) (i j : ℕ) (f : Membership → Membership)
    → ((x : Membership) → (f x).id ≡ x.id)
    → Listed ms j
    → Listed (update member_id i f ms) j
Listed-update ms i j f same (x, here) = elim (Bool-cases (i == j)) [
  | inl e ↦ (f x, ground (arith, find-update member_id i j f ms (λ x e. same x ∙ e)))
  | inr e ↦ (x, ground (arith, find-update member_id i j f ms (λ x e. same x ∙ e)))
]

pub update-IsOrganised :
    (ms : List Membership) (i : ℕ) (f : Membership → Membership)
    → ((x : Membership) → (f x).id ≡ x.id)
    → ((x : Membership) → (f x).manager_id ≡ x.manager_id)
    → IsOrganised ms
    → IsOrganised (update member_id i f ms)
update-IsOrganised ms i f same kept o = record {
  grounded =
      IsGrounded-eq (manager_of ms) (manager_of (update member_id i f ms))
        (λ j. manager_of-update ms i j f same kept) o.grounded;
  referenced = λ j p h.
      Listed-update ms i p f same
        (o.referenced j p (sym (manager_of-update ms i j f same kept) ∙ h));
}
