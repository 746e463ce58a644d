-- ===== src/Routing/Replaced.antt =====
-- The membership of a group after `set_members`.
use configurable_crm.Prelude.{
  ℕ, ◌≤◌, Bool, false, not, ◌&&◌, Option, none, some, List, [], ◌∷◌, ◌++◌, ◌≡◌, refl, ap, inl, inr,
  map, keep, contains, All, leb, arith, Option-cases, Bool-cases, ◌==◌, ==_refl,
}
use configurable_crm.Prelude.Table.{find, Distinct}
use configurable_crm.Errors.{
  ok, raise_if, >>=-eq-ok, ok_inj, unprocessable, duplicate_member, invalid_weight,
}
use configurable_crm.Members.Defs.{Membership, member_id}
use configurable_crm.Assignment.Rows.{SalesGroupMember}
use configurable_crm.Assignment.Engine.{max_weight, weight_or_one, pair_of}
use configurable_crm.Routing.Groups.{
  GroupStore, get_group, clean_rows, check_known, member_row, set_members,
}

-- A row's weight is within 1 and 100.
abbrev pub IsWeighed : ℕ × ℕ → Type 0
IsWeighed (m, w) = (1 ≤ w) × (w ≤ 100)

abbrev pub row_member : ℕ × ℕ → ℕ
row_member (m, w) = m

abbrev IsClean : List ℕ → List (ℕ × ℕ) → Type 0
IsClean seen rows =
    All IsWeighed rows
    × Distinct row_member rows
    × All (λ (p : ℕ × ℕ). contains seen p.0 ≡ false) rows

All-unseen :
    (m : ℕ) (seen : List ℕ) (rows : List (ℕ × ℕ))
    → All (λ (p : ℕ × ℕ). contains (m ∷ seen) p.0 ≡ false) rows
    → All (λ (p : ℕ × ℕ). contains seen p.0 ≡ false) rows × (find row_member m rows ≡ none)
unfolding find
All-unseen m seen [] all = (tt, refl)
All-unseen m seen ((k, w) ∷ rows) (new, all) =
    let (more, fresh) = All-unseen m seen rows all in
    elim (Bool-cases (m == k)) [
      | inl e ↦ absurd (ground (arith, e, new))
      | inr e ↦
          let apart : (k == m) ≡ false = ground (arith, e) in
          ((ground (arith, new, e), more), ground (arith, apart, fresh))
    ]

clean_rows_lem :
    (seen : List ℕ) (rows : List (ℕ × Option ℕ)) (cleaned : List (ℕ × ℕ))
    → clean_rows seen rows ≡ ok cleaned
    → (cleaned ≡ map pair_of rows) × IsClean seen cleaned
unfolding clean_rows
clean_rows_lem seen [] cleaned h = rw (← ok_inj h) (refl, (tt, tt, tt))
clean_rows_lem seen ((m, w) ∷ rows) cleaned h =
    let n = weight_or_one w in
    let (_, new, rest) =
      >>=-eq-ok (raise_if (contains seen m) (unprocessable duplicate_member)) (λ _. _) h in
    let (_, fits, last) =
      >>=-eq-ok (raise_if (not (leb 1 n && leb n max_weight)) (unprocessable invalid_weight))
        (λ _. _) rest in
    let (more, run, e) = >>=-eq-ok (clean_rows (m ∷ seen) rows) (λ _. _) last in
    let (same, (weighed, distinct, unseen)) = clean_rows_lem (m ∷ seen) rows more run in
    let (others, fresh) = All-unseen m seen more unseen in
    rw (← ok_inj e) (
      ap (λ ps. (m, n) ∷ ps) same,
      (
        ((ground (arith, fits), ground (arith, fits)), weighed),
        (fresh, distinct),
        (ground (arith, new), others),
      ),
    )

-- A member of the workspace.
abbrev pub IsKnown : List Membership → ℕ × ℕ → Type 0
IsKnown members (m, w) = (x : Membership) × (find member_id m members ≡ some x)

check_known_lem :
    (members : List Membership) (cleaned : List (ℕ × ℕ))
    → check_known members cleaned ≡ ok tt
    → All (IsKnown members) cleaned
unfolding check_known
check_known_lem members [] h = tt
check_known_lem members ((m, w) ∷ rest) h = elim (Option-cases (find member_id m members)) [
  | inl absent ↦ absurd (ground (arith, absent, h))
  | inr (x, here) ↦ ((x, here), check_known_lem members rest (ground (arith, here, h)))
]

module _ (g : ℕ) where
  abbrev is_of : SalesGroupMember → Bool
  is_of x = x.group_id == g

  kept-others :
      (xs : List SalesGroupMember) (rows : List (ℕ × ℕ))
      → keep
          (λ (x : SalesGroupMember). not (is_of x))
          (keep (λ (x : SalesGroupMember). not (is_of x)) xs ++ map (member_row g) rows)
        ≡ keep (λ (x : SalesGroupMember). not (is_of x)) xs
  kept-others [] [] = refl
  kept-others [] ((m, w) ∷ rows) = ground (arith, ==_refl g, kept-others [] rows)
  kept-others (x ∷ xs) rows = elim (Bool-cases (is_of x)) [
    | inl e ↦ ground (arith, e, kept-others xs rows)
    | inr e ↦ ground (arith, e, kept-others xs rows)
  ]

  kept-own :
      (xs : List SalesGroupMember) (rows : List (ℕ × ℕ))
      → keep is_of (keep (λ (x : SalesGroupMember). not (is_of x)) xs ++ map (member_row g) rows)
        ≡ map (member_row g) rows
  kept-own [] [] = refl
  kept-own [] ((m, w) ∷ rows) = ground (arith, ==_refl g, kept-own [] rows)
  kept-own (x ∷ xs) rows = elim (Bool-cases (is_of x)) [
    | inl e ↦ ground (arith, e, kept-own xs rows)
    | inr e ↦ ground (arith, e, kept-own xs rows)
  ]

-- After a group's membership is set, the group has the given rows and no other, each of a different
-- member of the workspace and with a weight within 1 and 100; the other groups keep theirs.
pub set_members-replaced :
    (g : ℕ) (rows : List (ℕ × Option ℕ)) (t u : GroupStore)
    → set_members g rows t ≡ ok u
    → (keep (λ (x : SalesGroupMember). x.group_id == g) u.group_members
        ≡ map (member_row g) (map pair_of rows))
      × All IsWeighed (map pair_of rows)
      × Distinct row_member (map pair_of rows)
      × All (IsKnown t.members) (map pair_of rows)
      × (keep (λ (x : SalesGroupMember). not (x.group_id == g)) u.group_members
          ≡ keep (λ (x : SalesGroupMember). not (x.group_id == g)) t.group_members)
unfolding set_members
set_members-replaced g rows t u h =
    let (_, _, rest) = >>=-eq-ok (get_group g t) (λ _. _) h in
    let (cleaned, run, last) = >>=-eq-ok (clean_rows [] rows) (λ _. _) rest in
    let (_, known, e) = >>=-eq-ok (check_known t.members cleaned) (λ _. _) last in
    let (same, (weighed, distinct, _)) = clean_rows_lem [] rows cleaned run in
    rw (← same, ← ok_inj e)
      (
        kept-own g t.group_members cleaned,
        weighed,
        distinct,
        check_known_lem t.members cleaned known,
        kept-others g t.group_members cleaned,
      )
