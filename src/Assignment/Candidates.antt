-- ===== src/Assignment/Candidates.antt =====
-- Whom the engine may pick: only members that can work the lead.
use configurable_crm.Prelude.{
  ℕ, zero, suc, ◌+◌, Bool, true, some, List, [], ◌∷◌, ◌++◌, ◌≡◌, inl, inr, refl, arith, All,
  All-append, All-replicate, All-if, count-append, ==_iff, replicate, count, Bool-cases,
  Option-cases, if◌then◌else◌, ◌==◌, false, ltb,
}
use configurable_crm.Prelude.Table.{find}
use configurable_crm.Members.Defs.{Membership, member_id, working}
use configurable_crm.Assignment.Engine.{eligible, is_working, deal_from, clamp_weight}

-- The member exists, is active and licensed, and is working if the rule skips those who are not.
abbrev pub CanTake : List Membership → Bool → ℕ → Type 0
CanTake members skip i =
    (m : Membership) × (find member_id i members ≡ some m)
    × (m.is_active ≡ true)
    × (m.has_license ≡ true)
    × (skip ≡ true → m.availability ≡ working)

is_working-eq : (m : Membership) → is_working m.availability ≡ true → m.availability ≡ working
is_working-eq m h = ground arith

pub eligible-CanTake :
    (members : List Membership) (i : ℕ) (skip : Bool)
    → eligible members i skip ≡ true
    → CanTake members skip i
unfolding eligible
eligible-CanTake members i skip h = elim (Option-cases (find member_id i members)) [
  | inl absent ↦ absurd (ground arith)
  | inr (m, here) ↦ (m, here, ground arith, ground arith, λ s. is_working-eq m (ground arith))
]

-- Every entry of a deal list can take the lead.
pub deal_from-CanTake :
    (members : List Membership) (skip : Bool) (pairs : List (ℕ × ℕ))
    → All (CanTake members skip) (deal_from members skip pairs)
unfolding deal_from
deal_from-CanTake members skip [] = tt
deal_from-CanTake members skip ((m, w) ∷ rest) =
    let P = CanTake members skip in
    let more = deal_from-CanTake members skip rest in
    let own = replicate (clamp_weight w) m in
    All-if P (eligible members m skip) (own ++ deal_from members skip rest)
      (deal_from members skip rest)
      (λ e.
        All-append P own _ (All-replicate P (clamp_weight w) m (eligible-CanTake members m skip e))
          more)
      (λ _. more)

-- The weights of a member's pairs, in sum, each held within 1 and 100.
unfoldable pub held_weight : List (ℕ × ℕ) → ℕ → ℕ
held_weight [] i = 0
held_weight ((m, w) ∷ rest) i =
    (if m == i then (if ltb w 1 then 1 else if ltb 100 w then 100 else w) else 0)
    + held_weight rest i

pub eligible_of_CanTake :
    (members : List Membership) (i : ℕ) (skip : Bool)
    → CanTake members skip i
    → eligible members i skip ≡ true
unfolding eligible
eligible_of_CanTake members i skip (m, here, active, licensed, works) = elim (Bool-cases skip) [
  | inl e ↦ ground (arith, here, active, licensed, e, works e)
  | inr e ↦ ground (arith, here, active, licensed, e)
]

clamp_weight-held : (w : ℕ) → clamp_weight w ≡ (if ltb w 1 then 1 else if ltb 100 w then 100 else w)
clamp_weight-held w = ground arith

count-replicate : (n m i : ℕ) → count (λ x. x == i) (replicate n m) ≡ (if m == i then n else 0)
count-replicate zero m i = ground arith
count-replicate (suc n) m i = ground (arith, count-replicate n m i)

count-absent :
    (members : List Membership) (skip : Bool) (pairs : List (ℕ × ℕ)) (i : ℕ)
    → eligible members i skip ≡ false
    → count (λ x. x == i) (deal_from members skip pairs) ≡ 0
unfolding deal_from
count-absent members skip [] i out = refl
count-absent members skip ((m, w) ∷ rest) i out =
    let own = replicate (clamp_weight w) m in
    ground (
      arith,
      out,
      (==_iff m i).0,
      count-absent members skip rest i out,
      count-replicate (clamp_weight w) m i,
      count-append {0} (λ x. x == i) own (deal_from members skip rest),
    )

count-present :
    (members : List Membership) (skip : Bool) (pairs : List (ℕ × ℕ)) (i : ℕ)
    → eligible members i skip ≡ true
    → count (λ x. x == i) (deal_from members skip pairs) ≡ held_weight pairs i
unfolding deal_from held_weight
count-present members skip [] i fits = refl
count-present members skip ((m, w) ∷ rest) i fits =
    let own = replicate (clamp_weight w) m in
    let dealt = count-append {0} (λ x. x == i) own (deal_from members skip rest) in
    let more = count-present members skip rest i fits in
    let copies = count-replicate (clamp_weight w) m i in
    elim (Bool-cases (m == i)) [
      | inl e ↦
          let here : eligible members m skip ≡ true = rw ((==_iff m i).0 e) fits in
          ground (arith, e, here, more, copies, dealt, clamp_weight-held w)
      | inr e ↦ ground (arith, e, more, copies, dealt)
    ]

-- A member who can take a lead stands in a deal list as often as the weights of their pairs say, each held
-- within 1 and 100; one who cannot does not stand in it. A member can take a lead if they exist, are active
-- and licensed, and are working where unavailable members are skipped.
pub count-deal_from :
    (members : List Membership) (skip : Bool) (pairs : List (ℕ × ℕ)) (i : ℕ)
    → (CanTake members skip i
        → count (λ x. x == i) (deal_from members skip pairs) ≡ held_weight pairs i)
      × (¬ CanTake members skip i → count (λ x. x == i) (deal_from members skip pairs) ≡ 0)
count-deal_from members skip pairs i = (
  λ fits. count-present members skip pairs i (eligible_of_CanTake members i skip fits),
  λ unfit. elim (Bool-cases (eligible members i skip)) [
    | inl e ↦ absurd (unfit (eligible-CanTake members i skip e))
    | inr e ↦ count-absent members skip pairs i e
  ],
)
