-- ===== src/Members/Hierarchy.antt =====
-- Reporting lines as a partial function from a member to their manager, and the loop of
-- `MemberService._would_create_cycle` (api/app/services/members.py) over such a function.
pub mod Walk
pub mod Grounded
use configurable_crm.Prelude.{
  ℕ, zero, suc, Bool, true, false, Option, none, some, List, [], ◌∷◌, ◌==◌, contains, if◌then◌else◌,
  ◌≡◌,
}

-- The `k`-th manager above a member.
unfoldable pub climb : (ℕ → Option ℕ) → ℕ → ℕ → Option ℕ
climb f zero i = some i
climb f (suc k) i = elim (f i) [ none ↦ none | some m ↦ climb f k m ]

-- Every member's chain of managers ends, so nobody reports into themself.
abbrev pub IsGrounded : (ℕ → Option ℕ) → Type 0
IsGrounded f = (i : ℕ) → (k : ℕ) × (climb f k i ≡ none)

-- The `while` loop, with fuel: `none` means that the fuel ran out.
unfoldable pub walk : (ℕ → Option ℕ) → ℕ → ℕ → Option ℕ → List ℕ → Option Bool
walk f target zero cursor seen = none
walk f target (suc n) none seen = some false
walk f target (suc n) (some c) seen =
    let rest = walk f target n (f c) (c ∷ seen) in
    if contains seen c then some false else if c == target then some true else rest
