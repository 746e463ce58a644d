-- ===== src/Members/Hierarchy/Grounded.antt =====
-- Changes of reporting lines that keep every chain of managers finite.
use mathlib.Core.Path.{fun_ext}
use configurable_crm.Prelude.{
  ℕ, zero, suc, ◌+◌, Option, none, some, ◌==◌, if◌then◌else◌, ◌≡◌, ◌≢◌, inl, inr, refl, sym, ◌∙◌,
  ap, arith, Bool-cases, Option-cases, ==_iff,
}
use configurable_crm.Members.Hierarchy.{climb, IsGrounded}

-- A chain that has ended stays ended.
climb-none : (f : ℕ → Option ℕ) (k i : ℕ) → climb f k i ≡ none → climb f (suc k) i ≡ none
unfolding climb
climb-none f zero i h = absurd (ground arith)
climb-none f (suc k) i h = elim (Option-cases (f i)) [
  | inl top ↦ ground arith
  | inr (m, up) ↦ ground (arith, climb-none f k m)
]

climb-none_add : (f : ℕ → Option ℕ) (k d i : ℕ) → climb f k i ≡ none → climb f (k + d) i ≡ none
climb-none_add f k zero i h = let e : k + 0 ≡ k = omega arith in rw e h
climb-none_add f k (suc d) i h =
    let e : k + suc d ≡ suc (k + d) = omega arith in
    rw e (climb-none f (k + d) i (climb-none_add f k d i h))

module _ (f g : ℕ → Option ℕ) (m : ℕ) (same : (i : ℕ) → i ≢ m → g i ≡ f i) where
  -- A chain of `f` that never meets `m` is a chain of `g`.
  climb_avoiding :
      (k x : ℕ) → climb f k x ≡ none → ((j : ℕ) → climb f j x ≢ some m) → climb g k x ≡ none
  unfolding climb
  climb_avoiding zero x h away = absurd (ground arith)
  climb_avoiding (suc k) x h away =
      let ne : x ≢ m = λ e. away 0 (ap some e) in
      elim (Option-cases (f x)) [
        | inl top ↦ ground (arith, same x ne)
        | inr (y, up) ↦
            let e : climb g k y ≡ none =
              climb_avoiding k y (ground arith) (λ j t. away (suc j) (ground (arith, t))) in
            ground (arith, same x ne, e)
      ]

  -- One member gets a manager whose own chain avoids the member, or no manager.
  climb_redirected :
      (k x d : ℕ) → climb f k x ≡ none → climb g d m ≡ none → (j : ℕ) × (climb g j x ≡ none)
  unfolding climb
  climb_redirected zero x d h end = absurd (ground arith)
  climb_redirected (suc k) x d h end = elim (Bool-cases (x == m)) [
    | inl here ↦ (d, rw (← sym ((==_iff x m).0 here)) end)
    | inr other ↦
        let ne : x ≢ m = λ e. ground (arith, e) in
        elim (Option-cases (f x)) [
          | inl top ↦ (1, ground (arith, same x ne))
          | inr (y, up) ↦
              let (j, e) = climb_redirected k y d (ground arith) end in
              (suc j, ground (arith, same x ne, e))
        ]
  ]

  -- The new reporting line keeps every chain finite if the new manager is not below the member.
  pub redirect-IsGrounded :
      IsGrounded f → ((p : ℕ) → g m ≡ some p → (j : ℕ) → climb f j p ≢ some m) → IsGrounded g
  unfolding climb
  redirect-IsGrounded all clear i =
      let (k, h) = all i in let (d, end) = tail (g m) refl in climb_redirected k i d h end
    where
      tail : (o : Option ℕ) → g m ≡ o → (d : ℕ) × (climb g d m ≡ none)
      tail none top = (1, ground arith)
      tail (some p) up =
          let (k, h) = all p in
          let e = climb_avoiding k p h (clear p up) in (suc k, ground (arith, e))

-- Where a departing manager's reports go: to their manager's own manager.
unfoldable pub skip_level : (ℕ → Option ℕ) → ℕ → ℕ → Option ℕ
skip_level f m x = elim (f x) [ none ↦ none | some y ↦ if y == m then f m else some y ]

module _ (f : ℕ → Option ℕ) (m : ℕ) where
  climb-skip_level : (k x : ℕ) → climb f k x ≡ none → (j : ℕ) × (climb (skip_level f m) j x ≡ none)
  unfolding climb skip_level
  climb-skip_level zero x h = absurd (ground arith)
  climb-skip_level (suc zero) x h = elim (Option-cases (f x)) [
    | inl top ↦ (1, ground arith)
    | inr (y, up) ↦ absurd (ground arith)
  ]
  climb-skip_level (suc (suc k)) x h = elim (Option-cases (f x)) [
    | inl top ↦ (1, ground arith)
    | inr (y, up) ↦
        let next : climb f (suc k) y ≡ none = ground arith in
        elim (Bool-cases (y == m)) [
          | inr other ↦ let (j, e) = climb-skip_level (suc k) y next in (suc j, ground (arith, e))
          | inl here ↦ elim (Option-cases (f y)) [
            | inl top ↦ (1, ground arith)
            | inr (z, up') ↦
                let (j, e) = climb-skip_level k z (ground arith) in (suc j, ground (arith, e))
          ]
        ]
  ]

  pub skip_level-IsGrounded : IsGrounded f → IsGrounded (skip_level f m)
  skip_level-IsGrounded all i = let (k, h) = all i in climb-skip_level k i h

pub IsGrounded-eq : (f g : ℕ → Option ℕ) → ((i : ℕ) → g i ≡ f i) → IsGrounded f → IsGrounded g
IsGrounded-eq f g same all i = let (k, h) = all i in (k, ap (λ r. climb r k i) (fun_ext same) ∙ h)

-- Where every chain ends nobody is their own manager.
pub IsGrounded-ne_self : (f : ℕ → Option ℕ) (i : ℕ) → IsGrounded f → f i ≢ some i
unfolding climb
IsGrounded-ne_self f i all self = let (k, h) = all i in absurd (ground (arith, stuck k, h))
  where
    stuck : (k : ℕ) → climb f k i ≡ some i
    stuck zero = refl
    stuck (suc k) = ground (arith, self, stuck k)
