-- ===== src/Prelude/Covered.antt =====
-- As many rows with different keys as there are identifiers, all of them among these, are all of them.
use Prim.Native.Nat.{ℕ, ◌+◌, ◌≤◌, ◌<◌}
use mathlib.Core.Path.{◌≡◌}
use mathlib.Core.Bool.{true, false, not}
use mathlib.Core.Logic.{inl, inr}
use mathlib.Core.List.{List, [], ◌∷◌}
use mathlib.Core.Option.{none}
use native.Mathlib.Omega.{arith}
use configurable_crm.Prelude.Tests.{◌==◌, Bool-cases, ==_iff}
use configurable_crm.Prelude.Lists.{keep, length, any, contains, All}
use configurable_crm.Prelude.Table.{find, Distinct}
use configurable_crm.Prelude.Found.{keep-Distinct}

abbrev without : ℕ → List ℕ → List ℕ
without i ids = keep (λ j. not (j == i)) ids

contains-without :
    (i j : ℕ) (ids : List ℕ)
    → (j == i) ≡ false
    → contains ids j ≡ true
    → contains (without i ids) j ≡ true
contains-without i j [] other h = h
contains-without i j (k ∷ ids) other h = ground (arith, other, h, contains-without i j ids other)

length-without_le : (i : ℕ) (ids : List ℕ) → length (without i ids) ≤ length ids
length-without_le i [] = omega arith
length-without_le i (k ∷ ids) = ground (arith, length-without_le i ids)

length-without_lt :
    (i : ℕ) (ids : List ℕ) → contains ids i ≡ true → length (without i ids) < length ids
length-without_lt i [] h = absurd (ground (arith, h))
length-without_lt i (k ∷ ids) h =
    ground (arith, h, length-without_le i ids, length-without_lt i ids)

module _ {ℓ} {A : Type ℓ} (key : A → ℕ) where
  abbrev pub KeysAmong : List ℕ → List A → Type 0
  KeysAmong ids xs = All (λ (x : A). contains ids (key x) ≡ true) xs

  length-le_of_absent :
      (i : ℕ) (xs : List A)
      → find key i xs ≡ none
      → length xs ≤ length (keep (λ x. not (key x == i)) xs)
  unfolding find
  length-le_of_absent i [] h = omega arith
  length-le_of_absent i (x ∷ xs) h = ground (arith, h, length-le_of_absent i xs)

  length-le-others :
      (i : ℕ) (xs : List A)
      → Distinct key xs
      → length xs ≤ length (keep (λ x. not (key x == i)) xs) + 1
  length-le-others i [] d = omega arith
  length-le-others i (x ∷ xs) (fresh, d) = elim (Bool-cases (key x == i)) [
    | inl e ↦
        let gone : find key i xs ≡ none = rw (← (==_iff (key x) i).0 e) fresh in
        rw e (omega (arith, length-le_of_absent i xs gone))
    | inr e ↦ rw e (omega (arith, length-le-others i xs d))
  ]

  KeysAmong-others :
      (i : ℕ) (ids : List ℕ) (xs : List A)
      → KeysAmong (i ∷ ids) xs
      → KeysAmong ids (keep (λ x. not (key x == i)) xs)
  KeysAmong-others i ids [] h = tt
  KeysAmong-others i ids (x ∷ xs) (here, h) = elim (Bool-cases (key x == i)) [
    | inl e ↦ rw e (KeysAmong-others i ids xs h)
    | inr e ↦ rw e (ground (arith, e, here), KeysAmong-others i ids xs h)
  ]

  length-le_of_KeysAmong :
      (ids : List ℕ) (xs : List A) → Distinct key xs → KeysAmong ids xs → length xs ≤ length ids
  length-le_of_KeysAmong [] [] d h = omega arith
  length-le_of_KeysAmong [] (x ∷ xs) d (here, h) = absurd (ground (arith, here))
  length-le_of_KeysAmong (i ∷ ids) xs d h =
      let rest = keep (λ x. not (key x == i)) xs in
      omega (
        arith,
        length-le-others i xs d,
        length-le_of_KeysAmong ids rest (keep-Distinct key (λ x. not (key x == i)) xs d)
            (KeysAmong-others i ids xs h),
      )

  KeysAmong-without :
      (i : ℕ) (ids : List ℕ) (xs : List A)
      → any (λ x. key x == i) xs ≡ false
      → KeysAmong ids xs
      → KeysAmong (without i ids) xs
  KeysAmong-without i ids [] none_ h = tt
  KeysAmong-without i ids (x ∷ xs) none_ (here, h) = (
    contains-without i (key x) ids (ground (arith, none_)) here,
    KeysAmong-without i ids xs (ground (arith, none_)) h,
  )

  pub any_of_KeysAmong :
      (ids : List ℕ) (xs : List A) (i : ℕ)
      → Distinct key xs
      → KeysAmong ids xs
      → length xs ≡ length ids
      → contains ids i ≡ true
      → any (λ x. key x == i) xs ≡ true
  any_of_KeysAmong ids xs i d h e c = elim (Bool-cases (any (λ x. key x == i) xs)) [
    | inl here ↦ here
    | inr absent ↦ absurd (
        omega (
          arith,
          e,
          length-without_lt i ids c,
          length-le_of_KeysAmong (without i ids) xs d (KeysAmong-without i ids xs absent h),
        ))
  ]
