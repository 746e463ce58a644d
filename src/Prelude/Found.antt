-- ===== src/Prelude/Found.antt =====
-- The rows that a selection keeps: no two share a key, and each is what a lookup of its key finds.
use Prim.Native.Nat.{ℕ}
use mathlib.Core.Path.{◌≡◌, refl}
use mathlib.Core.Bool.{Bool}
use mathlib.Core.Logic.{inl, inr}
use mathlib.Core.List.{List, [], ◌∷◌}
use mathlib.Core.Option.{none, some}
use native.Mathlib.Omega.{arith}
use configurable_crm.Prelude.Tests.{◌==◌, Bool-cases, ==_iff, ==_refl}
use configurable_crm.Prelude.Lists.{keep, All}
use configurable_crm.Prelude.Table.{find, Distinct}

module _ {ℓ} {A : Type ℓ} (key : A → ℕ) (q : A → Bool) where
  pub find-keep-none : (j : ℕ) (xs : List A) → find key j xs ≡ none → find key j (keep q xs) ≡ none
  unfolding find
  find-keep-none j [] h = refl
  find-keep-none j (x ∷ xs) h = ground (arith, find-keep-none j xs)

  pub keep-Distinct : (xs : List A) → Distinct key xs → Distinct key (keep q xs)
  keep-Distinct [] d = tt
  keep-Distinct (x ∷ xs) (fresh, d) = elim (Bool-cases (q x)) [
    | inl e ↦ rw e (find-keep-none (key x) xs fresh, keep-Distinct xs d)
    | inr e ↦ rw e (keep-Distinct xs d)
  ]

  -- A table's rows are found by their keys.
  abbrev pub AreFound : List A → List A → Type ℓ
  AreFound table rows = All (λ (x : A). find key (key x) table ≡ some x) rows

  AreFound-cons :
      (x : A) (xs rows : List A)
      → find key (key x) xs ≡ none
      → AreFound xs rows
      → AreFound (x ∷ xs) rows
  unfolding find
  AreFound-cons x xs [] fresh all = tt
  AreFound-cons x xs (y ∷ rows) fresh (here, all) = elim (Bool-cases (key x == key y)) [
    | inl e ↦
        let gone : find key (key y) xs ≡ none = rw (← (==_iff (key x) (key y)).0 e) fresh in
        absurd (ground (arith, gone, here))
    | inr e ↦ (ground (arith, e, here), AreFound-cons x xs rows fresh all)
  ]

  pub AreFound-keep : (xs : List A) → Distinct key xs → AreFound xs (keep q xs)
  unfolding find
  AreFound-keep [] d = tt
  AreFound-keep (x ∷ xs) (fresh, d) =
      let rest = AreFound-cons x xs (keep q xs) fresh (AreFound-keep xs d) in
      elim (Bool-cases (q x)) [ inl e ↦ rw e (rw (==_refl (key x)) refl, rest) | inr e ↦ rw e rest ]
