-- ===== src/Prelude/Positions.antt =====
-- A new order of a table's rows: `for position, key in enumerate(order): rows[key].column = position`.
use Prim.Native.Nat.{ℕ, suc}
use mathlib.Core.Path.{◌≡◌, refl, ap, ◌∙◌}
use mathlib.Core.Bool.{Bool, true, false}
use mathlib.Core.Logic.{inl, inr}
use mathlib.Core.List.{List, [], ◌∷◌}
use mathlib.Core.Option
use mathlib.Core.Option.{Option, none, some}
use native.Mathlib.Omega.{arith}
use configurable_crm.Prelude.Tests.{◌==◌, if◌then◌else◌, Bool-cases, ==_iff}
use configurable_crm.Prelude.Table.{find, update, find-update}

-- The position of the key's last occurrence in the order, counted from `n`.
abbrev pub position_of : ℕ → ℕ → List ℕ → Option ℕ
position_of n j [] = none
position_of n j (i ∷ ids) = elim (position_of (suc n) j ids) [
  | none ↦ if i == j then some n else none
  | some m ↦ some m
]

abbrev pub placed {ℓ} : {A : Type ℓ} → (ℕ → A → A) → Option ℕ → A → A
placed set none x = x
placed set (some n) x = set n x

module _ {ℓ} {A : Type ℓ} (key : A → ℕ) (set : ℕ → A → A) where
  unfoldable pub place_each : ℕ → List ℕ → List A → List A
  place_each n [] xs = xs
  place_each n (i ∷ ids) xs = place_each (suc n) ids (update key i (set n) xs)

  here :
      (i j : ℕ) (xs : List A) (f : A → A)
      → (if i == j then Option.map f (find key i xs) else find key j xs)
        ≡ (if i == j then Option.map f (find key j xs) else find key j xs)
  here i j xs f = elim (Bool-cases (i == j)) [
    | inl e ↦ rw ((==_iff i j).0 e) refl
    | inr e ↦ ground (arith, e)
  ]

  placed-over :
      ((m n : ℕ) (x : A) → set m (set n x) ≡ set m x)
      → (n : ℕ) (p : Option ℕ) (b : Bool) (o : Option A)
      → Option.map (placed set p) (if b then Option.map (set n) o else o)
        ≡ Option.map (placed set (elim p [ none ↦ if b then some n else none | some m ↦ some m ])) o
  placed-over over n none true none = refl
  placed-over over n none true (some x) = refl
  placed-over over n none false none = refl
  placed-over over n none false (some x) = refl
  placed-over over n (some m) true none = refl
  placed-over over n (some m) true (some x) = ap some (over m n x)
  placed-over over n (some m) false none = refl
  placed-over over n (some m) false (some x) = refl

  -- Each row ends at its last position in the order, and a row that the order leaves out stays.
  pub find-place_each :
      ((n : ℕ) (x : A) → key (set n x) ≡ key x)
      → ((m n : ℕ) (x : A) → set m (set n x) ≡ set m x)
      → (n j : ℕ) (ids : List ℕ) (xs : List A)
      → find key j (place_each n ids xs)
        ≡ Option.map (placed set (position_of n j ids)) (find key j xs)
  unfolding place_each
  find-place_each same over n j [] xs = ground arith
  find-place_each same over n j (i ∷ ids) xs =
      find-place_each same over (suc n) j ids (update key i (set n) xs)
      ∙ ap (Option.map (placed set (position_of (suc n) j ids)))
          (find-update key i j (set n) xs (λ x e. same n x ∙ e) ∙ here i j xs (set n))
      ∙ placed-over over n (position_of (suc n) j ids) (i == j) (find key j xs)
