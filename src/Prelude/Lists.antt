-- ===== src/Prelude/Lists.antt =====
-- Lists measured, indexed and tested by native numbers and Boolean predicates.
use Prim.Native.Nat.{ℕ, zero, suc, ◌+◌, ◌<◌}
use mathlib.Core.Path.{◌≡◌, refl}
use mathlib.Core.Logic.{◌⊎◌, inl, inr}
use mathlib.Core.Bool.{Bool, true, false, ◌||◌, ◌&&◌}
use mathlib.Core.List.{List, [], ◌∷◌, ◌++◌}
use mathlib.Core.Option.{Option, none, some}
use native.Mathlib.Omega.{arith}
use Prim.Native.String.{String, compare}
use text.Mathlib.Text.{◌==◌ as str_eq, is_lt}
use configurable_crm.Prelude.Tests.{◌==◌, if◌then◌else◌, Bool-cases}

module _ {ℓ} {A : Type ℓ} where
  abbrev pub length : List A → ℕ
  length [] = 0
  length (x ∷ xs) = suc (length xs)

  abbrev pub get_elem? : List A → ℕ → Option A
  get_elem? [] i = none
  get_elem? (x ∷ xs) zero = some x
  get_elem? (x ∷ xs) (suc i) = get_elem? xs i

  abbrev pub take : ℕ → List A → List A
  take zero xs = []
  take (suc n) [] = []
  take (suc n) (x ∷ xs) = x ∷ take n xs

  abbrev pub replicate : ℕ → A → List A
  replicate zero a = []
  replicate (suc n) a = a ∷ replicate n a

  -- The comprehension `[x for x in xs if p(x)]`.
  abbrev pub keep : (A → Bool) → List A → List A
  keep p [] = []
  keep p (x ∷ xs) = let rest = keep p xs in if p x then x ∷ rest else rest

  -- `sum(1 for x in xs if p(x))`
  abbrev pub count : (A → Bool) → List A → ℕ
  count p [] = 0
  count p (x ∷ xs) = (if p x then 1 else 0) + count p xs

  abbrev pub any : (A → Bool) → List A → Bool
  any p [] = false
  any p (x ∷ xs) = p x || any p xs

  -- A predicate of every item, as a tuple.
  abbrev pub All {κ} : (A → Type κ) → List A → Type κ
  All P [] = Unit
  All P (x ∷ xs) = P x × All P xs

  pub length-append : (xs ys : List A) → length (xs ++ ys) ≡ length xs + length ys
  length-append [] ys = omega arith
  length-append (x ∷ xs) ys = omega (arith, length-append xs ys)

  pub count-append : (p : A → Bool) (xs ys : List A) → count p (xs ++ ys) ≡ count p xs + count p ys
  count-append p [] ys = omega arith
  count-append p (x ∷ xs) ys = omega (arith, count-append p xs ys)

  pub length-replicate : (n : ℕ) (a : A) → length (replicate n a) ≡ n
  length-replicate zero a = refl
  length-replicate (suc n) a = omega (arith, length-replicate n a)

  pub List-cases : (xs : List A) → (xs ≡ []) ⊎ ((a : A) × (more : List A) × (xs ≡ a ∷ more))
  List-cases [] = inl refl
  List-cases (x ∷ xs) = inr (x, xs, refl)

  pub get_elem?_of_lt : (xs : List A) (i : ℕ) → i < length xs → (a : A) × (get_elem? xs i ≡ some a)
  get_elem?_of_lt [] i h = absurd (omega arith)
  get_elem?_of_lt (x ∷ xs) zero h = (x, refl)
  get_elem?_of_lt (x ∷ xs) (suc i) h = get_elem?_of_lt xs i (omega arith)

module _ {ℓ κ} {A : Type ℓ} (P : A → Type κ) where
  pub All-append : (xs ys : List A) → All P xs → All P ys → All P (xs ++ ys)
  All-append [] ys hx hy = hy
  All-append (x ∷ xs) ys (h, hx) hy = (h, All-append xs ys hx hy)

  pub All-if :
      (b : Bool) (xs ys : List A)
      → (b ≡ true → All P xs)
      → (b ≡ false → All P ys)
      → All P (if b then xs else ys)
  All-if true xs ys h k = h refl
  All-if false xs ys h k = k refl

  pub All-replicate : (n : ℕ) (a : A) → P a → All P (replicate n a)
  All-replicate zero a h = tt
  All-replicate (suc n) a h = (h, All-replicate n a h)

  pub All-get_elem? : (xs : List A) (i : ℕ) (a : A) → All P xs → get_elem? xs i ≡ some a → P a
  All-get_elem? [] i a h e = absurd (ground arith)
  All-get_elem? (x ∷ xs) zero a (h, _) e = ground arith
  All-get_elem? (x ∷ xs) (suc i) a (_, h) e = All-get_elem? xs i a h e

pub All-both {ℓ κ μ} :
    {A : Type ℓ} (P : A → Type κ) (Q : A → Type μ) (xs : List A)
    → All P xs
    → All Q xs
    → All (λ x. P x × Q x) xs
All-both P Q [] hp hq = tt
All-both P Q (x ∷ xs) (p, hp) (q, hq) = ((p, q), All-both P Q xs hp hq)

pub All-keep {ℓ} : {A : Type ℓ} (q : A → Bool) (xs : List A) → All (λ x. q x ≡ true) (keep q xs)
All-keep q [] = tt
All-keep q (x ∷ xs) = elim (Bool-cases (q x)) [
  | inl e ↦ rw e (e, All-keep q xs)
  | inr e ↦ rw e (All-keep q xs)
]

-- `x in xs` for identifiers.
abbrev pub contains : List ℕ → ℕ → Bool
contains [] a = false
contains (x ∷ xs) a = x == a || contains xs a

pub length-keep {ℓ} : {A : Type ℓ} (p : A → Bool) (xs : List A) → length (keep p xs) ≡ count p xs
length-keep p [] = refl
length-keep p (x ∷ xs) = ground (arith, length-keep p xs)

-- `sorted(xs, key=…)` for a test `before` of strict precedence: stable insertion.
module _ {ℓ} {A : Type ℓ} (before : A → A → Bool) where
  unfoldable pub insert_sorted : A → List A → List A
  insert_sorted x [] = x ∷ []
  insert_sorted x (y ∷ ys) = if before y x then y ∷ insert_sorted x ys else x ∷ y ∷ ys

  unfoldable pub sort_by : List A → List A
  unfolding insert_sorted
  sort_by [] = []
  sort_by (x ∷ xs) = insert_sorted x (sort_by xs)

  -- Sorting keeps what is in a list.
  pub any-insert_sorted :
      (p : A → Bool) (x : A) (ys : List A) → any p (insert_sorted x ys) ≡ (p x || any p ys)
  unfolding insert_sorted
  any-insert_sorted p x [] = refl
  any-insert_sorted p x (y ∷ ys) = ground (arith, any-insert_sorted p x ys)

  pub any-sort_by : (p : A → Bool) (xs : List A) → any p (sort_by xs) ≡ any p xs
  unfolding sort_by
  any-sort_by p [] = refl
  any-sort_by p (x ∷ xs) = ground (arith, any-insert_sorted p x (sort_by xs), any-sort_by p xs)

module _ {ℓ κ} {A : Type ℓ} (P : A → Type κ) (before : A → A → Bool) where
  All-insert_sorted : (x : A) (ys : List A) → P x → All P ys → All P (insert_sorted before x ys)
  unfolding insert_sorted
  All-insert_sorted x [] h all = (h, tt)
  All-insert_sorted x (y ∷ ys) h (k, all) =
      All-if P (before y x) (y ∷ insert_sorted before x ys) (x ∷ y ∷ ys)
        (λ _. (k, All-insert_sorted x ys h all)) (λ _. (h, (k, all)))

  pub All-sort_by : (xs : List A) → All P xs → All P (sort_by before xs)
  unfolding sort_by
  All-sort_by [] all = tt
  All-sort_by (x ∷ xs) (h, all) = All-insert_sorted x (sort_by before xs) h (All-sort_by xs all)

-- `dict.get`, and `in` for a collection of texts.
abbrev pub get_key {ℓ} : {V : Type ℓ} → String → List (String × V) → Option V
get_key k [] = none
get_key k ((j, v) ∷ rest) = if str_eq k j then some v else get_key k rest

abbrev pub has : List String → String → Bool
has keys k = any (λ j. str_eq k j) keys

pub any-keep {ℓ} :
    {A : Type ℓ} (p q : A → Bool) (xs : List A) → any p (keep q xs) ≡ any (λ x. q x && p x) xs
any-keep p q [] = refl
any-keep p q (x ∷ xs) = ground (arith, any-keep p q xs)

-- `<` on texts, by code points.
abbrev pub text_before : String → String → Bool
text_before a b = is_lt (compare a b)
