-- ===== src/Prelude/Sorted.antt =====
-- What sorting does: the result is in order, has the same items, and no more that share a key.
use Prim.Native.Nat.{ℕ}
use mathlib.Core.Path.{◌≡◌, refl, sym, ◌∙◌}
use mathlib.Core.Bool.{Bool, true, false, false≢true}
use mathlib.Core.Logic.{inl, inr}
use mathlib.Core.List.{List, [], ◌∷◌}
use mathlib.Core.Option.{none}
use native.Mathlib.Omega.{arith}
use configurable_crm.Prelude.Tests.{◌==◌, if◌then◌else◌, Bool-cases}
use configurable_crm.Prelude.Lists.{All, All-if, keep, insert_sorted, sort_by}
use configurable_crm.Prelude.Table.{find, Distinct}

-- Each item is in the relation to all that follow.
abbrev pub InOrder {ℓ κ} : {A : Type ℓ} → (A → A → Type κ) → List A → Type (ℓ ⊔ κ)
InOrder Le [] = Unit
InOrder Le (x ∷ xs) = All (Le x) xs × InOrder Le xs

module _ {ℓ κ} {A : Type ℓ} (P : A → Type κ) where
  All-of_if {μ} :
      {Q : Type μ} (b : Bool) (xs ys : List A)
      → All P (if b then xs else ys)
      → (b ≡ true → All P xs → Q)
      → (b ≡ false → All P ys → Q)
      → Q
  All-of_if true xs ys all h k = h refl all
  All-of_if false xs ys all h k = k refl all

  pub All-of_keep :
      (q : A → Bool) (xs : List A) → All P (keep q xs) → All (λ x. q x ≡ true → P x) xs
  All-of_keep q [] all = tt
  All-of_keep q (x ∷ xs) all =
      All-of_if (q x) (x ∷ keep q xs) (keep q xs) all
        (λ _ (h, rest). ((λ _. h), All-of_keep q xs rest))
        (λ e rest. ((λ is. absurd (false≢true (sym e ∙ is))), All-of_keep q xs rest))

module _ {ℓ κ} {A : Type ℓ} (P : A → Type κ) (before : A → A → Bool) where
  All-of_insert_sorted : (x : A) (ys : List A) → All P (insert_sorted before x ys) → P x × All P ys
  unfolding insert_sorted
  All-of_insert_sorted x [] (h, all) = (h, tt)
  All-of_insert_sorted x (y ∷ ys) all =
      All-of_if P (before y x) (y ∷ insert_sorted before x ys) (x ∷ y ∷ ys) all
        (λ _ (h, rest). let (k, more) = All-of_insert_sorted x ys rest in (k, (h, more)))
        (λ _ all. all)

  pub All-of_sort_by : (xs : List A) → All P (sort_by before xs) → All P xs
  unfolding sort_by
  All-of_sort_by [] all = tt
  All-of_sort_by (x ∷ xs) all =
      let (h, rest) = All-of_insert_sorted x (sort_by before xs) all in (h, All-of_sort_by xs rest)

-- A test that decides a transitive relation sorts by it.
module _ {ℓ κ} {A : Type ℓ} (before : A → A → Bool) (Le : A → A → Type κ)
    (yes_before : (a b : A) → before a b ≡ true → Le a b)
    (not_before : (a b : A) → before a b ≡ false → Le b a)
    (trans : (a b c : A) → Le a b → Le b c → Le a c) where
  All-trans : (a b : A) (xs : List A) → Le a b → All (Le b) xs → All (Le a) xs
  All-trans a b [] h all = tt
  All-trans a b (x ∷ xs) h (k, all) = (trans a b x h k, All-trans a b xs h all)

  InOrder-if :
      (b : Bool) (xs ys : List A)
      → (b ≡ true → InOrder Le xs)
      → (b ≡ false → InOrder Le ys)
      → InOrder Le (if b then xs else ys)
  InOrder-if true xs ys h k = h refl
  InOrder-if false xs ys h k = k refl

  All-inserted :
      (a x : A) (ys : List A) → Le a x → All (Le a) ys → All (Le a) (insert_sorted before x ys)
  unfolding insert_sorted
  All-inserted a x [] h all = (h, tt)
  All-inserted a x (y ∷ ys) h (k, all) =
      All-if (Le a) (before y x) _ _ (λ _. (k, All-inserted a x ys h all)) (λ _. (h, (k, all)))

  insert_sorted-InOrder :
      (x : A) (ys : List A) → InOrder Le ys → InOrder Le (insert_sorted before x ys)
  unfolding insert_sorted
  insert_sorted-InOrder x [] o = (tt, tt)
  insert_sorted-InOrder x (y ∷ ys) (least, o) =
      InOrder-if (before y x) _ _
        (λ e. (All-inserted y x ys (yes_before y x e) least, insert_sorted-InOrder x ys o))
        (λ e. let h = not_before y x e in ((h, All-trans x y ys h least), (least, o)))

  pub sort_by-InOrder : (xs : List A) → InOrder Le (sort_by before xs)
  unfolding sort_by
  sort_by-InOrder [] = tt
  sort_by-InOrder (x ∷ xs) = insert_sorted-InOrder x (sort_by before xs) (sort_by-InOrder xs)

module _ {ℓ} {A : Type ℓ} (key : A → ℕ) (before : A → A → Bool) where
  find-insert_sorted :
      (j : ℕ) (x : A) (ys : List A)
      → (key x == j) ≡ false
      → find key j (insert_sorted before x ys) ≡ find key j ys
  unfolding insert_sorted find
  find-insert_sorted j x [] e = ground (arith, e)
  find-insert_sorted j x (y ∷ ys) e = ground (arith, e, find-insert_sorted j x ys e)

  find-sort_by-none :
      (j : ℕ) (xs : List A) → find key j xs ≡ none → find key j (sort_by before xs) ≡ none
  unfolding sort_by find
  find-sort_by-none j [] h = refl
  find-sort_by-none j (x ∷ xs) h = elim (Bool-cases (key x == j)) [
    | inl e ↦ absurd (ground (arith, e, h))
    | inr e ↦
        ground (arith, e, h, find-insert_sorted j x (sort_by before xs) e, find-sort_by-none j xs)
  ]

  Distinct-if :
      (b : Bool) (xs ys : List A)
      → (b ≡ true → Distinct key xs)
      → (b ≡ false → Distinct key ys)
      → Distinct key (if b then xs else ys)
  Distinct-if true xs ys h k = h refl
  Distinct-if false xs ys h k = k refl

  insert_sorted-Distinct :
      (x : A) (ys : List A)
      → find key (key x) ys ≡ none
      → Distinct key ys
      → Distinct key (insert_sorted before x ys)
  unfolding insert_sorted find
  insert_sorted-Distinct x [] fresh d = (refl, tt)
  insert_sorted-Distinct x (y ∷ ys) fresh (apart, d) =
      let other : (key x == key y) ≡ false = ground (arith, fresh) in
      Distinct-if (before y x) _ _
        (λ _. (
          find-insert_sorted (key y) x ys other ∙ apart,
          insert_sorted-Distinct x ys (ground (arith, fresh)) d,
        ))
        (λ _. (fresh, (apart, d)))

  pub sort_by-Distinct : (xs : List A) → Distinct key xs → Distinct key (sort_by before xs)
  unfolding sort_by
  sort_by-Distinct [] d = tt
  sort_by-Distinct (x ∷ xs) (fresh, d) =
      insert_sorted-Distinct x (sort_by before xs) (find-sort_by-none (key x) xs fresh)
        (sort_by-Distinct xs d)
