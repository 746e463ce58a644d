-- ===== src/Prelude/Table.antt =====
-- A database table as the list of its rows, each with a numeric primary key. `find` is a lookup
-- by key, `update` the mutation of the one row that a lookup returned.
use Prim.Native.Nat.{ℕ, ◌+◌}
use mathlib.Core.Path.{◌≡◌, refl}
use mathlib.Core.Bool.{Bool, true, false}
use mathlib.Core.Logic.{inl, inr}
use mathlib.Core.List.{List, [], ◌∷◌, ◌++◌, map}
use mathlib.Core.Option
use mathlib.Core.Option.{Option, none, some}
use native.Mathlib.Omega.{arith}
use configurable_crm.Prelude.Tests.{◌==◌, if◌then◌else◌, Bool-cases, ==_iff}
use configurable_crm.Prelude.Lists.{count, keep, any}

module _ {ℓ} {A : Type ℓ} (key : A → ℕ) where
  unfoldable pub find : ℕ → List A → Option A
  find i [] = none
  find i (x ∷ xs) = if key x == i then some x else find i xs

  unfoldable pub update : ℕ → (A → A) → List A → List A
  update i f [] = []
  update i f (x ∷ xs) = if key x == i then f x ∷ xs else x ∷ update i f xs

  -- `f` keeps the primary key of the row that it is applied to.
  abbrev pub KeepsKey : ℕ → (A → A) → Type ℓ
  KeepsKey i f = (x : A) → key x ≡ i → key (f x) ≡ i

  pub find-key : (i : ℕ) (xs : List A) (x : A) → find i xs ≡ some x → key x ≡ i
  unfolding find
  find-key i [] x h = absurd (ground arith)
  find-key i (y ∷ ys) x h = ground (arith, find-key i ys x)

  pub find-update :
      (i j : ℕ) (f : A → A) (xs : List A)
      → KeepsKey i f
      → find j (update i f xs) ≡ (if i == j then Option.map f (find i xs) else find j xs)
  unfolding find update
  find-update i j f [] k = ground arith
  find-update i j f (x ∷ xs) k = ground (arith, find-update i j f xs k, k x)

  pub find-map :
      (j : ℕ) (f : A → A) (xs : List A)
      → ((x : A) → key (f x) ≡ key x)
      → find j (map f xs) ≡ Option.map f (find j xs)
  unfolding find
  find-map j f [] k = refl
  find-map j f (x ∷ xs) k = ground (arith, find-map j f xs k, k x)

  pub find-append :
      (j : ℕ) (xs : List A) (r : A)
      → find j (xs ++ r ∷ [])
        ≡ elim (find j xs) [ none ↦ if key r == j then some r else none | some x ↦ some x ]
  unfolding find
  find-append j [] r = refl
  find-append j (x ∷ xs) r = ground (arith, find-append j xs r)

  -- What an update of one row does to a count.
  pub count-update :
      (p : A → Bool) (i : ℕ) (f : A → A) (xs : List A) (x : A)
      → find i xs ≡ some x
      → count p (update i f xs) + (if p x then 1 else 0) ≡ count p xs + (if p (f x) then 1 else 0)
  unfolding find update
  count-update p i f [] x h = absurd (ground arith)
  count-update p i f (y ∷ ys) x h = ground (arith, count-update p i f ys x)

  pub count-update_same :
      (p : A → Bool) (i : ℕ) (f : A → A) (xs : List A)
      → ((x : A) → find i xs ≡ some x → p (f x) ≡ p x)
      → count p (update i f xs) ≡ count p xs
  unfolding find update
  count-update_same p i f [] same = refl
  count-update_same p i f (x ∷ xs) same = elim (Bool-cases (key x == i)) [
    | inl e ↦ ground (arith, e, same x (ground (arith, e)))
    | inr e ↦ ground (arith, e, count-update_same p i f xs (λ y h. same y (ground (arith, e, h))))
  ]

  pub count-map :
      (p : A → Bool) (f : A → A) (xs : List A)
      → ((x : A) → p (f x) ≡ p x)
      → count p (map f xs) ≡ count p xs
  count-map p f [] k = refl
  count-map p f (x ∷ xs) k = rw (k x, count-map p f xs k)

  -- No two rows share a primary key.
  abbrev pub Distinct : List A → Type ℓ
  Distinct [] = Unit
  Distinct (x ∷ xs) = (find (key x) xs ≡ none) × Distinct xs

  pub find-update-none :
      (i j : ℕ) (f : A → A) (xs : List A)
      → KeepsKey i f
      → find j xs ≡ none
      → find j (update i f xs) ≡ none
  find-update-none i j f xs k h = ground (arith, find-update i j f xs k)

  Distinct-if :
      (b : Bool) (xs ys : List A)
      → (b ≡ true → Distinct xs)
      → (b ≡ false → Distinct ys)
      → Distinct (if b then xs else ys)
  Distinct-if true xs ys h k = h refl
  Distinct-if false xs ys h k = k refl

  pub update-Distinct :
      (i : ℕ) (f : A → A) (xs : List A) → KeepsKey i f → Distinct xs → Distinct (update i f xs)
  unfolding update
  update-Distinct i f [] k d = tt
  update-Distinct i f (x ∷ xs) k (fresh, d) =
      Distinct-if (key x == i) (f x ∷ xs) (x ∷ update i f xs)
        (λ e. let here = (==_iff (key x) i).0 e in (rw (k x here) (rw (← here) fresh), d))
        (λ _. (find-update-none i (key x) f xs k fresh, update-Distinct i f xs k d))

  -- What holds of each row that a lookup finds holds of all rows.
  pub count-eq-zero :
      (p : A → Bool) (xs : List A)
      → Distinct xs
      → ((j : ℕ) (x : A) → find j xs ≡ some x → p x ≡ false)
      → count p xs ≡ 0
  unfolding find
  count-eq-zero p [] d h = refl
  count-eq-zero p (x ∷ xs) (fresh, d) h =
      let tail = count-eq-zero p xs d (λ j y e. h j y (ground (arith, fresh))) in
      ground (arith, h (key x) x, tail)

  -- Which keys a selection of the rows holds.
  pub any-keep_of_find :
      (q : A → Bool) (j : ℕ) (xs : List A) (x : A)
      → find j xs ≡ some x
      → q x ≡ true
      → any (λ y. key y == j) (keep q xs) ≡ true
  unfolding find
  any-keep_of_find q j [] x h e = absurd (ground arith)
  any-keep_of_find q j (y ∷ ys) x h e = ground (arith, any-keep_of_find q j ys x)

  any-keep_of_absent :
      (q : A → Bool) (j : ℕ) (xs : List A)
      → find j xs ≡ none
      → any (λ y. key y == j) (keep q xs) ≡ false
  unfolding find
  any-keep_of_absent q j [] h = refl
  any-keep_of_absent q j (y ∷ ys) h = ground (arith, any-keep_of_absent q j ys)

  pub any-keep_of_dropped :
      (q : A → Bool) (j : ℕ) (xs : List A) (x : A)
      → Distinct xs
      → find j xs ≡ some x
      → q x ≡ false
      → any (λ y. key y == j) (keep q xs) ≡ false
  unfolding find
  any-keep_of_dropped q j [] x d h e = refl
  any-keep_of_dropped q j (y ∷ ys) x (fresh, d) h e = elim (Bool-cases (key y == j)) [
    | inl same ↦
        let gone : find j ys ≡ none = rw (← (==_iff _ _).0 same) fresh in
        ground (arith, any-keep_of_absent q j ys gone)
    | inr other ↦ ground (arith, any-keep_of_dropped q j ys x d)
  ]
