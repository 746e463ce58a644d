-- ===== src/Members/Hierarchy/Walk.antt =====
-- The loop of `_would_create_cycle` decides whether one member is above another, in any table of
-- reporting lines, even one with a cycle.
use mathlib.Core.Bool.{false≢true}
use configurable_crm.Prelude.{
  ℕ, zero, suc, ◌+◌, ◌≤◌, ◌<◌, Bool, true, false, not, Option, none, some, List, [], ◌∷◌, ◌==◌,
  contains, count, ◌≡◌, ◌≢◌, ◌⊎◌, inl, inr, refl, sym, ◌∙◌, ap, ◌↔◌, length, arith, Bool-cases,
  Option-cases, ==_iff,
}
use configurable_crm.Members.Hierarchy.{climb, walk}

module _ (f : ℕ → Option ℕ) (target : ℕ) where
  -- The `k`-th manager above the cursor.
  abbrev above : Option ℕ → ℕ → Option ℕ
  above none k = none
  above (some c) k = climb f k c

  pub walk-true :
      (n : ℕ) (cursor : Option ℕ) (seen : List ℕ)
      → walk f target n cursor seen ≡ some true
      → (k : ℕ) × (above cursor k ≡ some target)
  unfolding walk climb
  walk-true zero cursor seen h = absurd (ground arith)
  walk-true (suc n) none seen h = absurd (ground arith)
  walk-true (suc n) (some c) seen h = elim (Bool-cases (c == target)) [
    | inl here ↦ (0, ground arith)
    | inr away ↦
        let next : walk f target n (f c) (c ∷ seen) ≡ some true = ground arith in
        let (k, up) = walk-true n (f c) (c ∷ seen) next in (suc k, ground arith)
  ]

  -- What the loop knows of the members that it has seen: none is the target, and it went on to
  -- the manager of each.
  abbrev Explored : List ℕ → Option ℕ → Type 0
  Explored seen cursor =
      (s : ℕ)
      → contains seen s ≡ true
      → (s ≢ target) × ((m : ℕ) → f s ≡ some m → (contains seen m ≡ true) ⊎ (cursor ≡ some m))

  -- A closed set of members without the target is never left.
  climb-ne-target :
      (seen : List ℕ) (c : ℕ)
      → Explored seen (some c)
      → contains seen c ≡ true
      → (k s : ℕ) → contains seen s ≡ true
      → climb f k s ≢ some target
  unfolding climb
  climb-ne-target seen c ex mc zero s ms e = (ex s ms).0 (ground arith)
  climb-ne-target seen c ex mc (suc k) s ms e = elim (Option-cases (f s)) [
    | inl top ↦ ground arith
    | inr (m, up) ↦
        let mm : contains seen m ≡ true = elim ((ex s ms).1 m up) [
          | inl inside ↦ inside
          | inr same ↦ ground arith
        ] in
        climb-ne-target seen c ex mc k m mm (ground arith)
  ]

  Explored-cons :
      (c : ℕ) (seen : List ℕ) → c ≢ target → Explored seen (some c) → Explored (c ∷ seen) (f c)
  Explored-cons c seen away ex s ms = elim (Bool-cases (c == s)) [
    | inl here ↦ let e = (==_iff c s).0 here in (λ t. away (e ∙ t), λ m up. inr (ap f e ∙ up))
    | inr there ↦
        let inside : contains seen s ≡ true = ground arith in
        let (clear, onward) = ex s inside in (clear, λ m up. inl (ground (arith, onward m)))
  ]

  climb-suc : (c k : ℕ) → climb f (suc k) c ≡ above (f c) k
  unfolding climb
  climb-suc c k = ground arith

  walk-false :
      (n : ℕ) (cursor : Option ℕ) (seen : List ℕ)
      → Explored seen cursor
      → walk f target n cursor seen ≡ some false
      → (k : ℕ) → above cursor k ≢ some target
  unfolding walk climb
  walk-false zero cursor seen ex h k e = ground arith
  walk-false (suc n) none seen ex h k e = ground arith
  walk-false (suc n) (some c) seen ex h k e = elim (Bool-cases (contains seen c)) [
    | inl old ↦ climb-ne-target seen c ex old k c old e
    | inr new ↦
        let away : c ≢ target = λ t. ground (arith, t) in
        let rest : walk f target n (f c) (c ∷ seen) ≡ some false = ground arith in
        unfresh k away e (walk-false n (f c) (c ∷ seen) (Explored-cons c seen away ex) rest)
  ]
    where
      unfresh :
          (k : ℕ)
          → c ≢ target
          → climb f k c ≡ some target
          → ((j : ℕ) → above (f c) j ≢ some target)
          → ⊥
      unfresh zero away e later = ground arith
      unfresh (suc j) away e later = later j (sym (climb-suc c j) ∙ e)

  -- How many of the listed members the loop has not seen.
  unseen : List ℕ → List ℕ → ℕ
  unseen ids seen = count (λ i. not (contains seen i)) ids

  unseen-cons-le : (ids seen : List ℕ) (c : ℕ) → unseen ids (c ∷ seen) ≤ unseen ids seen
  unfolding unseen
  unseen-cons-le [] seen c = omega arith
  unseen-cons-le (i ∷ ids) seen c = ground (arith, unseen-cons-le ids seen c)

  unseen-cons-lt :
      (ids seen : List ℕ) (c : ℕ)
      → contains ids c ≡ true
      → contains seen c ≡ false
      → unseen ids (c ∷ seen) < unseen ids seen
  unfolding unseen
  unseen-cons-lt [] seen c m new = absurd (ground arith)
  unseen-cons-lt (i ∷ ids) seen c m new =
      ground (arith, unseen-cons-le ids seen c, unseen-cons-lt ids seen c)

  module _ (ids : List ℕ) (listed : (i m : ℕ) → f i ≡ some m → contains ids i ≡ true) where
    need : Option ℕ → List ℕ → ℕ
    need none seen = 1
    need (some c) seen = unseen ids seen + 2

    -- One round leaves less to see: only a listed member has a manager.
    need-step :
        (c : ℕ) (seen : List ℕ)
        → contains seen c ≡ false
        → need (f c) (c ∷ seen) + 1 ≤ need (some c) seen
    unfolding need
    need-step c seen new = elim (Option-cases (f c)) [
      | inl top ↦ ground arith
      | inr (m, up) ↦ ground (arith, unseen-cons-lt ids seen c (listed c m up) new)
    ]

    walk_total :
        (n : ℕ) (cursor : Option ℕ) (seen : List ℕ)
        → need cursor seen ≤ n
        → (b : Bool) × (walk f target n cursor seen ≡ some b)
    unfolding walk
    walk_total zero none seen h = absurd (unfold need in omega arith)
    walk_total zero (some c) seen h = absurd (unfold need in omega arith)
    walk_total (suc n) none seen h = (false, refl)
    walk_total (suc n) (some c) seen h = elim (Bool-cases (contains seen c)) [
      | inl old ↦ (false, ground arith)
      | inr new ↦
          let (b, r) = walk_total n (f c) (c ∷ seen) (omega (arith, need-step c seen new)) in
          elim (Bool-cases (c == target)) [
            | inl here ↦ (true, ground arith)
            | inr away ↦ (b, ground arith)
          ]
    ]

    unseen-nil : (l : List ℕ) → unseen l [] ≡ length l
    unfolding unseen
    unseen-nil [] = refl
    unseen-nil (i ∷ l) = omega (arith, unseen-nil l)

    -- With fuel for each listed member the loop stops, and says whether the target is above.
    pub walk_iff :
        (n c : ℕ)
        → length ids + 2 ≤ n
        → ((walk f target n (some c) [] ≡ some true) ↔ ((k : ℕ) × (climb f k c ≡ some target)))
          × ((walk f target n (some c) [] ≡ some false) ⊎ (walk f target n (some c) [] ≡ some true))
    walk_iff n c enough =
        let (b, r) = walk_total n (some c) [] (unfold need in omega (arith, unseen-nil ids)) in
        elim (Bool-cases b) [
          | inl e ↦
              let yes_there = rw e at r in
              ((λ _. walk-true n (some c) [] yes_there, λ _. yes_there), inr yes_there)
          | inr e ↦
              let not_there = rw e at r in
              let never = walk-false n (some c) [] (λ s m. absurd (false≢true m)) not_there in
              (
                (λ t. absurd (ground (arith, t, not_there)), λ (k, up). absurd (never k up)),
                inl not_there,
              )
        ]
