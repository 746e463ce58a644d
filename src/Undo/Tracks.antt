-- ===== src/Undo/Tracks.antt =====
-- What the loop of `_plan_for` knows of the actions that it has read.
use configurable_crm.Prelude.{
  String, Bool, true, false, ◌||◌, some, List, [], ◌∷◌, ◌≡◌, inl, inr, refl, sym, ap, ◌∙◌, any,
  if◌then◌else◌, arith, Bool-cases, All-if, All,
}
use configurable_crm.Timeline.{Lead, Action}
use configurable_crm.Undo.Plan.{
  Target, target_eq, current_value, Change, change_of, Entry, add_change, collapse,
}
use configurable_crm.Undo.Values.{target_eq_iff}

-- `actions` record how the first lead became the last: each has one target, with what it held before
-- and after, and between two of them nothing changes.
abbrev pub Records : List (String × String) → Lead → List Action → Lead → Type 0
Records labels first [] last = (t : Target) → current_value last t ≡ current_value first t
Records labels first (a ∷ rest) last =
    (c : Change) × (next : Lead) × (change_of labels a ≡ some c)
    × (c.old ≡ current_value first c.target)
    × (c.new ≡ current_value next c.target)
    × ((t : Target) → target_eq c.target t ≡ false → current_value next t ≡ current_value first t)
    × Records labels next rest last

abbrev pub listed : Target → List Entry → Bool
listed t es = any (λ (e : Entry). target_eq e.target t) es

abbrev pub Once : List Entry → Type 0
Once [] = Unit
Once (e ∷ es) = (listed e.target es ≡ false) × Once es

-- The entries hold what the targets held at `first`, and what they hold at `now`.
abbrev pub Reverts : Lead → List Entry → Type 0
Reverts first es = All (λ (e : Entry). e.revert_to ≡ current_value first e.target) es

abbrev pub Expects : Lead → List Entry → Type 0
Expects now es = All (λ (e : Entry). e.expected ≡ current_value now e.target) es

pub record Tracks (first now : Lead) (es : List Entry) : Type 0 where
  pub once : Once es
  pub reverts : Reverts first es
  pub expects : Expects now es
  pub kept : (t : Target) → listed t es ≡ false → current_value now t ≡ current_value first t

listed-add_change :
    (c : Change) (es : List Entry) (t : Target)
    → listed t (add_change c es) ≡ (target_eq c.target t || listed t es)
unfolding add_change
listed-add_change c [] t = refl
listed-add_change c (e ∷ es) t = elim (Bool-cases (target_eq e.target c.target)) [
  | inl same ↦
      ground (arith, same, ap (λ s. target_eq s t) ((target_eq_iff e.target c.target).0 same))
  | inr other ↦ ground (arith, other, listed-add_change c es t)
]

target_eq_sym : (a b : Target) → target_eq a b ≡ false → target_eq b a ≡ false
target_eq_sym a b h = elim (Bool-cases (target_eq b a)) [
  | inl e ↦ absurd (ground (arith, h, (target_eq_iff a b).1 (sym ((target_eq_iff b a).0 e))))
  | inr e ↦ e
]

Once-if :
    (b : Bool) (xs ys : List Entry)
    → (b ≡ true → Once xs)
    → (b ≡ false → Once ys)
    → Once (if b then xs else ys)
Once-if true xs ys h k = h refl
Once-if false xs ys h k = k refl

add_change-Once : (c : Change) (es : List Entry) → Once es → Once (add_change c es)
unfolding add_change
add_change-Once c [] o = (refl, tt)
add_change-Once c (e ∷ es) (fresh, o) =
    Once-if (target_eq e.target c.target) _ _ (λ _. (fresh, o))
      (λ other. (
        ground
            (arith, fresh, listed-add_change c es e.target, target_eq_sym e.target c.target other),
        add_change-Once c es o,
      ))

add_change-Reverts :
    (first now : Lead) (c : Change) (es : List Entry)
    → Reverts first es
    → (listed c.target es ≡ false → c.old ≡ current_value first c.target)
    → Reverts first (add_change c es)
unfolding add_change
add_change-Reverts first now c [] all new = (new refl, tt)
add_change-Reverts first now c (e ∷ es) (h, all) new =
    All-if (λ (e : Entry). e.revert_to ≡ current_value first e.target) (target_eq e.target c.target)
      _ _ (λ _. (h, all))
      (λ other.
        (h, add_change-Reverts first now c es all (λ absent. new (ground (arith, other, absent)))))

-- Where the changed target is not listed, the other targets hold what they held.
moved-Expects :
    (now next : Lead) (c : Change) (es : List Entry)
    → ((t : Target) → target_eq c.target t ≡ false → current_value next t ≡ current_value now t)
    → listed c.target es ≡ false
    → Expects now es
    → Expects next es
moved-Expects now next c [] same absent all = tt
moved-Expects now next c (e ∷ es) same absent (h, all) =
    let differ : target_eq e.target c.target ≡ false = ground (arith, absent) in
    (
      h ∙ sym (same e.target (target_eq_sym e.target c.target differ)),
      moved-Expects now next c es same (ground (arith, absent)) all,
    )

add_change-Expects :
    (now next : Lead) (c : Change) (es : List Entry)
    → ((t : Target) → target_eq c.target t ≡ false → current_value next t ≡ current_value now t)
    → c.new ≡ current_value next c.target
    → Once es
    → Expects now es
    → Expects next (add_change c es)
unfolding add_change
add_change-Expects now next c [] same new once all = (new, tt)
add_change-Expects now next c (e ∷ es) same new (fresh, once) (h, all) =
    All-if (λ (e : Entry). e.expected ≡ current_value next e.target) (target_eq e.target c.target) _
      _
      (λ here.
        let at : e.target ≡ c.target = (target_eq_iff e.target c.target).0 here in
        (
          new ∙ ap (current_value next) (sym at),
          moved-Expects now next c es same (ap (λ t. listed t es) (sym at) ∙ fresh) all,
        ))
      (λ other. (
        h ∙ sym (same e.target (target_eq_sym e.target c.target other)),
        add_change-Expects now next c es same new once all,
      ))

add_change-Tracks :
    (first now next : Lead) (c : Change) (es : List Entry)
    → c.old ≡ current_value now c.target
    → c.new ≡ current_value next c.target
    → ((t : Target) → target_eq c.target t ≡ false → current_value next t ≡ current_value now t)
    → Tracks first now es
    → Tracks first next (add_change c es)
add_change-Tracks first now next c es old new same k = record {
  once = add_change-Once c es k.once;
  reverts = add_change-Reverts first now c es k.reverts (λ absent. old ∙ k.kept c.target absent);
  expects = add_change-Expects now next c es same new k.once k.expects;
  kept = λ t absent.
      let apart = listed-add_change c es t in
      same t (ground (arith, absent, apart)) ∙ k.kept t (ground (arith, absent, apart));
}

pub collapse-Tracks :
    (labels : List (String × String)) (first now last : Lead) (actions : List Action)
    (es : List Entry)
    → Records labels now actions last
    → Tracks first now es
    → Tracks first last (collapse labels actions es)
unfolding collapse
collapse-Tracks labels first now last [] es same k = record {
  once = k.once;
  reverts = k.reverts;
  expects = still es k.expects;
  kept = λ t absent. same t ∙ k.kept t absent;
}
  where
    still : (es : List Entry) → Expects now es → Expects last es
    still [] all = tt
    still (e ∷ es) (h, all) = (h ∙ sym (same e.target), still es all)
collapse-Tracks labels first now last (a ∷ rest) es (c, next, is, old, new, same, more) k = rw is (
    collapse-Tracks labels first next last rest (add_change c es) more
      (add_change-Tracks first now next c es old new same k))
