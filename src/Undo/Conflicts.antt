-- ===== src/Undo/Conflicts.antt =====
-- When the plan of `_plan_for` (api/app/services/undo.py) has a conflict: a target holds another value than the
-- last action gave it.
use configurable_crm.Prelude.{
  String, true, false, Option, none, some, List, [], ◌∷◌, ◌≡◌, ◌≢◌, inl, inr, refl, ap, ◌∙◌, sym,
  arith, any, any-sort_by, map, if◌then◌else◌, Bool-cases, Option-cases, ==_iff,
}
use configurable_crm.Json.{json_eq_iff}
use configurable_crm.Timeline.{Lead, Action}
use configurable_crm.Undo.Plan.{
  Target, Value, absent, stored, reference, stars, target_eq, value_eq, current_value, Change,
  change_of, Entry, add_change, collapse, Reversal, reversal_of, plan_for,
}
use configurable_crm.Undo.Values.{target_eq_iff}

-- The value that the last of the actions on a target gives it.
unfoldable pub last_given : List (String × String) → Target → List Action → Option Value
last_given labels t [] = none
last_given labels t (a ∷ rest) = elim (last_given labels t rest) [
  | some v ↦ some v
  | none ↦ (elim (change_of labels a) [
    | none ↦ none
    | some c ↦ if target_eq c.target t then some c.new else none
  ])
]

-- Some target holds another value than the last of these actions on it gave it.
abbrev pub HoldsAnother : List (String × String) → Lead → List Action → Type 0
HoldsAnother labels lead actions =
    (t : Target) × (v : Value) × (last_given labels t actions ≡ some v) × (current_value lead t ≢ v)

expected_of : Target → List Entry → Option Value
expected_of t [] = none
expected_of t (e ∷ es) = if target_eq e.target t then some e.expected else expected_of t es

expected_of-add_change :
    (t : Target) (c : Change) (es : List Entry)
    → expected_of t (add_change c es)
      ≡ (if target_eq c.target t then some c.new else expected_of t es)
unfolding add_change expected_of
expected_of-add_change t c [] = refl
expected_of-add_change t c (e ∷ es) = elim (Bool-cases (target_eq e.target c.target)) [
  | inl same ↦
      ground (arith, same, ap (λ s. target_eq s t) ((target_eq_iff e.target c.target).0 same))
  | inr other ↦
      let both : target_eq e.target t ≡ true → target_eq c.target t ≡ false = λ here.
        elim (Bool-cases (target_eq c.target t)) [
          | inl e' ↦
              let at = (target_eq_iff e.target t).0 here ∙ sym ((target_eq_iff c.target t).0 e') in
              absurd (ground (arith, other, (target_eq_iff e.target c.target).1 at))
          | inr e' ↦ e'
        ] in
      ground (arith, other, expected_of-add_change t c es, both)
]

or_given : Option Value → Option Value → Option Value
or_given (some v) o = some v
or_given none o = o

expected_of-collapse :
    (labels : List (String × String)) (t : Target) (actions : List Action) (es : List Entry)
    → expected_of t (collapse labels actions es)
      ≡ or_given (last_given labels t actions) (expected_of t es)
unfolding collapse or_given last_given
expected_of-collapse labels t [] es = refl
expected_of-collapse labels t (a ∷ rest) es = elim (Option-cases (change_of labels a)) [
  | inl e ↦ ground (arith, e, expected_of-collapse labels t rest es)
  | inr (c, e) ↦ ground (
    arith,
    e,
    expected_of-collapse labels t rest (add_change c es),
    expected_of-add_change t c es,
  )
]

eq_of_value_eq : (a b : Value) → value_eq a b ≡ true → a ≡ b
unfolding value_eq
eq_of_value_eq absent absent h = refl
eq_of_value_eq (stored a) (stored b) h =
    ap (λ (o : Option _). elim o [ none ↦ absent | some v ↦ stored v ])
      ((json_eq_iff (some a) (some b)).0 h)
eq_of_value_eq (reference a) (reference b) h = ap reference ((==_iff a b).0 h)
eq_of_value_eq (stars a) (stars b) h = ap stars ((==_iff a b).0 h)
eq_of_value_eq absent (stored b) h = absurd (ground arith)
eq_of_value_eq absent (reference b) h = absurd (ground arith)
eq_of_value_eq absent (stars b) h = absurd (ground arith)
eq_of_value_eq (stored a) absent h = absurd (ground arith)
eq_of_value_eq (stored a) (reference b) h = absurd (ground arith)
eq_of_value_eq (stored a) (stars b) h = absurd (ground arith)
eq_of_value_eq (reference a) absent h = absurd (ground arith)
eq_of_value_eq (reference a) (stored b) h = absurd (ground arith)
eq_of_value_eq (reference a) (stars b) h = absurd (ground arith)
eq_of_value_eq (stars a) absent h = absurd (ground arith)
eq_of_value_eq (stars a) (stored b) h = absurd (ground arith)
eq_of_value_eq (stars a) (reference b) h = absurd (ground arith)

conflicted_of_expected :
    (lead : Lead) (t : Target) (v : Value) (es : List Entry)
    → expected_of t es ≡ some v
    → current_value lead t ≢ v
    → any (λ (r : Reversal). r.conflicted) (map (reversal_of lead) es) ≡ true
unfolding expected_of reversal_of
conflicted_of_expected lead t v [] h other = absurd (ground (arith, h))
conflicted_of_expected lead t v (e ∷ es) h other = elim (Bool-cases (target_eq e.target t)) [
  | inl same ↦
      let at : e.target ≡ t = (target_eq_iff e.target t).0 same in
      let is : e.expected ≡ v = ground (arith, same, h) in
      elim (Bool-cases (value_eq (current_value lead e.target) e.expected)) [
        | inl held ↦
            let equal = eq_of_value_eq (current_value lead e.target) e.expected held in
            absurd (other (ap (current_value lead) (sym at) ∙ equal ∙ is))
        | inr differs ↦ ground (arith, differs)
      ]
  | inr apart ↦ ground (arith, conflicted_of_expected lead t v es (ground (arith, apart, h)) other)
]

pub plan_for-conflicted :
    (labels : List (String × String)) (lead : Lead) (actions : List Action)
    → HoldsAnother labels lead actions
    → any (λ (r : Reversal). r.conflicted) (plan_for lead actions labels) ≡ true
unfolding plan_for or_given expected_of
plan_for-conflicted labels lead actions (t, v, given, other) =
    any-sort_by _ (λ (r : Reversal). r.conflicted) (map (reversal_of lead) _)
    ∙ conflicted_of_expected lead t v (collapse labels actions [])
        (expected_of-collapse labels t actions [] ∙ ap (λ o. or_given o none) given) other
