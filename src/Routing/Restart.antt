-- ===== src/Routing/Restart.antt =====
-- A rule with another strategy or configuration starts its deal list anew.
use configurable_crm.Prelude.{
  String, ℕ, Bool, true, false, not, none, some, List, [], ◌∷◌, ◌≡◌, refl, sym, ◌∙◌, ap, inl, inr,
  arith, keep, Option-cases, ◌==◌, ==_refl, below, length, get_elem?, suc, ◌%◌, ◌-◌,
}
use configurable_crm.Prelude.Table.{find, find-key, find-append}
use configurable_crm.Errors.{ok, >>=-eq-ok, ok_inj}
use configurable_crm.Assignment.Rows.{AssignmentRule, AssignmentCursor}
use configurable_crm.Assignment.Engine.{
  parse, cursor_rule, ensure_cursor, next_by_cursor, draw, advance,
}
use configurable_crm.Assignment.Cursor.{next_by_cursor_lem}
use configurable_crm.Json.{Json}
use configurable_crm.Assignment.Strategy.{Conversions}
use configurable_crm.Routing.Rules.{
  Lowering, RuleStore, RuleChanges, rule_key, get_rule, check_rename, reconfigured, reconfigures,
  reset_cursors, update_rule, or_old,
}

reset-absent :
    (i : ℕ) (cursors : List AssignmentCursor)
    → find cursor_rule i (keep (λ (x : AssignmentCursor). not (x.rule_id == i)) cursors) ≡ none
unfolding find
reset-absent i [] = refl
reset-absent i (c ∷ cursors) = ground (arith, reset-absent i cursors)

reset_cursors-absent :
    (i k : ℕ) (b : Bool) (cursors : List AssignmentCursor)
    → b ≡ true
    → k ≡ i
    → find cursor_rule i (reset_cursors b k cursors) ≡ none
unfolding reset_cursors
reset_cursors-absent i k false cursors e same = absurd (ground arith)
reset_cursors-absent i k true cursors e same = rw same (reset-absent i cursors)

get_rule-key : (i : ℕ) (t : RuleStore) (r : AssignmentRule) → get_rule i t ≡ ok r → r.id ≡ i
unfolding get_rule
get_rule-key i t r h = elim (Option-cases (find rule_key i t.rules)) [
  | inl absent ↦ absurd (ground (arith, absent, h))
  | inr (q, here) ↦
      let same : ok q ≡ ok r = ground (arith, here, h) in
      ap (λ (x : AssignmentRule). x.id) (sym (ok_inj same)) ∙ find-key rule_key i t.rules q here
]

next_by_cursor-new :
    (i m : ℕ) (deal : List ℕ) (cursors : List AssignmentCursor)
    → find cursor_rule i cursors ≡ none
    → (next_by_cursor i (m ∷ deal) cursors).0 ≡ some m
unfolding ensure_cursor advance
next_by_cursor-new i m deal cursors absent =
    let row : AssignmentCursor = record {
      rule_id = i;
      position = below 0;
      last_membership_id = none;
    } in
    let there : find cursor_rule i (ensure_cursor i cursors) ≡ some row =
      ground (arith, absent, ==_refl i, find-append cursor_rule i cursors row) in
    let (picked, _) = next_by_cursor_lem i (m ∷ deal) cursors row there in
    let start : (suc (length deal) - 0 % suc (length deal)) % suc (length deal) ≡ 0 = grind arith in
    picked ∙ ap (get_elem? (m ∷ deal)) start

-- After an update that names a strategy or a configuration, the rule deals its next lead to the first
-- entry of its deal list.
pub update_rule-restarts :
    (lower : Lowering) (show : Json → String) (conv : Conversions) (i m : ℕ) (c : RuleChanges)
    (t u : RuleStore) (deal : List ℕ)
    → update_rule lower show conv i c t ≡ ok u
    → reconfigures c ≡ true
    → (draw i (m ∷ deal) u.cursors).0 ≡ some m
unfolding update_rule draw
update_rule-restarts lower show conv i m c t u deal h changed =
    let (r, found, rest) = >>=-eq-ok (get_rule i t) (λ _. _) h in
    let (_, _, more) = >>=-eq-ok (check_rename lower c.name r t.rules) (λ _. _) rest in
    let (s, _, last) =
      >>=-eq-ok (reconfigured show conv c (record r { name = or_old c.name r.name })) (λ _. _)
        more in
    let (_, _, e) = >>=-eq-ok (parse (or_old c.conditions s.conditions)) (λ _. _) last in
    rw (← ok_inj e) (
      next_by_cursor-new i m deal (reset_cursors (reconfigures c) r.id t.cursors)
        (reset_cursors-absent i r.id (reconfigures c) t.cursors changed (get_rule-key i t r found)))
