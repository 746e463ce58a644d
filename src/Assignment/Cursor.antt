-- ===== src/Assignment/Cursor.antt =====
-- The round-robin cursor: every pick is in range, and the picks go round the deal list in order.
use native.Mathlib.Nat.{mod-add-mod}
use configurable_crm.Prelude.{
  Integer, from_zero, below, ℕ, zero, suc, ◌+◌, ◌%◌, ◌<◌, none, some, List, ◌≡◌, refl, ◌∙◌, ap,
  arith, length, get_elem?, get_elem?_of_lt, All, All-get_elem?, Option-cases, inl, inr,
}
use configurable_crm.Prelude.Table.{find, find-update, find-append}
use configurable_crm.Assignment.Rows.{AssignmentCursor}
use configurable_crm.Assignment.Engine.{advance, cursor_rule, ensure_cursor, next_by_cursor}

advance-lt : (p : Integer) (n : ℕ) → 0 < n → advance p n < n
unfolding advance
advance-lt (from_zero p) n h = grind arith
advance-lt (below p) n h = grind arith

-- After the insert the rule has a cursor: its own, or a new one at -1.
ensured :
    (rule : ℕ) (cursors : List AssignmentCursor)
    → (c : AssignmentCursor) × (find cursor_rule rule (ensure_cursor rule cursors) ≡ some c)
unfolding ensure_cursor
ensured rule cursors = elim (Option-cases (find cursor_rule rule cursors)) [
  | inl absent ↦ (
    record { rule_id = rule; position = below 0; last_membership_id = none },
    ground (
      arith,
      find-append cursor_rule rule cursors
          (record { rule_id = rule; position = below 0; last_membership_id = none }),
    ),
  )
  | inr (c, here) ↦ (c, ground arith)
]

-- One draw, where the cursor's row is known.
pub next_by_cursor_lem :
    (rule : ℕ) (deal : List ℕ) (cursors : List AssignmentCursor) (c : AssignmentCursor)
    → find cursor_rule rule (ensure_cursor rule cursors) ≡ some c
    → let position = advance c.position (length deal) in
      ((next_by_cursor rule deal cursors).0 ≡ get_elem? deal position)
      × ((d : AssignmentCursor) × (find cursor_rule rule (next_by_cursor rule deal cursors).1
            ≡ some d)
          × (d.position ≡ from_zero position))
unfolding next_by_cursor
next_by_cursor_lem rule deal cursors c here =
    let position = advance c.position (length deal) in
    let picked = get_elem? deal position in
    let write : AssignmentCursor → AssignmentCursor =
      λ c. record c { position = from_zero position; last_membership_id = picked } in
    (
      ground arith,
      (
        write c,
        ground (
          arith,
          find-update cursor_rule rule rule write (ensure_cursor rule cursors) (λ _ e. e),
        ),
        refl,
      ),
    )

-- Whatever the cursor says, also after the deal list has changed, a pick is an entry of the list.
pub next_by_cursor-in_deal {ℓ} :
    (P : ℕ → Type ℓ) (rule : ℕ) (deal : List ℕ) (cursors : List AssignmentCursor)
    → 0 < length deal
    → All P deal
    → (m : ℕ) × ((next_by_cursor rule deal cursors).0 ≡ some m) × P m
next_by_cursor-in_deal P rule deal cursors full all =
    let (c, here) = ensured rule cursors in
    let (picked, _) = next_by_cursor_lem rule deal cursors c here in
    let i = advance c.position (length deal) in
    let (m, at) = get_elem?_of_lt deal i (advance-lt c.position (length deal) full) in
    (m, picked ∙ at, All-get_elem? P deal i m all at)

-- The cursors after `n` draws.
unfoldable pub after_draws : ℕ → List ℕ → ℕ → List AssignmentCursor → List AssignmentCursor
after_draws rule deal zero cursors = cursors
after_draws rule deal (suc n) cursors =
    (next_by_cursor rule deal (after_draws rule deal n cursors)).1

ensure_present :
    (rule : ℕ) (cursors : List AssignmentCursor) (c : AssignmentCursor)
    → find cursor_rule rule cursors ≡ some c
    → find cursor_rule rule (ensure_cursor rule cursors) ≡ some c
unfolding ensure_cursor
ensure_present rule cursors c h = ground arith

module _ (rule : ℕ) (deal : List ℕ) (cursors : List AssignmentCursor)
    (unused : find cursor_rule rule cursors ≡ none) (full : 0 < length deal) where
  fresh : AssignmentCursor
  fresh = record { rule_id = rule; position = below 0; last_membership_id = none }

  start : find cursor_rule rule (ensure_cursor rule cursors) ≡ some fresh
  unfolding ensure_cursor fresh
  start = ground (arith, unused, find-append cursor_rule rule cursors fresh)

  mod_step : (n : ℕ) → (n % length deal + 1) % length deal ≡ suc n % length deal
  mod_step n = mod-add-mod n (length deal) 1 ∙ ap (λ k. k % length deal) (omega arith)

  -- After a draw the stored position is that of the draw.
  position_after :
      (n : ℕ)
      → (c : AssignmentCursor) × (find cursor_rule rule (after_draws rule deal (suc n) cursors)
          ≡ some c)
        × (c.position ≡ from_zero (n % length deal))
  unfolding after_draws advance fresh
  position_after zero =
      let (_, (d, here, at)) = next_by_cursor_lem rule deal cursors fresh start in
      (d, here, at ∙ ap from_zero (grind arith))
  position_after (suc n) =
      let (c, here, at) = position_after n in
      let prev = after_draws rule deal (suc n) cursors in
      let (_, (d, there, next)) =
        next_by_cursor_lem rule deal prev c (ensure_present rule prev c here) in
      (
        d,
        there,
        next ∙ ap (λ p. from_zero (advance p (length deal))) at ∙ ap from_zero (mod_step n),
      )

  -- From a rule without a cursor, over a list that stays the same and is not empty, the draw after
  -- `n` others is entry `n` modulo the length of the list.
  pub round_robin-fair :
      (n : ℕ)
      → (next_by_cursor rule deal (after_draws rule deal n cursors)).0
        ≡ get_elem? deal (n % length deal)
  unfolding after_draws advance fresh
  round_robin-fair zero =
      (next_by_cursor_lem rule deal cursors fresh start).0 ∙ ap (get_elem? deal) (grind arith)
  round_robin-fair (suc n) =
      let (c, here, at) = position_after n in
      let prev = after_draws rule deal (suc n) cursors in
      (next_by_cursor_lem rule deal prev c (ensure_present rule prev c here)).0
      ∙ ap (λ p. get_elem? deal (advance p (length deal))) at
      ∙ ap (get_elem? deal) (mod_step n)
