-- ===== src/Events/Reclaim.antt =====
-- A row whose worker died is taken again.
use configurable_crm.Prelude.{
  ℕ, zero, suc, ◌+◌, ◌≤◌, ◌<◌, Bool, true, false, ◌&&◌, some, List, [], ◌∷◌, ◌≡◌, inl, inr, refl,
  ap, ◌∙◌, map, ltb, keep, arith, contains, take, insert_sorted, sort_by, length, if◌then◌else◌,
  any, any-sort_by, Bool-cases, ◌==◌,
}
use configurable_crm.Prelude.Table.{find, Distinct, find-map, find-key, any-keep_of_find}
use configurable_crm.Events.Outbox.{delivering, OutboxEvent}
use configurable_crm.Events.Dispatcher.{event_key, is_due, due_ids, claim_row, claim}
use configurable_crm.Events.Settled.{contains-ids, due_ids-not_due}

length-insert_sorted :
    (before : OutboxEvent → OutboxEvent → Bool) (x : OutboxEvent) (ys : List OutboxEvent)
    → length (insert_sorted before x ys) ≡ suc (length ys)
unfolding insert_sorted
length-insert_sorted before x [] = refl
length-insert_sorted before x (y ∷ ys) = ground (arith, length-insert_sorted before x ys)

length-sort_by :
    (before : OutboxEvent → OutboxEvent → Bool) (xs : List OutboxEvent)
    → length (sort_by before xs) ≡ length xs
unfolding sort_by
length-sort_by before [] = refl
length-sort_by before (x ∷ xs) =
    length-insert_sorted before x (sort_by before xs) ∙ ap suc (length-sort_by before xs)

length-keep-le : (p : OutboxEvent → Bool) (xs : List OutboxEvent) → length (keep p xs) ≤ length xs
length-keep-le p [] = omega arith
length-keep-le p (x ∷ xs) = ground (arith, length-keep-le p xs)

take-length : (n : ℕ) (xs : List OutboxEvent) → length xs ≤ n → take n xs ≡ xs
take-length zero [] h = refl
take-length zero (x ∷ xs) h = absurd (omega arith)
take-length (suc n) [] h = refl
take-length (suc n) (x ∷ xs) h = ap (λ ys. x ∷ ys) (take-length n xs (omega arith))

-- A row that is due, and that no other worker holds, is claimed if the batch is large enough.
due_ids-due :
    (locked : ℕ → Bool) (now limit i : ℕ) (rows : List OutboxEvent) (row : OutboxEvent)
    → find event_key i rows ≡ some row
    → is_due now row ≡ true
    → locked i ≡ false
    → length rows ≤ limit
    → contains (due_ids locked now limit rows) i ≡ true
unfolding due_ids
due_ids-due locked now limit i rows row here due unlocked enough =
    let free = λ (row : OutboxEvent). is_due now row && (if locked row.id then false else true) in
    let key = find-key event_key i rows row here in
    let unheld : locked row.id ≡ false = ap locked key ∙ unlocked in
    let kept = any-keep_of_find event_key free i rows row here (ground (arith, due, unheld)) in
    let fits = length-sort_by (λ a b. ltb a.next_attempt_at b.next_attempt_at) (keep free rows) in
    contains-ids i _
    ∙ ap (any (λ row. event_key row == i))
        (take-length limit _ (omega (arith, fits, length-keep-le free rows)))
    ∙ any-sort_by _ _ (keep free rows)
    ∙ kept

length-claimed :
    (ids : List ℕ) (now : ℕ) (rows : List OutboxEvent)
    → length (map (claim_row ids now) rows) ≡ length rows
length-claimed ids now [] = refl
length-claimed ids now (row ∷ rows) = ap suc (length-claimed ids now rows)

stale-is_due :
    (at now : ℕ) (row : OutboxEvent)
    → is_due at row ≡ true
    → at + 300 < now
    → is_due now (record row { status = delivering; claimed_at = some at }) ≡ true
unfolding is_due
stale-is_due at now row due late = ground arith

-- A row that one claim took, and that nothing was recorded of since, is taken again by a claim more
-- than 300 seconds later, where keys are distinct, no other worker holds the row and the second
-- batch is as large as the table.
pub claim-reclaimed :
    (locked locked' : ℕ → Bool) (at now limit limit' i : ℕ) (rows : List OutboxEvent)
    (row : OutboxEvent)
    → Distinct event_key rows
    → find event_key i rows ≡ some row
    → contains (claim locked at limit rows).0 i ≡ true
    → at + 300 < now
    → locked' i ≡ false
    → length rows ≤ limit'
    → contains (claim locked' now limit' (claim locked at limit rows).1).0 i ≡ true
unfolding claim
claim-reclaimed locked locked' at now limit limit' i rows row d here taken late unlocked enough =
    let ids = due_ids locked at limit rows in
    let key = find-key event_key i rows row here in
    let was_due : is_due at row ≡ true = elim (Bool-cases (is_due at row)) [
      | inl due ↦ due
      | inr not_due ↦
          absurd (ground (arith, taken, due_ids-not_due locked at limit i rows row d here not_due))
    ] in
    let there : find event_key i (map (claim_row ids at) rows)
        ≡ some (record row { status = delivering; claimed_at = some at }) =
      find-map event_key i (claim_row ids at) rows (λ r. ground arith)
      ∙ ground (arith, here, taken, key) in
    due_ids-due locked' now limit' i (map (claim_row ids at) rows) _ there
      (stale-is_due at now row was_due late) unlocked (omega (arith, length-claimed ids at rows))
