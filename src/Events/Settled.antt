-- ===== src/Events/Settled.antt =====
-- A row that is delivered or dead stays as it is.
use configurable_crm.Prelude.{
  ℕ, zero, suc, Bool, true, false, ◌&&◌, some, List, [], ◌∷◌, ◌≡◌, inl, inr, refl, ap, ◌∙◌, map,
  keep, arith, contains, take, if◌then◌else◌, any, any-sort_by, Option-cases, ◌==◌,
}
use configurable_crm.Prelude.Table.{
  find, update, Distinct, find-map, find-update, find-key, any-keep_of_dropped,
}
use configurable_crm.Events.Outbox.{OutboxEvent}
use configurable_crm.Events.Dispatcher.{
  Outside, Directory, Totals, event_key, is_due, due_ids, claim_row, claim, handle, handle_each,
  run_dispatch, tally,
}
use configurable_crm.Events.Delivery.{is_settled, handle-identity}

any-take {ℓ} :
    {A : Type ℓ} (p : A → Bool) (n : ℕ) (xs : List A) → any p xs ≡ false → any p (take n xs) ≡ false
any-take p zero xs h = refl
any-take p (suc n) [] h = refl
any-take p (suc n) (x ∷ xs) h = ground (arith, any-take p n xs)

pub contains-ids :
    (i : ℕ) (rows : List OutboxEvent)
    → contains (map event_key rows) i ≡ any (λ row. event_key row == i) rows
contains-ids i [] = refl
contains-ids i (row ∷ rows) = ground (arith, contains-ids i rows)

settled-is_due :
    (now : ℕ) (row : OutboxEvent) → is_settled row.status ≡ true → is_due now row ≡ false
unfolding is_due
settled-is_due now row h = ground arith

-- A claim takes no row that is not due.
pub due_ids-not_due :
    (locked : ℕ → Bool) (now limit i : ℕ) (rows : List OutboxEvent) (row : OutboxEvent)
    → Distinct event_key rows
    → find event_key i rows ≡ some row
    → is_due now row ≡ false
    → contains (due_ids locked now limit rows) i ≡ false
unfolding due_ids
due_ids-not_due locked now limit i rows row d here s =
    let free = λ (row : OutboxEvent). is_due now row && (if locked row.id then false else true) in
    let skipped = any-keep_of_dropped event_key free i rows row d here (ground (arith, s)) in
    contains-ids i _
    ∙ any-take (λ row. event_key row == i) limit _ (any-sort_by _ _ (keep free rows) ∙ skipped)

module _ (outside : Outside) (dir : Directory) (now : ℕ) where
  find-handle_each :
      (i n : ℕ) (ids : List ℕ) (rows : List OutboxEvent) (t : Totals)
      → contains ids i ≡ false
      → find event_key i (handle_each outside dir now n ids rows t).0 ≡ find event_key i rows
  unfolding handle_each
  find-handle_each i n [] rows t h = refl
  find-handle_each i n (j ∷ ids) rows t h = elim (Option-cases (find event_key j rows)) [
    | inl e ↦ ground (arith, e, find-handle_each i (suc n) ids rows t)
    | inr (row, e) ↦
        let rows' = update event_key j (handle outside dir now n) rows in
        let rest =
          find-handle_each i (suc n) ids rows'
            (tally outside dir now (handle outside dir now n row).status t) (ground arith) in
        let here =
          find-update event_key j i (handle outside dir now n) rows
            (λ r k. ap (λ t. t.0) (handle-identity outside dir now n r) ∙ k) in
        ground (arith, e, rest, here)
  ]

  -- With distinct keys, a pass leaves a row that is delivered or dead as it is, whatever it claims
  -- and whatever the transport does.
  pub run_dispatch-settled :
      (locked : ℕ → Bool) (limit i : ℕ) (rows : List OutboxEvent) (row : OutboxEvent)
      → Distinct event_key rows
      → find event_key i rows ≡ some row
      → is_settled row.status ≡ true
      → find event_key i (run_dispatch outside dir now locked limit rows).0 ≡ some row
  unfolding run_dispatch claim
  run_dispatch-settled locked limit i rows row d here s =
      let ids = due_ids locked now limit rows in
      let out = due_ids-not_due locked now limit i rows row d here (settled-is_due now row s) in
      let same = find-key event_key i rows row here in
      find-handle_each i 0 ids (map (claim_row ids now) rows) _ out
      ∙ find-map event_key i (claim_row ids now) rows (λ r. ground arith)
      ∙ ground (arith, here, out, same)
