-- ===== src/Events/Delivery.antt =====
-- What a dispatch pass promises: no event is lost, and a settled one is not sent again.
use native.Mathlib.Nat.{one-le-pow}
use configurable_crm.Prelude.{
  ℕ, suc, ◌+◌, ◌≤◌, String, Bool, true, false, Option, none, some, List, [], ◌∷◌, ◌≡◌, ◌⊎◌, inl,
  inr, refl, ◌∙◌, map, leb, arith, Option-cases, Bool-cases,
}
use configurable_crm.Prelude.Table.{find, update}
use configurable_crm.Events.Outbox.{
  OutboxStatus, delivered, failed, dead, WebhookEndpoint, EventData, OutboxEvent,
}
use configurable_crm.Events.Dispatcher.{
  Outside, Directory, Totals, Sent, answered, raised, DeliveryResult, is_success, event_key,
  endpoint_key, next_attempt_after, due_ids, claim_row, claim, settle, record_result, request_of,
  handle_at, handle, handle_each, run_dispatch, tally, dead_after_attempts,
}

-- The next attempt is one to sixty minutes from now, whatever the number of attempts.
pub next_attempt_after-bounds :
    (attempts now : ℕ)
    → (now + 60 ≤ next_attempt_after attempts now) × (next_attempt_after attempts now ≤ now + 3600)
unfolding next_attempt_after
next_attempt_after-bounds attempts now =
    let step = one-le-pow attempts 2 (omega arith) in (grind (arith, step), grind arith)

-- The part of a row that identifies the event to its consumer.
abbrev pub identity : OutboxEvent → ℕ × String × ℕ × ℕ × EventData × ℕ
identity row = (row.id, row.event, row.event_id, row.endpoint_id, row.payload, row.occurred_at)

-- The states that no pass sends again.
abbrev pub is_settled : OutboxStatus → Bool
is_settled delivered = true
is_settled dead = true
is_settled _ = false

module _ (outside : Outside) (dir : Directory) (now : ℕ) where
  record_result-identity :
      (row : OutboxEvent) (result : DeliveryResult)
      → identity (record_result outside dir now row result) ≡ identity row
  unfolding record_result
  record_result-identity row result = ground arith

  settle-identity :
      (row : OutboxEvent) (sent : Sent) → identity (settle outside dir now row sent) ≡ identity row
  unfolding settle
  settle-identity row (answered result) = record_result-identity row result
  settle-identity row raised = refl

  handle_at-identity :
      (n : ℕ) (row : OutboxEvent) (endpoint : Option WebhookEndpoint)
      → identity (handle_at outside dir now n row endpoint) ≡ identity row
  unfolding handle_at
  handle_at-identity n row none = refl
  handle_at-identity n row (some endpoint) =
      settle-identity row (outside.post n (request_of outside dir now row endpoint))

  pub handle-identity :
      (n : ℕ) (row : OutboxEvent) → identity (handle outside dir now n row) ≡ identity row
  unfolding handle
  handle-identity n row = handle_at-identity n row (find endpoint_key row.endpoint_id dir.endpoints)

  map-update :
      (i n : ℕ) (rows : List OutboxEvent)
      → map identity (update event_key i (handle outside dir now n) rows) ≡ map identity rows
  unfolding update
  map-update i n [] = refl
  map-update i n (row ∷ rows) = ground (arith, handle-identity n row, map-update i n rows)

  handle_each-identity :
      (n : ℕ) (ids : List ℕ) (rows : List OutboxEvent) (t : Totals)
      → map identity (handle_each outside dir now n ids rows t).0 ≡ map identity rows
  unfolding handle_each
  handle_each-identity n [] rows t = refl
  handle_each-identity n (i ∷ ids) rows t = elim (Option-cases (find event_key i rows)) [
    | inl e ↦ ground (arith, e, handle_each-identity (suc n) ids rows t)
    | inr (row, e) ↦
        let rest =
          handle_each-identity (suc n) ids (update event_key i (handle outside dir now n) rows)
            (tally outside dir now (handle outside dir now n row).status t) in
        ground (arith, e, rest, map-update i n rows)
  ]

  claim-identity :
      (ids : List ℕ) (rows : List OutboxEvent)
      → map identity (map (claim_row ids now) rows) ≡ map identity rows
  claim-identity ids [] = refl
  claim-identity ids (row ∷ rows) = ground (arith, claim-identity ids rows)

  -- A pass keeps every row, with the event's identifier, name, endpoint, payload and time, in all
  -- outcomes of the transport.
  pub run_dispatch-identity :
      (locked : ℕ → Bool) (limit : ℕ) (rows : List OutboxEvent)
      → map identity (run_dispatch outside dir now locked limit rows).0 ≡ map identity rows
  unfolding run_dispatch claim
  run_dispatch-identity locked limit rows =
      let ids = due_ids locked now limit rows in
      handle_each-identity 0 ids (map (claim_row ids now) rows) _ ∙ claim-identity ids rows

  -- What one turn leaves of a row: it is not claimed, and delivered, dead, or waiting for a next
  -- attempt, one to sixty minutes from now.
  abbrev pub IsReleased : OutboxEvent → OutboxEvent → Type 0
  IsReleased before after =
      (after.claimed_at ≡ none)
      × ((after.status ≡ delivered)
          ⊎ ((after.status ≡ dead)
              ⊎ ((after.status ≡ failed)
                  × (after.attempts ≡ suc before.attempts)
                  × (now + 60 ≤ after.next_attempt_at)
                  × (after.next_attempt_at ≤ now + 3600))))

  record_result-IsReleased :
      (row : OutboxEvent) (result : DeliveryResult)
      → IsReleased row (record_result outside dir now row result)
  unfolding record_result
  record_result-IsReleased row result =
      let (low, high) = next_attempt_after-bounds (suc row.attempts) now in
      elim (Bool-cases (is_success result.status_code)) [
        | inl e ↦ (ground arith, inl (ground arith))
        | inr e ↦ elim (Bool-cases (leb dead_after_attempts (suc row.attempts))) [
          | inl d ↦ (ground arith, inr (inl (ground arith)))
          | inr d ↦ (
            ground arith,
            inr (inr (ground arith, ground arith, ground (arith, low), ground (arith, high))),
          )
        ]
      ]

  settle-IsReleased :
      (row : OutboxEvent) (sent : Sent) → IsReleased row (settle outside dir now row sent)
  unfolding settle
  settle-IsReleased row (answered result) = record_result-IsReleased row result
  settle-IsReleased row raised =
      let (low, high) = next_attempt_after-bounds (suc row.attempts) now in
      (refl, inr (inr (refl, refl, low, high)))

  handle_at-IsReleased :
      (n : ℕ) (row : OutboxEvent) (endpoint : Option WebhookEndpoint)
      → IsReleased row (handle_at outside dir now n row endpoint)
  unfolding handle_at
  handle_at-IsReleased n row none = (refl, inr (inl refl))
  handle_at-IsReleased n row (some endpoint) =
      settle-IsReleased row (outside.post n (request_of outside dir now row endpoint))

  -- A handled row is not claimed, and it is delivered, dead, or failed with one attempt more and a
  -- next attempt one to sixty minutes from now, in all outcomes of the transport.
  pub handle-IsReleased :
      (n : ℕ) (row : OutboxEvent) → IsReleased row (handle outside dir now n row)
  unfolding handle
  handle-IsReleased n row =
      handle_at-IsReleased n row (find endpoint_key row.endpoint_id dir.endpoints)
