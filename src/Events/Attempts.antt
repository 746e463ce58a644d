-- ===== src/Events/Attempts.antt =====
-- The threshold of eight attempts, for a transport that answers.
use configurable_crm.Prelude.{
  ℕ, suc, ◌≤◌, ◌<◌, leb, Option, none, some, ◌≡◌, ◌⊎◌, inl, inr, refl, arith, Bool-cases,
}
use configurable_crm.Prelude.Table.{find}
use configurable_crm.Events.Outbox.{failed, dead, WebhookEndpoint, OutboxEvent}
use configurable_crm.Events.Dispatcher.{
  Outside, Directory, Request, answered, DeliveryResult, endpoint_key, is_success,
  dead_after_attempts, record_result, settle, request_of, handle_at, handle,
}

-- Every call of the transport answers, as `HttpxTransport.post` does, which catches what it calls.
abbrev pub Answers : Outside → Type 0
Answers outside =
    (n : ℕ) (r : Request) → (result : DeliveryResult) × (outside.post n r ≡ answered result)

module _ (outside : Outside) (dir : Directory) (now : ℕ) where
  -- A row that waits for a retry has attempts left; a row is dead only if it has none, or if its
  -- endpoint is gone.
  abbrev pub IsWithinAttempts : Option WebhookEndpoint → OutboxEvent → Type 0
  IsWithinAttempts endpoint after =
      (after.status ≡ failed → after.attempts < 8)
      × (after.status ≡ dead → (endpoint ≡ none) ⊎ (8 ≤ after.attempts))

  record_result-IsWithinAttempts :
      (endpoint : Option WebhookEndpoint) (row : OutboxEvent) (result : DeliveryResult)
      → IsWithinAttempts endpoint (record_result outside dir now row result)
  unfolding record_result
  record_result-IsWithinAttempts endpoint row result =
      elim (Bool-cases (is_success result.status_code)) [
        | inl e ↦ (λ h. absurd (ground (arith, e, h)), λ h. absurd (ground (arith, e, h)))
        | inr e ↦ elim (Bool-cases (leb dead_after_attempts (suc row.attempts))) [
          | inl d ↦ (λ h. absurd (ground (arith, e, d, h)), λ h. inr (ground (arith, e, d)))
          | inr d ↦ (λ h. ground (arith, e, d), λ h. absurd (ground (arith, e, d, h)))
        ]
      ]

  handle_at-IsWithinAttempts :
      (n : ℕ) (row : OutboxEvent) (endpoint : Option WebhookEndpoint)
      → Answers outside
      → IsWithinAttempts endpoint (handle_at outside dir now n row endpoint)
  unfolding handle_at settle
  handle_at-IsWithinAttempts n row none answers = (λ h. absurd (ground (arith, h)), λ h. inl refl)
  handle_at-IsWithinAttempts n row (some endpoint) answers =
      let (result, e) = answers n (request_of outside dir now row endpoint) in
      rw e (record_result-IsWithinAttempts (some endpoint) row result)

  -- If every call of the transport answers, then a handled row that waits for a retry has had fewer
  -- than eight attempts, and one that is dead has had eight, or its endpoint no longer exists.
  pub handle-IsWithinAttempts :
      (n : ℕ) (row : OutboxEvent)
      → Answers outside
      → IsWithinAttempts
          (find endpoint_key row.endpoint_id dir.endpoints)
          (handle outside dir now n row)
  unfolding handle
  handle-IsWithinAttempts n row answers =
      handle_at-IsWithinAttempts n row (find endpoint_key row.endpoint_id dir.endpoints) answers
