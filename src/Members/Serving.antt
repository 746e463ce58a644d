-- ===== src/Members/Serving.antt =====
-- Invariants of the requests to the member service, served in any order.
use configurable_crm.Prelude.{◌≡◌, refl, List, [], ◌∷◌}
use configurable_crm.Errors.{Result, ok, raise}
use configurable_crm.Members.Defs.{Workspace, Request, perform, serve}

module _ {ℓ} (P : Workspace → Type ℓ)
    (step : (r : Request) (s t : Workspace) → P s → perform r s ≡ ok t → P t) where
  after :
      (o : Result Workspace) (r : Request) (s : Workspace) (rs : List Request)
      → perform r s ≡ o
      → P s
      → ((s' : Workspace) → P s' → P (serve rs s'))
      → P (elim o [ ok s' ↦ serve rs s' | raise e ↦ serve rs s ])
  after (ok s') r s rs e h rest = rest s' (step r s s' h e)
  after (raise x) r s rs e h rest = rest s h

  pub serve_induction : (rs : List Request) (s : Workspace) → P s → P (serve rs s)
  unfolding serve
  serve_induction [] s h = h
  serve_induction (r ∷ rs) s h =
      after (perform r s) r s rs refl h (λ s' h'. serve_induction rs s' h')
