-- ===== src/Leads/Written.antt =====
-- A part of an edit as a relation: from one lead and ledger to another, where the ledger grew by actions
-- that record the change of the lead (api/app/services/actions.py).
use mathlib.Core.List.{append_assoc, append-nil}
use configurable_crm.Prelude.{
  ℕ, String, arith, false, none, some, List, [], ◌∷◌, ◌++◌, ◌≡◌, refl, sym, ◌∙◌, ap, All,
  All-append,
}
use configurable_crm.Timeline.{
  Lead, Ledger, Action, ActionWriter, SystemActionKind, Payload as ActionPayload, append_action,
  publish_action, touch,
}
use configurable_crm.Undo.Plan.{Target, target_eq, current_value, Change, change_of}
use configurable_crm.Undo.Tracks.{Records}
use configurable_crm.Undo.Values.{append_action-current}

-- Two leads hold the same at every target.
abbrev pub Same : Lead → Lead → Type 0
Same a b = (t : Target) → current_value a t ≡ current_value b t

Records-append :
    (labels : List (String × String)) (a b c : Lead) (xs ys : List Action)
    → Records labels a xs b
    → Records labels b ys c
    → Records labels a (xs ++ ys) c
Records-append labels a b c [] ys same more = shift labels a b c ys same more
  where
    shift :
        (labels : List (String × String)) (a b c : Lead) (ys : List Action)
        → Same b a
        → Records labels b ys c
        → Records labels a ys c
    shift labels a b c [] same more = λ t. more t ∙ same t
    shift labels a b c (y ∷ ys) same (d, next, is, old, new, kept, rest) =
        (d, next, is, old ∙ same d.target, new, (λ t e. kept t e ∙ same t), rest)
Records-append labels a b c (x ∷ xs) ys (d, next, is, old, new, kept, rest) more =
    (d, next, is, old, new, kept, Records-append labels next b c xs ys rest more)

-- The action that `append_action` appends.
abbrev pub action_of : ActionWriter → ℕ → Lead → SystemActionKind → ActionPayload → Action
action_of w now lead k p = record {
  lead_id = lead.id;
  changeset_id = w.changeset_id;
  kind = k;
  actor_id = w.actor_id;
  payload = p;
  body = none;
  performed_at = now;
}

-- An action of this writer about the lead.
abbrev pub IsOf : ActionWriter → ℕ → Action → Type 0
IsOf w i a = (a.lead_id ≡ i) × (a.changeset_id ≡ w.changeset_id)

pub append_action-id :
    (w : ActionWriter) (now : ℕ) (lead : Lead) (k : SystemActionKind) (p : ActionPayload)
    (l : Ledger)
    → (append_action w now lead k p l).0.id ≡ lead.id
unfolding append_action touch
append_action-id w now lead k p l = ground arith

module _ (labels : List (String × String)) (w : ActionWriter) where
  -- From one lead and ledger to another, the ledger grew by actions of the writer about the lead, which
  -- record its change, and the lead kept its key.
  abbrev pub Written : Lead × Ledger → Lead × Ledger → Type 0
  Written (a, l) (b, m) =
      (xs : List Action) × (m.actions ≡ l.actions ++ xs)
      × Records labels a xs b
      × All (IsOf w a.id) xs
      × (b.id ≡ a.id)
      × (m.changesets ≡ l.changesets)

  pub Written-trans : (a b c : Lead × Ledger) → Written a b → Written b c → Written a c
  Written-trans a b c (xs, e, r, all, i, s) (ys, f, q, more, j, u) = (
    xs ++ ys,
    f ∙ ap (λ zs. zs ++ ys) e ∙ append_assoc a.1.actions xs ys,
    Records-append labels a.0 b.0 c.0 xs ys r q,
    All-append (IsOf w a.0.id) xs ys all (rw (← i) more),
    j ∙ i,
    u ∙ s,
  )

  pub unchanged-Written : (a b : Lead) (l : Ledger) → Same b a → b.id ≡ a.id → Written (a, l) (b, l)
  unchanged-Written a b l same i = ([], sym (append-nil l.actions), same, tt, i, refl)

  module _ (now : ℕ) (first lead : Lead) (k : SystemActionKind) (p : ActionPayload)
      (l : Ledger) where
    pub append_action-Written :
        (c : Change)
        → lead.id ≡ first.id
        → change_of labels (action_of w now lead k p) ≡ some c
        → c.old ≡ current_value first c.target
        → c.new ≡ current_value lead c.target
        → ((t : Target)
            → target_eq c.target t ≡ false
            → current_value lead t ≡ current_value first t)
        → Written (first, l) (append_action w now lead k p l)
    unfolding append_action publish_action
    append_action-Written c i is old new kept = (
      action_of w now lead k p ∷ [],
      refl,
      (c, lead, is, old, new, kept, append_action-current w now lead k p l),
      ((i, refl), tt),
      append_action-id w now lead k p l ∙ i,
      refl,
    )

    -- The action may be appended when the lead has changed further.
    pub append_action-moves :
        (next : Lead) (c : Change)
        → lead.id ≡ first.id
        → next.id ≡ first.id
        → change_of labels (action_of w now lead k p) ≡ some c
        → c.old ≡ current_value first c.target
        → c.new ≡ current_value next c.target
        → ((t : Target)
            → target_eq c.target t ≡ false
            → current_value next t ≡ current_value first t)
        → Written (first, l) (next, (append_action w now lead k p l).1)
    unfolding append_action publish_action
    append_action-moves next c i j is old new kept = (
      action_of w now lead k p ∷ [],
      refl,
      (c, next, is, old, new, kept, λ t. refl),
      ((i, refl), tt),
      j,
      refl,
    )
