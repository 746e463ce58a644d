-- ===== src/Pipeline/Singletons.antt =====
-- The stages that a pipeline needs exactly one of.
use configurable_crm.Prelude.{
  ℕ, suc, String, Bool, true, false, not, ◌&&◌, Option, some, List, [], ◌∷◌, ◌++◌, ◌≡◌, refl, sym,
  ◌∙◌, ap, inl, inr, keep, count, count-append, arith, Option-cases,
}
use configurable_crm.Prelude.Table.{find, update, count-update_same}
use configurable_crm.Prelude.Positions.{place_each}
use configurable_crm.Errors.{ok, >>=-eq-ok, ok_inj}
use configurable_crm.Pipeline.Rows.{Stage, StageKind, initial, active, won, lost}
use configurable_crm.Pipeline.Service.{Texts, Taxonomy, max_stage_label, valid_label, checked_label}
use configurable_crm.Pipeline.Stages.{
  stage_key, is_active_kind, get_stage, create_stage, update_stage, archive_stage, check_order,
  set_order, reorder_stages,
}

-- A kind, and the test for it.
abbrev pub same_kind : StageKind → StageKind → Bool
same_kind initial initial = true
same_kind active active = true
same_kind won won = true
same_kind lost lost = true
same_kind _ _ = false

-- The live stages of a kind.
unfoldable pub live_of : StageKind → List Stage → ℕ
live_of k stages = count (λ (x : Stage). same_kind k x.kind && not x.is_archived) stages

-- Exactly one live stage of each kind but `active`.
abbrev pub HasSingletons : List Stage → Type 0
HasSingletons stages =
    (live_of initial stages ≡ 1) × (live_of won stages ≡ 1) × (live_of lost stages ≡ 1)

-- No live stage of a kind is added or removed.
abbrev SameLive : List Stage → List Stage → Type 0
SameLive xs ys = (k : StageKind) → is_active_kind k ≡ false → live_of k xs ≡ live_of k ys

SameLive-HasSingletons : (xs ys : List Stage) → SameLive xs ys → HasSingletons ys → HasSingletons xs
SameLive-HasSingletons xs ys same (a, b, c) =
    (same initial refl ∙ a, same won refl ∙ b, same lost refl ∙ c)

single_test :
    (k kind : StageKind) (a b : Bool)
    → is_active_kind k ≡ false
    → (is_active_kind kind ≡ false → a ≡ b)
    → (same_kind k kind && not a) ≡ (same_kind k kind && not b)
single_test k initial a b h same = ap (λ c. same_kind k initial && not c) (same refl)
single_test k won a b h same = ap (λ c. same_kind k won && not c) (same refl)
single_test k lost a b h same = ap (λ c. same_kind k lost && not c) (same refl)
single_test initial active a b h same = refl
single_test active active a b h same = absurd (ground (arith, h))
single_test won active a b h same = refl
single_test lost active a b h same = refl

update-SameLive :
    (i : ℕ) (f : Stage → Stage) (xs : List Stage)
    → ((x : Stage) → (f x).kind ≡ x.kind)
    → ((x : Stage)
        → find stage_key i xs ≡ some x
        → is_active_kind x.kind ≡ false
        → (f x).is_archived ≡ x.is_archived)
    → SameLive (update stage_key i f xs) xs
unfolding live_of
update-SameLive i f xs kind kept k single =
    count-update_same stage_key (λ (x : Stage). same_kind k x.kind && not x.is_archived) i f xs
      (λ x here.
        ap (λ c. same_kind k c && not (f x).is_archived) (kind x)
        ∙ single_test k x.kind (f x).is_archived x.is_archived single (kept x here))

place_each-SameLive :
    (n : ℕ) (ids : List ℕ) (xs : List Stage) → SameLive (place_each stage_key set_order n ids xs) xs
unfolding place_each
place_each-SameLive n [] xs k single = refl
place_each-SameLive n (i ∷ ids) xs k single =
    place_each-SameLive (suc n) ids (update stage_key i (set_order n) xs) k single
    ∙ update-SameLive i (set_order n) xs (λ _. refl) (λ _ _ _. refl) k single

append-SameLive : (xs : List Stage) (row : Stage) → row.kind ≡ active → SameLive (xs ++ row ∷ []) xs
unfolding live_of
append-SameLive xs row is initial single = ground (
  arith,
  is,
  count-append {0} (λ (x : Stage). same_kind initial x.kind && not x.is_archived) xs (row ∷ []),
)
append-SameLive xs row is active single = absurd (ground (arith, single))
append-SameLive xs row is won single = ground (
  arith,
  is,
  count-append {0} (λ (x : Stage). same_kind won x.kind && not x.is_archived) xs (row ∷ []),
)
append-SameLive xs row is lost single = ground (
  arith,
  is,
  count-append {0} (λ (x : Stage). same_kind lost x.kind && not x.is_archived) xs (row ∷ []),
)

-- The request changed this table alone, and the table is as it must be.
abbrev pub ChangesStages : Taxonomy → Taxonomy → Type 0
ChangesStages t u = (xs : List Stage) × (u ≡ record t { stages = xs }) × HasSingletons xs

module _ (python : Texts) (t u : Taxonomy) where
  pub create_stage-HasSingletons :
      (id : ℕ) (label : String) (color : Option String)
      → create_stage python id label color t ≡ ok u
      → HasSingletons t.stages
      → ChangesStages t u
  unfolding create_stage
  create_stage-HasSingletons id label color h s =
      let (name, _, e) = >>=-eq-ok (valid_label python max_stage_label label) (λ _. _) h in
      (_, sym (ok_inj e), SameLive-HasSingletons _ _ (append-SameLive t.stages _ refl) s)

  pub update_stage-HasSingletons :
      (i : ℕ) (label color : Option String)
      → update_stage python i label color t ≡ ok u
      → HasSingletons t.stages
      → ChangesStages t u
  unfolding update_stage
  update_stage-HasSingletons i label color h s =
      let (x, _, rest) = >>=-eq-ok (get_stage i t) (λ _. _) h in
      let (name, _, e) = >>=-eq-ok (checked_label python max_stage_label label) (λ _. _) rest in
      (
        _,
        sym (ok_inj e),
        SameLive-HasSingletons _ _ (update-SameLive i _ t.stages (λ _. refl) (λ _ _ _. refl)) s,
      )

  pub archive_stage-HasSingletons :
      (i : ℕ) → archive_stage i t ≡ ok u → HasSingletons t.stages → ChangesStages t u
  unfolding archive_stage get_stage
  archive_stage-HasSingletons i h s = elim (Option-cases (find stage_key i t.stages)) [
    | inl absent ↦ absurd (ground (arith, absent, h))
    | inr (x, here) ↦
        let plain : is_active_kind x.kind ≡ true = ground (arith, here, h) in
        let e : u ≡ record t {
          stages = update stage_key i (λ x. record x { is_archived = true }) t.stages;
        } =
          ground (arith, here, h) in
        (
          _,
          e,
          SameLive-HasSingletons _ _
              (update-SameLive i (λ x. record x { is_archived = true }) t.stages (λ _. refl)
                (λ y at single. absurd (ground (arith, here, at, plain, single))))
              s,
        )
  ]

  pub reorder_stages-HasSingletons :
      (ids : List ℕ) → reorder_stages ids t ≡ ok u → HasSingletons t.stages → ChangesStages t u
  unfolding reorder_stages
  reorder_stages-HasSingletons ids h s =
      let (_, _, e) =
        >>=-eq-ok (check_order ids (keep (λ (x : Stage). not x.is_archived) t.stages)) (λ _. _) h in
      (_, sym (ok_inj e), SameLive-HasSingletons _ _ (place_each-SameLive 0 ids t.stages) s)
