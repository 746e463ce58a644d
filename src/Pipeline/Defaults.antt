-- ===== src/Pipeline/Defaults.antt =====
-- The one default among the call dispositions.
use configurable_crm.Prelude.{
  ℕ, String, true, false, ◌&&◌, Option, none, some, List, [], ◌∷◌, ◌++◌, ◌≡◌, refl, sym, ◌∙◌, ap,
  inl, inr, map, count, count-append, arith, Option-cases, Bool-cases, if◌then◌else◌, ◌==◌, ==_iff,
}
use configurable_crm.Prelude.Table.{
  find, update, count-update, count-update_same, find-map, find-key, Distinct, update-Distinct,
  find-append,
}
use configurable_crm.Errors.{ok, raise_if, forbidden, system_disposition, >>=-eq-ok, ok_inj}
use configurable_crm.Pipeline.Rows.{CallDisposition}
use configurable_crm.Pipeline.Service.{Texts, Taxonomy, valid_label, checked_label, given}
use configurable_crm.Pipeline.Dispositions.{
  disposition_key, create_disposition, update_disposition, set_default, archive_disposition,
  clear_default, get_disposition,
}

-- The dispositions that are the default, and those that are although they are archived.
unfoldable pub defaults : List CallDisposition → ℕ
defaults ds = count (λ (x : CallDisposition). x.is_default) ds

unfoldable pub buried : List CallDisposition → ℕ
buried ds = count (λ (x : CallDisposition). x.is_default && x.is_archived) ds

-- Exactly one disposition is the default, and it is live; keys are distinct.
pub record HasDefault (ds : List CallDisposition) : Type 0 where
  pub one : defaults ds ≡ 1
  pub live : buried ds ≡ 0
  pub distinct : Distinct disposition_key ds

-- An update of other columns.
same-HasDefault :
    (i : ℕ) (f : CallDisposition → CallDisposition) (ds : List CallDisposition)
    → ((x : CallDisposition) → (f x).id ≡ x.id)
    → ((x : CallDisposition) → find disposition_key i ds ≡ some x → (f x).is_default ≡ x.is_default)
    → ((x : CallDisposition)
        → find disposition_key i ds ≡ some x
        → ((f x).is_default && (f x).is_archived) ≡ (x.is_default && x.is_archived))
    → HasDefault ds
    → HasDefault (update disposition_key i f ds)
unfolding defaults buried
same-HasDefault i f ds key same same' k = record {
  one =
      count-update_same disposition_key (λ (x : CallDisposition). x.is_default) i f ds same ∙ k.one;
  live =
      count-update_same disposition_key (λ (x : CallDisposition). x.is_default && x.is_archived) i f
        ds same'
      ∙ k.live;
  distinct = update-Distinct disposition_key i f ds (λ x e. key x ∙ e) k.distinct;
}

append-Distinct :
    (ds : List CallDisposition) (row : CallDisposition)
    → find disposition_key row.id ds ≡ none
    → Distinct disposition_key ds
    → Distinct disposition_key (ds ++ row ∷ [])
unfolding find
append-Distinct [] row fresh d = (refl, tt)
append-Distinct (x ∷ ds) row fresh (new, d) = elim (Bool-cases (x.id == row.id)) [
  | inl e ↦ absurd (ground (arith, e, fresh))
  | inr e ↦
      let apart : (row.id == x.id) ≡ false = ground (arith, e) in
      (
        ground (arith, new, apart, find-append disposition_key x.id ds row),
        append-Distinct ds row (ground (arith, e, fresh)) d,
      )
]

append-HasDefault :
    (ds : List CallDisposition) (row : CallDisposition)
    → row.is_default ≡ false
    → find disposition_key row.id ds ≡ none
    → HasDefault ds
    → HasDefault (ds ++ row ∷ [])
unfolding defaults buried
append-HasDefault ds row plain fresh k = record {
  one =
      ground (
        arith,
        plain,
        k.one,
        count-append {0} (λ (x : CallDisposition). x.is_default) ds (row ∷ []),
      );
  live = ground (
    arith,
    plain,
    k.live,
    count-append {0} (λ (x : CallDisposition). x.is_default && x.is_archived) ds (row ∷ []),
  );
  distinct = append-Distinct ds row fresh k.distinct;
}

-- After the other live defaults are cleared, only the chosen row can be a default.
cleared-absent :
    (i : ℕ) (ds : List CallDisposition)
    → find disposition_key i ds ≡ none
    → buried ds ≡ 0
    → defaults (map (clear_default i) ds) ≡ 0
unfolding defaults buried find
cleared-absent i [] absent none_buried = refl
cleared-absent i (x ∷ ds) absent none_buried = ground (arith, cleared-absent i ds)

cleared-one :
    (i : ℕ) (ds : List CallDisposition) (d : CallDisposition)
    → find disposition_key i ds ≡ some d
    → Distinct disposition_key ds
    → buried ds ≡ 0
    → defaults (map (clear_default i) ds) ≡ (if d.is_default then 1 else 0)
unfolding defaults buried find
cleared-one i [] d here distinct none_buried = absurd (ground arith)
cleared-one i (x ∷ ds) d here (fresh, distinct) none_buried = elim (Bool-cases (x.id == i)) [
  | inl e ↦
      let gone : find disposition_key i ds ≡ none =
        ap (λ k. find disposition_key k ds) (sym ((==_iff x.id i).0 e)) ∙ fresh in
      ground (arith, e, here, none_buried, cleared-absent i ds gone)
  | inr e ↦ ground (arith, e, here, none_buried, cleared-one i ds d)
]

cleared-buried :
    (i : ℕ) (ds : List CallDisposition) → buried ds ≡ 0 → buried (map (clear_default i) ds) ≡ 0
unfolding buried
cleared-buried i [] h = refl
cleared-buried i (x ∷ ds) h = ground (arith, cleared-buried i ds)

cleared-Distinct :
    (i : ℕ) (ds : List CallDisposition)
    → Distinct disposition_key ds
    → Distinct disposition_key (map (clear_default i) ds)
cleared-Distinct i [] d = tt
cleared-Distinct i (x ∷ ds) (fresh, d) =
    let key : (y : CallDisposition) → (clear_default i y).id ≡ y.id = λ y. ground arith in
    (
      ap (λ k. find disposition_key k (map (clear_default i) ds)) (key x)
          ∙ find-map disposition_key x.id (clear_default i) ds key
          ∙ ground (arith, fresh),
      cleared-Distinct i ds d,
    )

-- The default moves to a live row.
moved-HasDefault :
    (i : ℕ) (ds : List CallDisposition) (d : CallDisposition)
    → find disposition_key i ds ≡ some d
    → d.is_archived ≡ false
    → HasDefault ds
    → HasDefault
        (update disposition_key i (λ x. record x { is_default = true }) (map (clear_default i) ds))
unfolding defaults buried
moved-HasDefault i ds d here open_ k =
    let cleared = map (clear_default i) ds in
    let set : CallDisposition → CallDisposition = λ x. record x { is_default = true } in
    let key = find-key disposition_key i ds d here in
    let kept : clear_default i d ≡ d = ground (arith, key, (==_iff d.id i).1 key) in
    let there : find disposition_key i cleared ≡ some d =
      find-map disposition_key i (clear_default i) ds (λ y. ground arith)
      ∙ ground (arith, here, kept) in
    record {
      one = ground (
        arith,
        cleared-one i ds d here k.distinct k.live,
        count-update disposition_key (λ (x : CallDisposition). x.is_default) i set cleared d there,
      );
      live = ground (
        arith,
        open_,
        cleared-buried i ds k.live,
        count-update disposition_key (λ (x : CallDisposition). x.is_default && x.is_archived) i set
            cleared d there,
      );
      distinct =
          update-Distinct disposition_key i set cleared (λ _ e. e)
            (cleared-Distinct i ds k.distinct);
    }

-- The request changed this table alone, and the table is as it must be.
abbrev pub ChangesDispositions : Taxonomy → Taxonomy → Type 0
ChangesDispositions t u =
    (xs : List CallDisposition) × (u ≡ record t { dispositions = xs }) × HasDefault xs

module _ (python : Texts) (t u : Taxonomy) where
  pub create_disposition-HasDefault :
      (id : ℕ) (label : String)
      → create_disposition python id label t ≡ ok u
      → find disposition_key id t.dispositions ≡ none
      → HasDefault t.dispositions
      → ChangesDispositions t u
  unfolding create_disposition
  create_disposition-HasDefault id label h fresh k =
      let (name, _, e) = >>=-eq-ok (valid_label python 80 label) (λ _. _) h in
      (_, sym (ok_inj e), append-HasDefault t.dispositions _ refl fresh k)

  pub update_disposition-HasDefault :
      (i : ℕ) (label : Option String) (order : Option ℕ)
      → update_disposition python i label order t ≡ ok u
      → HasDefault t.dispositions
      → ChangesDispositions t u
  unfolding update_disposition
  update_disposition-HasDefault i label order h k =
      let (d, _, rest) = >>=-eq-ok (get_disposition i t) (λ _. _) h in
      let (_, _, more) =
        >>=-eq-ok (raise_if (d.is_system && given label) (forbidden system_disposition)) (λ _. _)
          rest in
      let (name, _, e) = >>=-eq-ok (checked_label python 80 label) (λ _. _) more in
      (
        _,
        sym (ok_inj e),
        same-HasDefault i _ t.dispositions (λ _. refl) (λ _ _. refl) (λ _ _. refl) k,
      )

  pub archive_disposition-HasDefault :
      (i : ℕ) → archive_disposition i t ≡ ok u → HasDefault t.dispositions → ChangesDispositions t u
  unfolding archive_disposition
  archive_disposition-HasDefault i h k =
      elim (Option-cases (find disposition_key i t.dispositions)) [
        | inl absent ↦ absurd (ground (arith, absent, h))
        | inr (d, here) ↦
            let plain : d.is_default ≡ false = ground (arith, here, h) in
            let f : CallDisposition → CallDisposition = λ x. record x { is_archived = true } in
            let e : u ≡ record t { dispositions = update disposition_key i f t.dispositions } =
              ground (arith, here, h) in
            (
              _,
              e,
              same-HasDefault i f t.dispositions (λ _. refl) (λ _ _. refl)
                  (λ x at. ground (arith, here, at, plain)) k,
            )
      ]

  pub set_default-HasDefault :
      (i : ℕ) → set_default i t ≡ ok u → HasDefault t.dispositions → ChangesDispositions t u
  unfolding set_default
  set_default-HasDefault i h k = elim (Option-cases (find disposition_key i t.dispositions)) [
    | inl absent ↦ absurd (ground (arith, absent, h))
    | inr (d, here) ↦
        let e : u ≡ record t {
          dispositions =
              update disposition_key i (λ x. record x { is_default = true })
                (map (clear_default i) t.dispositions);
        } =
          ground (arith, here, h) in
        (_, e, moved-HasDefault i t.dispositions d here (ground (arith, here, h)) k)
  ]
