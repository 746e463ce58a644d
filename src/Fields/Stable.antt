-- ===== src/Fields/Stable.antt =====
-- The normalisers of api/app/fields/registry.py, run on what they store.
use mathlib.Core.List.{append_assoc, append-nil}
use configurable_crm.Prelude.{
  String, Bool, true, false, Option, none, some, List, [], ◌∷◌, ◌++◌, ◌≡◌, refl, sym, ◌∙◌, ap,
  arith, inl, inr, str_eq, eq_iff, has, All, Bool-cases, Option-cases,
}
use configurable_crm.Json.{
  Json, get_member, null, text, number, flag, array, object, Items, nil, cons, end, member,
}
use configurable_crm.Fields.Normalise.{
  FieldType, text_type, checkbox, dropdown, tags, dependent_dropdown, normalise_as, Texts, Context,
  blank_to_none, require_str, norm_text, is_yes, is_no, norm_checkbox, is_unknown, norm_dropdown,
  collect, items_of, texts_of, tags_or_none, norm_tags, selected_of, claimed_of, actual_parent,
  agrees, parent_and_value, norm_selected, norm_dependent_dropdown,
}

some_inj {ℓ} : {A : Type ℓ} {a b : A} → some a ≡ some b → a ≡ b
some_inj {a = a} h = ap (λ o. elim o [ some x ↦ x | none ↦ a ]) h

module _ (texts : Texts)
    (strip_idem : (s : String) → texts.strip (texts.strip s) ≡ texts.strip s) where
  norm_text-stable : (v w : Option Json) → norm_text texts v ≡ some w → norm_text texts w ≡ some w
  unfolding norm_text blank_to_none require_str
  norm_text-stable none w h = ground (arith, h)
  norm_text-stable (some null) w h = ground (arith, h)
  norm_text-stable (some (text s)) w h = ground (arith, h, strip_idem s)
  norm_text-stable (some (number n)) w h = absurd (ground (arith, h))
  norm_text-stable (some (flag b)) w h = absurd (ground (arith, h))
  norm_text-stable (some (array nil)) w h = ground (arith, h)
  norm_text-stable (some (array (cons v vs))) w h = absurd (ground (arith, h))
  norm_text-stable (some (object end)) w h = ground (arith, h)
  norm_text-stable (some (object (member k v vs))) w h = absurd (ground (arith, h))

  flag-stable :
      (b : Bool) (w : Option Json) → some (some (flag b)) ≡ some w → norm_checkbox texts w ≡ some w
  unfolding norm_checkbox
  flag-stable b w h = ground (arith, h)

  norm_checkbox-stable :
      (v w : Option Json) → norm_checkbox texts v ≡ some w → norm_checkbox texts w ≡ some w
  unfolding norm_checkbox
  norm_checkbox-stable none w h = ground (arith, h)
  norm_checkbox-stable (some null) w h = ground (arith, h)
  norm_checkbox-stable (some (text s)) w h =
      let lowered = texts.lower (texts.strip s) in
      elim (Bool-cases (str_eq s "")) [
        | inl blank ↦
            let same : some none ≡ some w = ground (arith, blank, h) in ground (arith, same)
        | inr given ↦ elim (Bool-cases (is_yes lowered)) [
          | inl e ↦ flag-stable true w (ground (arith, given, e, h))
          | inr e ↦ elim (Bool-cases (is_no lowered)) [
            | inl f ↦ flag-stable false w (ground (arith, given, e, f, h))
            | inr f ↦ absurd (ground (arith, given, e, f, h))
          ]
        ]
      ]
  norm_checkbox-stable (some (number n)) w h = ground (arith, h)
  norm_checkbox-stable (some (flag b)) w h = ground (arith, h)
  norm_checkbox-stable (some (array vs)) w h = absurd (ground (arith, h))
  norm_checkbox-stable (some (object vs)) w h = absurd (ground (arith, h))

  module _ (ctx : Context) where
    norm_dropdown-stable :
        (v w : Option Json)
        → norm_dropdown texts ctx v ≡ some w
        → norm_dropdown texts ctx w ≡ some w
    unfolding norm_dropdown blank_to_none require_str
    norm_dropdown-stable none w h = ground (arith, h)
    norm_dropdown-stable (some null) w h = ground (arith, h)
    norm_dropdown-stable (some (text s)) w h = ground (arith, h, strip_idem s)
    norm_dropdown-stable (some (number n)) w h = absurd (ground (arith, h))
    norm_dropdown-stable (some (flag b)) w h = absurd (ground (arith, h))
    norm_dropdown-stable (some (array nil)) w h = ground (arith, h)
    norm_dropdown-stable (some (array (cons v vs))) w h = absurd (ground (arith, h))
    norm_dropdown-stable (some (object end)) w h = ground (arith, h)
    norm_dropdown-stable (some (object (member k v vs))) w h = absurd (ground (arith, h))

    abbrev Fits : String → Type 0
    Fits c = (texts.strip c ≡ c) × (str_eq c "" ≡ false) × (is_unknown texts ctx c ≡ false)

    NoRepeat : List String → List String → Type 0
    NoRepeat codes [] = Unit
    NoRepeat codes (c ∷ more) = (has codes c ≡ false) × NoRepeat (codes ++ c ∷ []) more

    collect-Fits :
        (codes : List String) (items : Items) (out : List String)
        → collect texts ctx codes items ≡ some out
        → (more : List String) × (out ≡ codes ++ more) × All Fits more × NoRepeat codes more
    unfolding collect require_str NoRepeat
    collect-Fits codes nil out h = ([], ground (arith, h, append-nil codes), tt, tt)
    collect-Fits codes (cons (text s) items) out h = elim (Bool-cases (str_eq (texts.strip s) "")) [
      | inl blank ↦ collect-Fits codes items out (ground (arith, blank, h))
      | inr given ↦ elim (Bool-cases (is_unknown texts ctx (texts.strip s))) [
        | inl unknown ↦ absurd (ground (arith, given, unknown, h))
        | inr known ↦ elim (Bool-cases (has codes (texts.strip s))) [
          | inl twice ↦ collect-Fits codes items out (ground (arith, given, known, twice, h))
          | inr once ↦
              let (more, e, fit, fresh) =
                collect-Fits (codes ++ texts.strip s ∷ []) items out
                  (ground (arith, given, known, once, h)) in
              (
                texts.strip s ∷ more,
                e ∙ append_assoc codes (texts.strip s ∷ []) more,
                ((strip_idem s, given, known), fit),
                (once, fresh),
              )
        ]
      ]
    ]
    collect-Fits codes (cons null items) out h = absurd (ground (arith, h))
    collect-Fits codes (cons (number n) items) out h = absurd (ground (arith, h))
    collect-Fits codes (cons (flag b) items) out h = absurd (ground (arith, h))
    collect-Fits codes (cons (array vs) items) out h = absurd (ground (arith, h))
    collect-Fits codes (cons (object vs) items) out h = absurd (ground (arith, h))

    collect-texts_of :
        (codes more : List String)
        → All Fits more
        → NoRepeat codes more
        → collect texts ctx codes (texts_of texts ctx more) ≡ some (codes ++ more)
    unfolding collect require_str NoRepeat texts_of
    collect-texts_of codes [] fit fresh = ap some (sym (append-nil codes))
    collect-texts_of codes (c ∷ more) ((stripped, given, known), fit) (once, fresh) =
        rw (stripped, given, known, once, collect-texts_of (codes ++ c ∷ []) more fit fresh)
          (ap some (append_assoc codes (c ∷ []) more))

    tags-stable :
        (codes : List String) (w : Option Json)
        → All Fits codes
        → NoRepeat [] codes
        → some (tags_or_none texts ctx codes) ≡ some w
        → norm_tags texts ctx w ≡ some w
    unfolding norm_tags blank_to_none texts_of
    tags-stable [] w fit fresh h = ground (arith, h)
    tags-stable (c ∷ codes) w fit fresh h =
        ground (arith, h, collect-texts_of [] (c ∷ codes) fit fresh)

    norm_tags-stable :
        (v w : Option Json) → norm_tags texts ctx v ≡ some w → norm_tags texts ctx w ≡ some w
    unfolding norm_tags NoRepeat
    norm_tags-stable v w h = elim (Option-cases (blank_to_none texts v)) [
      | inl blank ↦ tags-stable [] w tt tt (ground (arith, blank, h))
      | inr (x, given) ↦ elim (Option-cases (collect texts ctx [] (items_of texts ctx x))) [
        | inl bad ↦ absurd (ground (arith, given, bad, h))
        | inr (codes, good) ↦
            let (more, e, fit, fresh) = collect-Fits [] (items_of texts ctx x) codes good in
            tags-stable more w fit fresh (ground (arith, given, good, e, h))
      ]
    ]

    module _
        (parents_stripped : (code p : String)
          → actual_parent texts ctx code ≡ some p
          → texts.strip p ≡ p) where
      parent_and_value-stable :
          (code : String) (actual : Option String)
          → actual_parent texts ctx code ≡ actual
          → Fits code
          → norm_dependent_dropdown texts ctx (some (parent_and_value texts ctx actual code))
            ≡ some (some (parent_and_value texts ctx actual code))
      unfolding norm_dependent_dropdown norm_selected blank_to_none require_str get_member agrees
      parent_and_value-stable code none e (stripped, given, known) =
          rw (norm_selected, stripped, given, stripped, known, e) refl
      parent_and_value-stable code (some p) e (stripped, given, known) =
          rw
            (
              norm_selected,
              stripped,
              given,
              stripped,
              known,
              e,
              parents_stripped code p e,
              (eq_iff p p).1 refl,
            )
            refl

      norm_selected-stable :
          (selected claimed w : Option Json)
          → norm_selected texts ctx selected claimed ≡ some w
          → norm_dependent_dropdown texts ctx w ≡ some w
      unfolding norm_selected norm_dependent_dropdown blank_to_none require_str
      norm_selected-stable none claimed w h =
          let same : some none ≡ some w = h in ground (arith, same)
      norm_selected-stable (some null) claimed w h = ground (arith, h)
      norm_selected-stable (some (text s)) claimed w h =
          let code = texts.strip s in
          let actual = actual_parent texts ctx code in
          elim (Bool-cases (str_eq code "")) [
            | inl blank ↦
                let same : some none ≡ some w = ground (arith, blank, h) in ground (arith, same)
            | inr given ↦ elim (Bool-cases (is_unknown texts ctx code)) [
              | inl unknown ↦ absurd (ground (arith, given, unknown, h))
              | inr known ↦ elim (Bool-cases (agrees texts ctx claimed actual)) [
                | inl fine ↦
                    let same : some (some (parent_and_value texts ctx actual code)) ≡ some w =
                      ground (arith, given, known, fine, h) in
                    rw (← some_inj same)
                      (parent_and_value-stable code actual refl (strip_idem s, given, known))
                | inr wrong ↦ absurd (ground (arith, given, known, wrong, h))
              ]
            ]
          ]
      norm_selected-stable (some (number n)) claimed w h = absurd (ground (arith, h))
      norm_selected-stable (some (flag b)) claimed w h = absurd (ground (arith, h))
      norm_selected-stable (some (array nil)) claimed w h = ground (arith, h)
      norm_selected-stable (some (array (cons x xs))) claimed w h = absurd (ground (arith, h))
      norm_selected-stable (some (object end)) claimed w h = ground (arith, h)
      norm_selected-stable (some (object (member k x xs))) claimed w h = absurd (ground (arith, h))

      norm_dependent_dropdown-stable :
          (v w : Option Json)
          → norm_dependent_dropdown texts ctx v ≡ some w
          → norm_dependent_dropdown texts ctx w ≡ some w
      unfolding norm_dependent_dropdown blank_to_none
      norm_dependent_dropdown-stable v w h = elim (Option-cases (blank_to_none texts v)) [
        | inl blank ↦
            let same : some none ≡ some w = ground (arith, blank, h) in ground (arith, same)
        | inr (x, given) ↦
            norm_selected-stable (selected_of texts ctx x) (claimed_of texts ctx x) w
              (ground (arith, given, h))
      ]

      -- If stripping a stripped text changes nothing, and neither does stripping the parents of the
      -- options, then a value that a field of type TEXT, CHECKBOX, DROPDOWN, TAGS or DEPENDENT_DROPDOWN
      -- stores is accepted again by the same type, and stored as it is.
      pub normalise_as-stable :
          (f : FieldType) (v w : Option Json)
          → normalise_as texts ctx f v ≡ some w
          → normalise_as texts ctx f w ≡ some w
      unfolding normalise_as
      normalise_as-stable text_type v w h = norm_text-stable v w h
      normalise_as-stable checkbox v w h = norm_checkbox-stable v w h
      normalise_as-stable dropdown v w h = norm_dropdown-stable v w h
      normalise_as-stable tags v w h = norm_tags-stable v w h
      normalise_as-stable dependent_dropdown v w h = norm_dependent_dropdown-stable v w h
