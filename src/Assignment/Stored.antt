-- ===== src/Assignment/Stored.antt =====
-- A configuration as it is stored (api/app/services/assignment.py): what reading it again gives.
use configurable_crm.Prelude.{
  ℕ, Integer, from_zero, below, String, true, false, ◌&&◌, Option, none, some, List, [], ◌∷◌, ◌≡◌,
  refl, ap, inl, inr, arith, sym, ◌∙◌, Bool-cases, Option-cases, leb, if◌then◌else◌, map, All,
  str_eq,
}
use configurable_crm.Json.{
  Json, Items, Members, null, text, number, flag, array, object, nil, cons, end, member, get_member,
  truthy,
}
use configurable_crm.Errors.{
  ok, raise, unprocessable, api_error, invalid_config, value_error, ◌>>=◌, >>=-eq-ok, ok_inj,
}
use configurable_crm.Assignment.Rows.{
  AssignmentStrategy, round_robin, weighted, field_value, sales_group, fixed, unassigned, Config,
}
use configurable_crm.Assignment.Engine.{max_weight, pair_of, clamp_weight}
use configurable_crm.Assignment.Strategy.{
  Conversions, no_keys, listed, dict_members, if_true, id_at, ids_at, mapping_at, weight_at,
  clean_row, clean_members, weighted_config, ring_config, group_config, fixed_config, map_config,
  validate_strategy_config, id_text, id_items, row_items, map_members, dictionary_of,
}

-- Every pair is dealt as often as its weight says.
abbrev pub ExactWeights : List (ℕ × ℕ) → Type 0
ExactWeights pairs = All (λ (p : ℕ × ℕ). clamp_weight p.1 ≡ p.1) pairs

module _ (show : Json → String) (conv : Conversions) (show_text : (s : String) → show (text s) ≡ s)
    (int_number : (n : ℕ) → conv.int (number n) ≡ some (from_zero n))
    (id_again : (s : String) → conv.id_of (conv.text_of (conv.id_of s)) ≡ conv.id_of s)
    (id_given : (i : ℕ) → str_eq (conv.text_of i) "" ≡ false)
    (show_given : (v : Json) → truthy v ≡ true → str_eq (show v) "" ≡ false) where
  -- What was read as an identifier is read so again from the text that is stored.
  id_at-again :
      (v : Json) → id_at show conv (id_text show conv (id_at show conv v)) ≡ id_at show conv v
  id_at-again v = ap conv.id_of (show_text _) ∙ id_again (show v)

  ids_at-again :
      (items : Items)
      → ids_at show conv (id_items show conv (ids_at show conv items)) ≡ ids_at show conv items
  unfolding ids_at id_items
  ids_at-again nil = refl
  ids_at-again (cons v items) = rw (id_at-again v, ids_at-again items) refl

  mapping_at-again :
      (ms : Members)
      → mapping_at show conv (map_members show conv (mapping_at show conv ms))
        ≡ mapping_at show conv ms
  unfolding mapping_at map_members
  mapping_at-again end = refl
  mapping_at-again (member k v ms) = rw (id_at-again v, mapping_at-again ms) refl

  IsWeight : ℕ → Type 0
  IsWeight n = (leb 1 n && leb n max_weight) ≡ true

  weight_at-IsWeight : (o : Option Json) (n : ℕ) → weight_at show conv o ≡ ok n → IsWeight n
  unfolding weight_at IsWeight
  weight_at-IsWeight none n h = rw (← ok_inj h) refl
  weight_at-IsWeight (some v) n h = read (conv.int v) h
    where
      read :
          (o : Option Integer)
          → (elim o [
            | none ↦ raise (api_error 500 value_error)
            | some (below m) ↦ raise (unprocessable invalid_config)
            | some (from_zero m) ↦
                if leb 1 m && leb m max_weight then ok m else raise (unprocessable invalid_config)
          ])
            ≡ ok n
          → (leb 1 n && leb n max_weight) ≡ true
      read none e = absurd (ground (arith, e))
      read (some (below m)) e = absurd (ground (arith, e))
      read (some (from_zero m)) e = elim (Bool-cases (leb 1 m && leb m max_weight)) [
        | inl fits ↦ let same : ok m ≡ ok n = ground (arith, fits, e) in rw (← ok_inj same) fits
        | inr off ↦ absurd (ground (arith, off, e))
      ]

  weight_at-again : (n : ℕ) → IsWeight n → weight_at show conv (some (number n)) ≡ ok n
  unfolding weight_at IsWeight
  weight_at-again n fits = rw (weight_at, int_number n, fits) refl

  -- A cleaned row: an identifier that was read, and a weight within the bounds.
  IsRow : ℕ × Option ℕ → Type 0
  IsRow p = (v : Json) × (n : ℕ) × (p ≡ (id_at show conv v, some n)) × IsWeight n

  clean_row-IsRow : (row : Json) (p : ℕ × Option ℕ) → clean_row show conv row ≡ ok p → IsRow p
  unfolding clean_row IsRow
  clean_row-IsRow (object ms) p h = elim (Option-cases (get_member "membership_id" ms)) [
    | inl e ↦ absurd (ground (arith, e, h))
    | inr (m, e) ↦
        let run : (weight_at show conv (get_member "weight" ms) >>= λ n.
        ok (id_at show conv m, some n))
            ≡ ok p =
          ground (arith, e, h) in
        let (n, weighed, e') =
          >>=-eq-ok (weight_at show conv (get_member "weight" ms)) (λ _. _) run in
        (m, n, sym (ok_inj e'), weight_at-IsWeight (get_member "weight" ms) n weighed)
  ]
  clean_row-IsRow null p h = absurd (ground (arith, h))
  clean_row-IsRow (text s) p h = absurd (ground (arith, h))
  clean_row-IsRow (number n) p h = absurd (ground (arith, h))
  clean_row-IsRow (flag b) p h = absurd (ground (arith, h))
  clean_row-IsRow (array vs) p h = absurd (ground (arith, h))

  clean_members-again :
      (items : Items) (ns : List (ℕ × Option ℕ))
      → clean_members show conv items ≡ ok ns
      → (clean_members show conv (row_items show conv ns) ≡ ok ns) × ExactWeights (map pair_of ns)
  unfolding clean_members row_items IsRow IsWeight
  clean_members-again nil ns h = rw (← ok_inj h) (refl, tt)
  clean_members-again (cons row items) ns h =
      let (p, cleaned, h1) = >>=-eq-ok (clean_row show conv row) (λ _. _) h in
      let (more, rest, e) = >>=-eq-ok (clean_members show conv items) (λ _. _) h1 in
      let (again, exact) = clean_members-again items more rest in
      let (v, n, is, fits) = clean_row-IsRow row p cleaned in
      rw (← ok_inj e) (
        rw is (
          rw (clean_row, weight_at-again n fits, id_at-again v, again) refl,
          (ground (arith, fits), exact),
        ))

  rows_again :
      (ns : List (ℕ × Option ℕ)) (p : ℕ × Option ℕ) (more : List (ℕ × Option ℕ))
      → p ∷ more ≡ ns
      → clean_members show conv (row_items show conv ns) ≡ ok ns
      → weighted_config show conv (row_items show conv ns) ≡ ok (record no_keys { members = ns })
  unfolding weighted_config row_items
  rows_again [] p more e h = absurd (ground (arith, e))
  rows_again (n ∷ ns) p more e h =
      ap (λ r. r >>= λ cleaned. ok (record no_keys { members = cleaned })) h

  weighted_config-again :
      (items : Items) (stored : Config)
      → weighted_config show conv items ≡ ok stored
      → (weighted_config show conv (row_items show conv stored.members) ≡ ok stored)
        × ExactWeights (map pair_of stored.members)
  unfolding weighted_config clean_members
  weighted_config-again nil stored h = absurd (ground (arith, h))
  weighted_config-again (cons row items) stored h =
      let (ns, cleaned, e) = >>=-eq-ok (clean_members show conv (cons row items)) (λ _. _) h in
      let (p, _, h1) = >>=-eq-ok (clean_row show conv row) (λ _. _) cleaned in
      let (more, _, whole) = >>=-eq-ok (clean_members show conv items) (λ _. _) h1 in
      let (again, exact) = clean_members-again (cons row items) ns cleaned in
      rw (← ok_inj e) (rows_again ns p more (ok_inj whole) again, exact)

  ring_config-again :
      (items : Items) (stored : Config)
      → ring_config show conv items ≡ ok stored
      → (ring_config show conv (id_items show conv stored.membership_ids) ≡ ok stored)
        × ExactWeights (map pair_of stored.members)
  unfolding ring_config ids_at id_items
  ring_config-again nil stored h = absurd (ground (arith, h))
  ring_config-again (cons v items) stored h =
      rw (← ok_inj h) (rw (id_at-again v, ids_at-again items) refl, tt)

  group_config-again :
      (o : Option Json) (stored : Config)
      → group_config show conv o ≡ ok stored
      → (validate_strategy_config show conv sales_group (dictionary_of show conv sales_group stored)
          ≡ ok stored)
        × ExactWeights (map pair_of stored.members)
  unfolding group_config validate_strategy_config dictionary_of get_member if_true
  group_config-again none stored h = absurd (ground (arith, h))
  group_config-again (some v) stored h =
      rw (← ok_inj h) (rw (id_given (id_at show conv v), id_at-again v) refl, tt)

  fixed_config-again :
      (o : Option Json) (stored : Config)
      → fixed_config show conv o ≡ ok stored
      → (validate_strategy_config show conv fixed (dictionary_of show conv fixed stored)
          ≡ ok stored)
        × ExactWeights (map pair_of stored.members)
  unfolding fixed_config validate_strategy_config dictionary_of get_member if_true
  fixed_config-again none stored h = absurd (ground (arith, h))
  fixed_config-again (some v) stored h =
      rw (← ok_inj h) (rw (id_given (id_at show conv v), id_at-again v) refl, tt)

  if_true-truthy : (k : Json) → truthy k ≡ true → if_true (some k) ≡ some k
  unfolding if_true
  if_true-truthy k e = rw e refl

  mapped_again :
      (k : Json) (j : String) (v : Json) (ms : Members) (fallback : Option Json)
      → truthy k ≡ true
      → (stored : Config) → map_config show conv (some k) (member j v ms) fallback ≡ ok stored
      → (validate_strategy_config show conv field_value (dictionary_of show conv field_value stored)
          ≡ ok stored)
        × ExactWeights (map pair_of stored.members)
  unfolding map_config validate_strategy_config dictionary_of get_member if_true mapping_at
      map_members
  mapped_again k j v ms none e stored h =
      rw (← ok_inj h)
        (rw (show_given k e, show_text (show k), id_at-again v, mapping_at-again ms) refl, tt)
  mapped_again k j v ms (some f) e stored h = rw (← ok_inj h) (
    rw
        (
          show_given k e,
          show_text (show k),
          id_at-again v,
          mapping_at-again ms,
          id_given (id_at show conv f),
          id_at-again f,
        )
        refl,
    tt,
  )

  map_config-again :
      (key : Option Json) (ms : Members) (fallback : Option Json) (stored : Config)
      → map_config show conv (if_true key) ms fallback ≡ ok stored
      → (validate_strategy_config show conv field_value (dictionary_of show conv field_value stored)
          ≡ ok stored)
        × ExactWeights (map pair_of stored.members)
  unfolding map_config validate_strategy_config dictionary_of get_member if_true mapping_at
      map_members
  map_config-again none ms fallback stored h = absurd (ground (arith, h))
  map_config-again (some k) end fallback stored h = elim (Bool-cases (truthy k)) [
    | inl e ↦ absurd (ground (arith, e, h))
    | inr e ↦ absurd (ground (arith, e, h))
  ]
  map_config-again (some k) (member j v ms) fallback stored h = elim (Bool-cases (truthy k)) [
    | inl e ↦
        mapped_again k j v ms fallback e stored
          (sym (ap (λ o. map_config show conv o (member j v ms) fallback) (if_true-truthy k e)) ∙ h)
    | inr e ↦ absurd (ground (arith, e, h))
  ]

  -- If `str` keeps a text and makes a text of a true value that is not empty, `int` keeps a number, and an
  -- identifier is read again from its text, which is not empty: a configuration that is accepted is
  -- accepted again as the dictionary that is stored for it, with the same result, and lists members with
  -- weights that the deal list takes as they are.
  pub validate_strategy_config-stable :
      (s : AssignmentStrategy) (c : Members) (stored : Config)
      → validate_strategy_config show conv s c ≡ ok stored
      → (validate_strategy_config show conv s (dictionary_of show conv s stored) ≡ ok stored)
        × ExactWeights (map pair_of stored.members)
  unfolding validate_strategy_config dictionary_of get_member
  validate_strategy_config-stable round_robin c stored h =
      ring_config-again (listed (get_member "membership_ids" c)) stored h
  validate_strategy_config-stable weighted c stored h =
      weighted_config-again (listed (get_member "members" c)) stored h
  validate_strategy_config-stable sales_group c stored h =
      group_config-again (if_true (get_member "group_id" c)) stored h
  validate_strategy_config-stable field_value c stored h =
      map_config-again (get_member "field_key" c) (dict_members (get_member "map" c))
        (if_true (get_member "fallback" c)) stored h
  validate_strategy_config-stable fixed c stored h =
      fixed_config-again (if_true (get_member "membership_id" c)) stored h
  validate_strategy_config-stable unassigned c stored h = rw (← ok_inj h) (refl, tt)
