-- ===== src/Pipeline/Limits.antt =====
-- The limit of lost reasons, and the codes of custom action types.
use configurable_crm.Prelude.{
  ℕ, ◌≤◌, ◌<◌, String, Bool, true, false, not, Option, none, List, [], ◌∷◌, ◌++◌, ◌≡◌, refl, sym,
  ◌∙◌, ap, inl, inr, keep, count, count-append, length, length-keep, arith, Option-cases,
  Bool-cases, if◌then◌else◌, ◌==◌, leb, Integer,
}
use configurable_crm.Prelude.Table.{find, update, count-update_same, find-append}
use configurable_crm.Errors.{
  ok, raise_if, conflict, unprocessable, lost_reason_limit, score_out_of_range, >>=-eq-ok, ok_inj,
}
use configurable_crm.Pipeline.Rows.{LostReason, CustomActionType, ActionField, ActionDirection}
use configurable_crm.Pipeline.Service.{Texts, Taxonomy, valid_label, checked_label, or_keep}
use configurable_crm.Pipeline.Reasons.{
  reason_key, create_lost_reason, update_lost_reason, archive_lost_reason, get_lost_reason,
  max_lost_reasons,
}
use configurable_crm.Pipeline.ActionTypes.{
  type_key, create_type, update_type, archive_type, get_type, next_code, in_score_range,
  score_allowed,
}

unfoldable pub live_reasons : List LostReason → ℕ
live_reasons rs = count (λ (x : LostReason). not x.is_archived) rs

abbrev pub WithinLimit : List LostReason → Type 0
WithinLimit rs = live_reasons rs ≤ 25

-- Codes are looked up like keys: no two types share one, and all are above 1000.
abbrev pub code_key : CustomActionType → ℕ
code_key x = x.code

abbrev pub HasCodes : List CustomActionType → Type 0
HasCodes [] = Unit
HasCodes (x ∷ xs) = (1001 ≤ x.code) × (find code_key x.code xs ≡ none) × HasCodes xs

archived-le :
    (i : ℕ) (rs : List LostReason)
    → live_reasons (update reason_key i (λ x. record x { is_archived = true }) rs) ≤ live_reasons rs
unfolding live_reasons update
archived-le i [] = omega arith
archived-le i (x ∷ rs) = ground (arith, archived-le i rs)

-- The request changed this table alone, and the table is as it must be.
abbrev pub ChangesReasons : Taxonomy → Taxonomy → Type 0
ChangesReasons t u = (xs : List LostReason) × (u ≡ record t { lost_reasons = xs }) × WithinLimit xs

-- Custom action types change with their forms.
abbrev pub ChangesTypes : Taxonomy → Taxonomy → Type 0
ChangesTypes t u =
    (xs : List CustomActionType) × (fs : List ActionField) × (u
      ≡ record t { action_types = xs; action_fields = fs })
    × HasCodes xs

module _ (python : Texts) (t u : Taxonomy) where
  pub create_lost_reason-WithinLimit :
      (id : ℕ) (label : String) → create_lost_reason python id label t ≡ ok u → ChangesReasons t u
  unfolding create_lost_reason live_reasons
  create_lost_reason-WithinLimit id label h =
      let live = keep (λ (x : LostReason). not x.is_archived) t.lost_reasons in
      let (name, _, rest) = >>=-eq-ok (valid_label python 80 label) (λ _. _) h in
      let (_, room, e) =
        >>=-eq-ok (raise_if (leb max_lost_reasons (length live)) (conflict lost_reason_limit))
          (λ _. _) rest in
      let size = length-keep (λ (x : LostReason). not x.is_archived) t.lost_reasons in
      let fits : length live < 25 = ground (arith, room) in
      let added = λ (row : LostReason).
        count-append {0} (λ (x : LostReason). not x.is_archived) t.lost_reasons (row ∷ []) in
      (_, sym (ok_inj e), omega (arith, added _, size, fits))

  pub update_lost_reason-WithinLimit :
      (i : ℕ) (label : Option String) (order : Option ℕ)
      → update_lost_reason python i label order t ≡ ok u
      → WithinLimit t.lost_reasons
      → ChangesReasons t u
  unfolding update_lost_reason live_reasons
  update_lost_reason-WithinLimit i label order h w =
      let (r, _, rest) = >>=-eq-ok (get_lost_reason i t) (λ _. _) h in
      let (name, _, e) = >>=-eq-ok (checked_label python 80 label) (λ _. _) rest in
      let f : LostReason → LostReason =
        λ x. record x { label = or_keep name x.label; sort_order = or_keep order x.sort_order } in
      let same =
        count-update_same reason_key (λ (x : LostReason). not x.is_archived) i f t.lost_reasons
          (λ _ _. refl) in
      (_, sym (ok_inj e), omega (arith, same, w))

  pub archive_lost_reason-WithinLimit :
      (i : ℕ) → archive_lost_reason i t ≡ ok u → WithinLimit t.lost_reasons → ChangesReasons t u
  unfolding archive_lost_reason
  archive_lost_reason-WithinLimit i h w = elim (Option-cases (find reason_key i t.lost_reasons)) [
    | inl absent ↦ absurd (ground (arith, absent, h))
    | inr (r, here) ↦
        let e : u ≡ record t {
          lost_reasons = update reason_key i (λ x. record x { is_archived = true }) t.lost_reasons;
        } =
          ground (arith, here, h) in
        (_, e, omega (arith, w, archived-le i t.lost_reasons))
  ]

-- A key above all codes is not found.
next_code-above :
    (python : Texts) (n : ℕ) (xs : List CustomActionType)
    → next_code xs ≤ n
    → find code_key n xs ≡ none
unfolding next_code find
next_code-above python n [] h = refl
next_code-above python n (x ∷ []) h = ground arith
next_code-above python n (x ∷ y ∷ ys) h =
    ground (arith, next_code-above python n (y ∷ ys) (omega arith))

HasCodes-next : (xs : List CustomActionType) → HasCodes xs → 1001 ≤ next_code xs
unfolding next_code
HasCodes-next [] h = omega arith
HasCodes-next (x ∷ []) (low, _, _) = omega arith
HasCodes-next (x ∷ y ∷ ys) (low, _, h) = omega (arith, HasCodes-next (y ∷ ys) h)

append-HasCodes :
    (xs : List CustomActionType) (row : CustomActionType)
    → 1001 ≤ row.code
    → find code_key row.code xs ≡ none
    → HasCodes xs
    → HasCodes (xs ++ row ∷ [])
unfolding find
append-HasCodes [] row low fresh h = (low, refl, tt)
append-HasCodes (x ∷ xs) row low fresh (l, new, h) = elim (Bool-cases (x.code == row.code)) [
  | inl e ↦ absurd (ground (arith, e, fresh))
  | inr e ↦
      let apart : (row.code == x.code) ≡ false = ground (arith, e) in
      (
        l,
        ground (arith, new, apart, find-append code_key x.code xs row),
        append-HasCodes xs row low (ground (arith, e, fresh)) h,
      )
]

find_code-update :
    (i n : ℕ) (f : CustomActionType → CustomActionType) (xs : List CustomActionType)
    → ((x : CustomActionType) → (f x).code ≡ x.code)
    → find code_key n xs ≡ none
    → find code_key n (update type_key i f xs) ≡ none
unfolding find update
find_code-update i n f [] same h = refl
find_code-update i n f (x ∷ xs) same h = ground (arith, same x, find_code-update i n f xs same)

HasCodes-if :
    (b : Bool) (xs ys : List CustomActionType)
    → (b ≡ true → HasCodes xs)
    → (b ≡ false → HasCodes ys)
    → HasCodes (if b then xs else ys)
HasCodes-if true xs ys h k = h refl
HasCodes-if false xs ys h k = k refl

update-HasCodes :
    (i : ℕ) (f : CustomActionType → CustomActionType) (xs : List CustomActionType)
    → ((x : CustomActionType) → (f x).code ≡ x.code)
    → HasCodes xs
    → HasCodes (update type_key i f xs)
unfolding update
update-HasCodes i f [] same h = tt
update-HasCodes i f (x ∷ xs) same (low, new, h) =
    HasCodes-if (x.id == i) (f x ∷ xs) (x ∷ update type_key i f xs)
      (λ _. (ground (arith, same x, low), ap (λ n. find code_key n xs) (same x) ∙ new, h))
      (λ _. (low, find_code-update i x.code f xs same new, update-HasCodes i f xs same h))

module _ (python : Texts) (t u : Taxonomy) where
  pub create_type-HasCodes :
      (id : ℕ) (name : String) (icon : Option String) (score : Integer)
      (direction : ActionDirection) (description : Option String) (predated : Bool)
      → create_type python id name icon score direction description predated t ≡ ok u
      → HasCodes t.action_types
      → ChangesTypes t u
  unfolding create_type
  create_type-HasCodes id name icon score direction description predated h k =
      let (label, _, rest) = >>=-eq-ok (valid_label python 80 name) (λ _. _) h in
      let (_, _, e) =
        >>=-eq-ok (raise_if (not (in_score_range score)) (unprocessable score_out_of_range))
          (λ _. _) rest in
      let n = next_code t.action_types in
      (
        _,
        _,
        sym (ok_inj e),
        append-HasCodes t.action_types _ (HasCodes-next t.action_types k)
            (next_code-above python n t.action_types (omega arith)) k,
      )

  pub update_type-HasCodes :
      (i : ℕ) (name icon : Option String) (score : Option Integer)
      (direction : Option ActionDirection) (description : Option String) (predated : Option Bool)
      → update_type python i name icon score direction description predated t ≡ ok u
      → HasCodes t.action_types
      → ChangesTypes t u
  unfolding update_type
  update_type-HasCodes i name icon score direction description predated h k =
      let (x, _, rest) = >>=-eq-ok (get_type i t) (λ _. _) h in
      let (label, _, more) = >>=-eq-ok (checked_label python 80 name) (λ _. _) rest in
      let (_, _, e) =
        >>=-eq-ok (raise_if (not (score_allowed score)) (unprocessable score_out_of_range)) (λ _. _)
          more in
      (_, _, sym (ok_inj e), update-HasCodes i _ t.action_types (λ _. refl) k)

  pub archive_type-HasCodes :
      (i : ℕ) → archive_type i t ≡ ok u → HasCodes t.action_types → ChangesTypes t u
  unfolding archive_type
  archive_type-HasCodes i h k = elim (Option-cases (find type_key i t.action_types)) [
    | inl absent ↦ absurd (ground (arith, absent, h))
    | inr (x, here) ↦
        let f : CustomActionType → CustomActionType = λ x. record x { is_archived = true } in
        let e : u ≡ record t { action_types = update type_key i f t.action_types } =
          ground (arith, here, h) in
        (_, _, e, update-HasCodes i f t.action_types (λ _. refl) k)
  ]
