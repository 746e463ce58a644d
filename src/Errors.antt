-- ===== src/Errors.antt =====
-- api/app/errors.py: the errors that the services raise, and the results of fallible code. A
-- request that raises does not commit, so an error carries no state.
use configurable_crm.Prelude.{ℕ, String, List, [], ◌≡◌, refl, ap, arith, Bool, true, false}

-- The `code` strings of the error bodies that the modelled services raise.
pub data Code : Type 0 where
  resource_not_found member_exists seat_limit_reached reassignment_required : Code
  seat_limit_below_usage : Code
  invalid_reassignment_target invalid_manager manager_cycle : Code
  field_not_editable field_not_importable export_not_permitted : Code
  invalid_credentials invalid_token token_reuse_detected member_inactive no_license : Code
  already_undone nothing_to_undo undo_conflicts : Code
  stage_cardinality unknown_stage stage_not_reorderable invalid_label lost_reason_limit : Code
  system_disposition disposition_archived default_disposition : Code
  incomplete_order rule_not_found duplicate_rule invalid_rule_conditions : Code
  filter_too_deep filter_too_large score_out_of_range : Code
  group_not_found duplicate_group duplicate_member invalid_weight unknown_member : Code
  invalid_config no_leads too_many_leads no_leads_found no_candidates : Code
  invalid_values duplicate_identity no_identity_field lost_reason_required : Code
  identity_required label_limit duplicate_label label_archived : Code
  no_leads_selected bulk_limit_exceeded leads_not_found : Code
  -- An `IntegrityError` of the database, which no service translates.
  integrity_error : Code
  -- A `ValueError` or `TypeError` of Python, which no service translates.
  value_error : Code

-- `fields` is the extra detail of the field permission errors.
pub record ApiError : Type 0 where
  pub status_code : ℕ
  pub code : Code
  pub fields : List String

abbrev pub api_error : ℕ → Code → ApiError
api_error s c = record { status_code = s; code = c; fields = [] }

abbrev pub not_found : ApiError
not_found = api_error 404 resource_not_found

abbrev pub unauthorized : Code → ApiError
unauthorized c = api_error 401 c

abbrev pub forbidden : Code → ApiError
forbidden c = api_error 403 c

abbrev pub conflict : Code → ApiError
conflict c = api_error 409 c

abbrev pub unprocessable : Code → ApiError
unprocessable c = api_error 422 c

abbrev pub naming : List String → ApiError → ApiError
naming keys e = record e { fields = keys }

-- What a service returns, or the error that it raises.
pub data Result {ℓ} (Value : Type ℓ) : Type ℓ where
  ok : (value : Value) → Result Value
  raise : (error : ApiError) → Result Value

-- `if test: raise error`
abbrev pub raise_if : Bool → ApiError → Result (Unit {0})
raise_if test error = elim test [ true ↦ raise error | false ↦ ok tt ]

module _ {ℓ κ} {V : Type ℓ} {W : Type κ} where
  -- The code after a call runs on what the call returned, and not at all if it raised.
  infixl 5 ◌>>=◌
  abbrev pub ◌>>=◌ : (call : Result V) (after : V → Result W) → Result W
  raise error >>= after = raise error
  ok value >>= after = after value

  infixl 5 ◌>>◌
  abbrev pub ◌>>◌ : (call : Result V) (after : Result W) → Result W
  call >> after = call >>= λ ignored. after

  -- Inversion of a successful bind, for proofs where the parts stay shut.
  pub >>=-eq-ok :
      (call : Result V) (after : V → Result W) {w : W}
      → (call >>= after) ≡ ok w
      → (v : V) × (call ≡ ok v) × (after v ≡ ok w)
  >>=-eq-ok (raise error) after h = absurd (ground arith)
  >>=-eq-ok (ok value) after h = (value, refl, h)

pub ok_inj {ℓ} : {V : Type ℓ} {a b : V} → ok a ≡ ok b → a ≡ b
ok_inj {V = V} {a = a} h = ap (λ (r : Result V). elim r [ ok v ↦ v | raise e ↦ a ]) h

pub raise_if-passes : (b : Bool) (e : ApiError) (v : Unit {0}) → raise_if b e ≡ ok v → b ≡ false
raise_if-passes true e v h = absurd (ground (arith, h))
raise_if-passes false e v h = refl
