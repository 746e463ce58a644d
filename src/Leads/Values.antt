-- ===== src/Leads/Values.antt =====
-- `ValueValidator.validate` (api/app/fields/values.py). A raw value is `none` where the payload has null.
use configurable_crm.Prelude.{
  String, Bool, true, false, not, ◌&&◌, Option, none, some, List, [], ◌∷◌, str_eq, ◌++◌, map, keep,
  get_key, has, if◌then◌else◌,
}
use configurable_crm.Json.{Json}
use configurable_crm.Errors.{Result, ok, raise, unprocessable, naming, invalid_values}

-- The columns of `LeadField` that a write reads.
pub record LeadField : Type 0 where
  pub key : String
  pub label : String
  pub is_hidden : Bool
  pub is_required : Bool
  pub lock_after_create : Bool

abbrev pub Payload : Type 0
Payload = List (String × Option Json)

-- The registry's normalisers, `none` for a `FieldValueError`, and the resolution of variables.
pub record Registry : Type 0 where
  pub normalise : LeadField → Option Json → Option (Option Json)
  pub resolve_variables : Payload → Payload

unfoldable pub field_of : String → List LeadField → Option LeadField
field_of k [] = none
field_of k (f ∷ fs) = if str_eq f.key k then some f else field_of k fs

abbrev pub is_given : Option Json → Bool
is_given none = false
is_given (some v) = true

module _ (registry : Registry) (fields : List LeadField) where
  -- The body of the loop: the value to store, or `none` for an error.
  unfoldable pub validate_value : Bool → String → Option Json → Option (Option Json)
  unfolding field_of
  validate_value is_create key raw = elim (field_of key fields) [
    | none ↦ some raw
    | some f ↦
        if f.is_hidden && is_given raw
        then none
        else if f.lock_after_create && not is_create
        then none
        else registry.normalise f raw
  ]

  -- The loop: the values, and the keys with errors.
  unfoldable pub validate_each : Bool → Payload → Payload × List String
  unfolding validate_value
  validate_each is_create [] = ([], [])
  validate_each is_create ((key, raw) ∷ rest) =
      let (out, errors) = validate_each is_create rest in
      elim (validate_value is_create key raw) [
        | none ↦ (out, key ∷ errors)
        | some v ↦ ((key, v) ∷ out, errors)
      ]

abbrev or_raise : Payload → List String → Result Payload
or_raise out [] = ok out
or_raise out (key ∷ errors) = raise (naming (key ∷ errors) (unprocessable invalid_values))

-- `validate` for an update, where no field is required, with the error that its callers raise.
unfoldable pub validate_update : Registry → List LeadField → Payload → Result Payload
unfolding validate_each
validate_update registry fields payload =
    let (out, errors) = validate_each registry fields false (registry.resolve_variables payload) in
    or_raise out errors

abbrev is_blank : Option (Option Json) → Bool
is_blank none = true
is_blank (some none) = true
is_blank (some (some v)) = false

-- A required field without a value, that has no error yet.
unfoldable pub lacks_value : Payload → List String → LeadField → Bool
lacks_value out errors f =
    f.is_required && not f.is_hidden && is_blank (get_key f.key out) && not (has errors f.key)

-- `validate` for a new lead, where the required fields must have a value.
unfoldable pub validate_create : Registry → List LeadField → Payload → Result Payload
unfolding validate_each lacks_value
validate_create registry fields payload =
    let (out, errors) = validate_each registry fields true (registry.resolve_variables payload) in
    or_raise out (errors ++ map (λ (f : LeadField). f.key) (keep (lacks_value out errors) fields))
