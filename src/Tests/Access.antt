-- ===== src/Tests/Access.antt =====
-- Filters, field permissions and sessions.
use configurable_crm.Prelude.{
  ℕ, ◌≤◌, String, true, false, ◌||◌, Option, none, some, List, [], ◌∷◌, ◌≡◌, ◌↔◌, refl, any,
  get_key, if◌then◌else◌, str_eq,
}
use configurable_crm.Prelude.Table.{find}
use configurable_crm.Json.{Json}
use configurable_crm.Errors.{
  ok, raise, ApiError, forbidden, naming, unauthorized, field_not_editable, token_reuse_detected,
}
use configurable_crm.Filters.Operators.{Operator}
use configurable_crm.Filters.Dsl.{
  FilterNode, GroupOp, group, field_rule, leaf, child, validate_shape, field_keys_in,
}
use configurable_crm.Filters.Shape.{size, height, validate_shape_iff}
use configurable_crm.Filters.Keys.{Mentions, has_key, field_keys_in_iff}
use configurable_crm.Permissions.Projection.{
  PermissionGrant, TemplateFieldGrant, FieldGrants, load_grants, project_values,
}
use configurable_crm.Permissions.Grants.{can, grants_field, can-load_grants, get_key-project_values}
use configurable_crm.Members.Defs.{Membership, AvailabilityStatus}
use configurable_crm.Auth.Sessions.{
  Crypto, Accounts, RefreshToken, User, TokenPair, token_key, rotate,
}
use configurable_crm.Auth.Replay.{live_in, rotate-once, rotate-live}

abbrev nested : FilterNode
nested = group GroupOp.and_op (
    child (group GroupOp.or_op (child (field_rule "salary" Operator.is_empty none) leaf))
      (child (field_rule "city" Operator.is_not_empty none) leaf))

validate_shape_iff_example :
    (validate_shape nested ≡ ok tt) ↔ ((size nested ≤ 200) × (height nested ≤ 10))
validate_shape_iff_example = validate_shape_iff nested

nested_valid : validate_shape nested ≡ ok tt
unfolding validate_shape
nested_valid = refl

field_keys_in_iff_example :
    (has_key "salary" (field_keys_in nested) ≡ true) ↔ Mentions "salary" nested
field_keys_in_iff_example = field_keys_in_iff "salary" nested

abbrev a_grant : ℕ → ℕ → PermissionGrant → TemplateFieldGrant
a_grant template field grant = record { template_id = template; field_id = field; grant = grant }

abbrev field_keys : List (ℕ × String)
field_keys = (1, "name") ∷ (2, "salary") ∷ []

abbrev grant_rows : List TemplateFieldGrant
grant_rows =
    a_grant 7 1 PermissionGrant.view
    ∷ a_grant 7 1 PermissionGrant.edit
    ∷ a_grant 8 2 PermissionGrant.view
    ∷ []

abbrev clerk : FieldGrants
clerk = load_grants 7 false field_keys grant_rows

abbrev some_values : List (String × Json)
some_values = ("name", Json.text "Asha") ∷ ("salary", Json.text "9") ∷ []

can-load_grants_example :
    can PermissionGrant.view clerk "salary"
    ≡ (false || any (grants_field 7 field_keys PermissionGrant.view "salary") grant_rows)
can-load_grants_example =
    can-load_grants 7 false field_keys grant_rows PermissionGrant.view "salary"

get_key-project_values_example : get_key "salary" (project_values clerk some_values) ≡ (
    if any (grants_field 7 field_keys PermissionGrant.view "salary") grant_rows
    then some (Json.text "9")
    else none)
get_key-project_values_example =
    get_key-project_values 7 false field_keys grant_rows "salary" some_values

salary_hidden : project_values clerk some_values ≡ ("name", Json.text "Asha") ∷ []
unfolding project_values load_grants
salary_hidden = refl

abbrev known : List String
known = "name" ∷ "salary" ∷ []

abbrev refusal : ApiError
refusal = naming ("salary" ∷ []) (forbidden field_not_editable)

-- A toy digest that tells the three tokens of the tests apart.
abbrev toy_digest : String → ℕ
toy_digest s = if str_eq s "one" then 1 else if str_eq s "two" then 2 else 3

abbrev toy_crypto : Crypto
toy_crypto = record {
  digest = toy_digest;
  encode = λ u t. "jwt";
  random_token = λ n. "two";
  random_family = λ n. n;
  verify = λ h p. true;
  needs_rehash = λ h. false;
  hash = λ p. p;
  access_ttl = 900;
  refresh_ttl = 1000;
}

abbrev asha : User
asha = record { id = 5; email = "asha"; password_hash = "h"; is_active = true }

abbrev a_token : ℕ → Option ℕ → RefreshToken
a_token hash revoked = record {
  token_hash = hash;
  user_id = 5;
  family_id = 77;
  expires_at = 500;
  revoked_at = revoked;
}

abbrev a_seat : Membership
a_seat = record {
  id = 1;
  user_id = 5;
  template_id = 7;
  manager_id = none;
  is_active = true;
  has_license = true;
  availability = AvailabilityStatus.working;
}

abbrev signed_in : Accounts
signed_in = record {
  users = asha ∷ [];
  members = a_seat ∷ [];
  refresh_tokens = a_token 1 none ∷ [];
  drawn = 0;
}

abbrev rotated : Accounts
rotated = record signed_in { refresh_tokens = a_token 1 (some 90) ∷ a_token 2 none ∷ [] }

abbrev first_pair : User × TokenPair
first_pair =
    (asha, record { access_token = "jwt"; refresh_token = "two"; expires_in_seconds = 900 })

rotate-once_example :
    let after = (rotate toy_crypto 100 "one" signed_in).0 in
    (stored : RefreshToken) × (find token_key 1 signed_in.refresh_tokens ≡ some stored)
    × ((rotate toy_crypto 200 "one" after).1 ≡ raise (unauthorized token_reuse_detected))
    × (live_in stored.family_id (rotate toy_crypto 200 "one" after).0.refresh_tokens ≡ 0)
unfolding rotate find
rotate-once_example = rotate-once toy_crypto 100 "one" signed_in first_pair 200 refl

rotate-live_example :
    live_in 77 (rotate toy_crypto 100 "one" signed_in).0.refresh_tokens
    ≤ live_in 77 signed_in.refresh_tokens
rotate-live_example = rotate-live toy_crypto 100 "one" signed_in 77
