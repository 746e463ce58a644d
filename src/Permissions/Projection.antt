-- ===== src/Permissions/Projection.antt =====
-- `FieldGrants`, `FieldProjectionService` and `FieldWriteFilter` (api/app/permissions/projection.py).
-- A frozen set of field keys is a list of them, asked by `has`.
use configurable_crm.Prelude.{
  ℕ, String, Bool, true, false, not, ◌&&◌, ◌||◌, Option, none, some, List, [], ◌∷◌, map, ◌==◌, keep,
  has, sort_by, text_before, if◌then◌else◌,
}
use configurable_crm.Json.{Json}
use configurable_crm.Errors.{
  Code, field_not_editable, field_not_importable, export_not_permitted, Result, ok, raise, raise_if,
  forbidden, naming,
}

pub data PermissionGrant : Type 0 where
  view edit import_ export : PermissionGrant

pub record TemplateFieldGrant : Type 0 where
  pub template_id : ℕ
  pub field_id : ℕ
  pub grant : PermissionGrant

pub record FieldGrants : Type 0 where
  pub view : List String
  pub edit : List String
  pub import_ : List String
  pub export : List String
  pub is_admin : Bool

abbrev pub can_view : FieldGrants → String → Bool
can_view g key = g.is_admin || has g.view key

abbrev pub can_edit : FieldGrants → String → Bool
can_edit g key = g.is_admin || has g.edit key

abbrev pub can_import : FieldGrants → String → Bool
can_import g key = g.is_admin || has g.import_ key

abbrev pub can_export : FieldGrants → String → Bool
can_export g key = g.is_admin || has g.export key

abbrev pub is_empty {ℓ} : {A : Type ℓ} → List A → Bool
is_empty [] = true
is_empty (x ∷ xs) = false

unfoldable pub exports_anything : FieldGrants → Bool
exports_anything g = g.is_admin || not (is_empty g.export)

abbrev pub same_grant : PermissionGrant → PermissionGrant → Bool
same_grant PermissionGrant.view PermissionGrant.view = true
same_grant PermissionGrant.edit PermissionGrant.edit = true
same_grant PermissionGrant.import_ PermissionGrant.import_ = true
same_grant PermissionGrant.export PermissionGrant.export = true
same_grant _ _ = false

-- `all_field_keys.get`
abbrev pub key_of : ℕ → List (ℕ × String) → Option String
key_of i [] = none
key_of i ((j, k) ∷ rest) = if j == i then some k else key_of i rest

-- One bucket of `load_grants`: a grant for a field that was removed adds nothing.
unfoldable pub bucket : List (ℕ × String) → List TemplateFieldGrant → PermissionGrant → List String
bucket keys [] g = []
bucket keys (row ∷ rows) g =
    let rest = bucket keys rows g in
    elim (key_of row.field_id keys) [
      | none ↦ rest
      | some k ↦ if same_grant row.grant g then k ∷ rest else rest
    ]

-- `load_grants`, on the grant rows of the workspace.
unfoldable pub load_grants : ℕ → Bool → List (ℕ × String) → List TemplateFieldGrant → FieldGrants
unfolding bucket
load_grants template is_admin keys rows =
    let every = map (λ (k : ℕ × String). k.1) keys in
    if is_admin
    then record { view = every; edit = every; import_ = every; export = every; is_admin = true }
    else let own = keep (λ (row : TemplateFieldGrant). row.template_id == template) rows in
      record {
        view = bucket keys own PermissionGrant.view;
        edit = bucket keys own PermissionGrant.edit;
        import_ = bucket keys own PermissionGrant.import_;
        export = bucket keys own PermissionGrant.export;
        is_admin = false;
      }

unfoldable pub project_values : FieldGrants → List (String × Json) → List (String × Json)
project_values g values = keep (λ (v : String × Json). can_view g v.0) values

unfoldable pub project_export : FieldGrants → List (String × Json) → List (String × Json)
project_export g values = keep (λ (v : String × Json). can_export g v.0) values

unfoldable pub visible_field_keys : FieldGrants → List String → List String
visible_field_keys g keys = keep (λ k. can_view g k) keys

unfoldable pub assert_can_export : FieldGrants → Result (Unit {0})
unfolding exports_anything
assert_can_export g = raise_if (not (exports_anything g)) (forbidden export_not_permitted)

abbrev pub raise_naming : Code → List String → Result (Unit {0})
raise_naming code [] = ok tt
raise_naming code (k ∷ ks) = raise (naming (k ∷ ks) (forbidden code))

-- `FieldWriteFilter.check` reads the keys of what is written.
abbrev pub check_keys : FieldGrants → List String → List String → Result (Unit {0})
check_keys g keys known_keys =
    raise_naming field_not_editable
      (sort_by text_before (keep (λ key. has known_keys key && not (can_edit g key)) keys))

unfoldable pub check : FieldGrants → List (String × Json) → List String → Result (Unit {0})
unfolding sort_by
check g values known_keys = check_keys g (map (λ (v : String × Json). v.0) values) known_keys

unfoldable pub check_import : FieldGrants → List String → List String → Result (Unit {0})
unfolding sort_by
check_import g keys known_keys =
    raise_naming field_not_importable
      (sort_by text_before (keep (λ key. has known_keys key && not (can_import g key)) keys))
