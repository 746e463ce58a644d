-- ===== src/Permissions/Grants.antt =====
-- What the projection lets through, and what the write filter refuses.
use configurable_crm.Prelude.{
  ℕ, String, Bool, true, false, not, ◌&&◌, ◌||◌, Option, none, some, List, [], ◌∷◌, ◌≡◌, ◌↔◌, refl,
  ◌∙◌, ap, sym, arith, map, ◌==◌, keep, any, has, sort_by, text_before, any-sort_by, any-keep,
  if◌then◌else◌, get_key, str_eq, eq_iff, Bool-cases, Option-cases, inl, inr,
}
use configurable_crm.Json.{Json}
use configurable_crm.Errors.{ApiError, Code, field_not_editable, ok, raise, forbidden, naming}
use configurable_crm.Permissions.Projection.{
  PermissionGrant, TemplateFieldGrant, FieldGrants, can_view, can_edit, can_import, can_export,
  same_grant, key_of, bucket, load_grants, project_values, raise_naming, check,
}

get_key-keep :
    (p : String → Bool) (k : String) (values : List (String × Json))
    → get_key k (keep (λ (v : String × Json). p v.0) values)
      ≡ (if p k then get_key k values else none)
get_key-keep p k [] = ground arith
get_key-keep p k ((j, v) ∷ rest) = elim (Bool-cases (str_eq k j)) [
  | inl e ↦ ground (arith, get_key-keep p k rest, ap p ((eq_iff k j).0 e))
  | inr e ↦ ground (arith, get_key-keep p k rest)
]

-- The question that a grant answers.
abbrev pub can : PermissionGrant → FieldGrants → String → Bool
can PermissionGrant.view = can_view
can PermissionGrant.edit = can_edit
can PermissionGrant.import_ = can_import
can PermissionGrant.export = can_export

abbrev is_key : Option String → String → Bool
is_key none k = false
is_key (some j) k = str_eq k j

-- The row grants `g` on the field `key` to the template.
unfoldable pub grants_field :
    ℕ → List (ℕ × String) → PermissionGrant → String → TemplateFieldGrant → Bool
grants_field template keys g key row =
    row.template_id == template && (same_grant row.grant g && is_key (key_of row.field_id keys) key)

has-bucket :
    (template : ℕ) (keys : List (ℕ × String)) (rows : List TemplateFieldGrant) (g : PermissionGrant)
    (key : String)
    → has
        (bucket keys (keep (λ (row : TemplateFieldGrant). row.template_id == template) rows) g)
        key
      ≡ any (grants_field template keys g key) rows
unfolding bucket grants_field
has-bucket template keys [] g key = refl
has-bucket template keys (row ∷ rows) g key = elim (Option-cases (key_of row.field_id keys)) [
  | inl e ↦ ground (arith, e, has-bucket template keys rows g key)
  | inr (k, e) ↦ ground (arith, e, has-bucket template keys rows g key)
]

-- Each of the four permissions on a field is given exactly to an administrator and to a template
-- with a row that grants it on a field of that key.
pub can-load_grants :
    (template : ℕ) (is_admin : Bool) (keys : List (ℕ × String)) (rows : List TemplateFieldGrant)
    (g : PermissionGrant) (key : String)
    → can g (load_grants template is_admin keys rows) key
      ≡ (is_admin || any (grants_field template keys g key) rows)
unfolding load_grants
can-load_grants template true keys rows PermissionGrant.view key = refl
can-load_grants template true keys rows PermissionGrant.edit key = refl
can-load_grants template true keys rows PermissionGrant.import_ key = refl
can-load_grants template true keys rows PermissionGrant.export key = refl
can-load_grants template false keys rows PermissionGrant.view key =
    has-bucket template keys rows PermissionGrant.view key
can-load_grants template false keys rows PermissionGrant.edit key =
    has-bucket template keys rows PermissionGrant.edit key
can-load_grants template false keys rows PermissionGrant.import_ key =
    has-bucket template keys rows PermissionGrant.import_ key
can-load_grants template false keys rows PermissionGrant.export key =
    has-bucket template keys rows PermissionGrant.export key

-- With the grants that are loaded for a template, a key of the projected values reads as before for an
-- administrator and where a row grants the template the view of a field of that key, and is absent
-- otherwise.
pub get_key-project_values :
    (template : ℕ) (is_admin : Bool) (keys : List (ℕ × String)) (rows : List TemplateFieldGrant)
    (key : String) (values : List (String × Json))
    → get_key key (project_values (load_grants template is_admin keys rows) values) ≡ (
        if is_admin || any (grants_field template keys PermissionGrant.view key) rows
        then get_key key values
        else none)
unfolding project_values
get_key-project_values template is_admin keys rows key values =
    let g = load_grants template is_admin keys rows in
    get_key-keep (λ k. can_view g k) key values
    ∙ ap (λ (b : Bool). if b then get_key key values else none)
        (can-load_grants template is_admin keys rows PermissionGrant.view key)

-- A written key that the write filter refuses.
unfoldable pub offends : FieldGrants → List (String × Json) → List String → String → Bool
offends g values known key =
    any (λ (v : String × Json). (has known v.0 && not (can_edit g v.0)) && str_eq key v.0) values

any-map :
    (p : String → Bool) (values : List (String × Json))
    → any p (map (λ (v : String × Json). v.0) values) ≡ any (λ (v : String × Json). p v.0) values
any-map p [] = refl
any-map p (v ∷ rest) = ground (arith, any-map p rest)

-- The keys that `check` collects.
abbrev refused : FieldGrants → List (String × Json) → List String → List String
refused g values known =
    sort_by text_before (
      keep (λ key. has known key && not (can_edit g key)) (map (λ (v : String × Json). v.0) values))

has-refused :
    (g : FieldGrants) (values : List (String × Json)) (known : List String) (key : String)
    → has (refused g values known) key ≡ offends g values known key
unfolding offends
has-refused g values known key =
    any-sort_by text_before _ _
    ∙ any-keep _ _ (map (λ (v : String × Json). v.0) values)
    ∙ any-map _ values

named :
    (c : Code) (keys : List String) (e : ApiError)
    → raise_naming c keys ≡ raise e
    → e ≡ naming keys (forbidden c)
named c [] e h = absurd (ground arith)
named c (k ∷ ks) e h = ground arith

-- A refused write is a 403 `field_not_editable` that names all the written keys which the caller
-- may not edit, and no others.
pub check-names_all :
    (g : FieldGrants) (values : List (String × Json)) (known : List String) (e : ApiError)
    → check g values known ≡ raise e
    → (e.status_code ≡ 403)
      × (e.code ≡ field_not_editable)
      × ((key : String) → has e.fields key ≡ offends g values known key)
unfolding check
check-names_all g values known e h =
    let is = named field_not_editable (refused g values known) e h in
    (
      ap (λ (e : ApiError). e.status_code) is,
      ap (λ (e : ApiError). e.code) is,
      λ key. ap (λ (e : ApiError). has e.fields key) is ∙ has-refused g values known key,
    )

has_first : (keys : List String) → ((key : String) → has keys key ≡ false) → keys ≡ []
has_first [] h = refl
has_first (k ∷ ks) h = absurd (ground (arith, h k, (eq_iff k k).1 refl))

-- A write passes exactly if no written key is a known field that the caller may not edit.
pub check_iff :
    (g : FieldGrants) (values : List (String × Json)) (known : List String)
    → (check g values known ≡ ok tt) ↔ ((key : String) → offends g values known key ≡ false)
unfolding check
check_iff g values known = (
  λ h key.
      sym (has-refused g values known key)
      ∙ ap (λ keys. has keys key) (passed (refused g values known) h),
  λ h.
      ap (raise_naming field_not_editable)
        (has_first (refused g values known) (λ key. has-refused g values known key ∙ h key)),
)
  where
    passed : (keys : List String) → raise_naming field_not_editable keys ≡ ok tt → keys ≡ []
    passed [] e = refl
    passed (k ∷ ks) e = absurd (ground arith)
