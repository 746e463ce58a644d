-- ===== src/Json.antt =====
-- JSON values, as the JSONB columns hold them. `None` is `null` inside an array or
-- an object, and `Option`'s `none` where a value may be missing.
use mathlib.Core.Bool.{false≢true}
use native.Mathlib.Decide.{ℕ_discrete}
use configurable_crm.Prelude.{
  not, ◌==◌, if◌then◌else◌, ℕ, String, Bool, true, false, Option, none, some, ◌≡◌, ◌↔◌, sym, ◌∙◌,
  inl, inr, arith, str_eq, eq_iff, Bool-cases,
}

mutual
  pub data Json : Type 0 where
    null : Json
    text : String → Json
    number : ℕ → Json
    flag : Bool → Json
    array : Items → Json
    object : Members → Json

  pub data Items : Type 0 where
    nil : Items
    cons : Json → Items → Items

  pub data Members : Type 0 where
    end : Members
    member : String → Json → Members → Members

-- `dict.get`; a key that is there with `null` has `some null`.
unfoldable pub get_member : String → Members → Option Json
get_member k end = none
get_member k (member j v rest) = if str_eq j k then some v else get_member k rest

abbrev pub has_items : Items → Bool
has_items nil = false
has_items (cons v vs) = true

abbrev pub has_members : Members → Bool
has_members end = false
has_members (member k v vs) = true

-- Python's truth of a value.
abbrev pub truthy : Json → Bool
truthy null = false
truthy (text s) = not (str_eq s "")
truthy (number n) = not (n == 0)
truthy (flag b) = b
truthy (array vs) = has_items vs
truthy (object vs) = has_members vs

String-discrete : Discrete String
unfolding Bool-cases
String-discrete a b = elim (Bool-cases (str_eq a b)) [
  | inl e ↦ yes ((eq_iff a b).0 e)
  | inr e ↦ no (λ p. false≢true (sym e ∙ (eq_iff a b).1 p))
]

Json-discrete : Discrete Json
unfolding String-discrete
Json-discrete = hlevel (ℕ_discrete, String-discrete)

-- Python's `==` on two optional values.
unfoldable pub json_eq : Option Json → Option Json → Bool
unfolding Json-discrete ℕ_discrete
json_eq none none = true
json_eq none (some b) = false
json_eq (some a) none = false
json_eq (some a) (some b) = elim (Json-discrete a b) [ yes _ ↦ true | no _ ↦ false ]

pub json_eq_iff : (a b : Option Json) → (json_eq a b ≡ true) ↔ (a ≡ b)
unfolding json_eq
json_eq_iff none none = ground arith
json_eq_iff none (some b) = ground arith
json_eq_iff (some a) none = ground arith
json_eq_iff (some a) (some b) = ground arith
