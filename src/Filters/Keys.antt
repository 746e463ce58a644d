-- ===== src/Filters/Keys.antt =====
-- `field_keys_in` finds every field that a filter reads, at any depth, and no other.
use mathlib.Core.Bool.{false≢true}
use mathlib.Core.Path.{subst}
use configurable_crm.Prelude.{
  String, Bool, true, ◌||◌, List, [], ◌∷◌, ◌++◌, ◌≡◌, ◌↔◌, inl, inr, refl, arith, str_eq, eq_iff,
  any, Option, Bool-cases,
}
use configurable_crm.Json.{Json}
use configurable_crm.Filters.Operators.{Operator}
use configurable_crm.Filters.Dsl.{
  FilterNode, Nodes, GroupOp, group, field_rule, leaf, child, field_keys_in, keys_of_children,
}

-- A rule on the field stands somewhere in the filter.
mutual
  pub data Mentions (k : String) : FilterNode → Type 0 where
    rule : {op : Operator} {v : Option Json} → Mentions k (field_rule k op v)
    inside : {op : GroupOp} {ns : Nodes} → AnyMentions k ns → Mentions k (group op ns)

  pub data AnyMentions (k : String) : Nodes → Type 0 where
    first : {c : FilterNode} {ns : Nodes} → Mentions k c → AnyMentions k (child c ns)
    later : {c : FilterNode} {ns : Nodes} → AnyMentions k ns → AnyMentions k (child c ns)

abbrev pub has_key : String → List String → Bool
has_key k keys = any (str_eq k) keys

has_key-append :
    (k : String) (xs ys : List String) → has_key k (xs ++ ys) ≡ (has_key k xs || has_key k ys)
has_key-append k [] ys = refl
has_key-append k (x ∷ xs) ys = ground (arith, has_key-append k xs ys)

mutual
  unfolding field_keys_in

  mentioned :
      {k : String} {node : FilterNode} → Mentions k node → has_key k (field_keys_in node) ≡ true
  mentioned {k} rule = ground (arith, eq_iff k k)
  mentioned (inside m) = mentioned_children m

  mentioned_children :
      {k : String} {ns : Nodes} → AnyMentions k ns → has_key k (keys_of_children ns) ≡ true
  mentioned_children {k} (first {c = c} {ns = ns} m) =
      ground (arith, mentioned m, has_key-append k (field_keys_in c) (keys_of_children ns))
  mentioned_children {k} (later {c = c} {ns = ns} m) =
      ground (arith, mentioned_children m, has_key-append k (field_keys_in c) (keys_of_children ns))

mutual
  unfolding field_keys_in

  found : (k : String) (node : FilterNode) → has_key k (field_keys_in node) ≡ true → Mentions k node
  found k (group op ns) h = inside (found_children k ns h)
  found k (field_rule j op v) h =
      subst (λ (i : String). Mentions k (field_rule i op v)) ((eq_iff k j).0 (ground arith)) rule
  found k _ h = absurd (false≢true h)

  found_children :
      (k : String) (ns : Nodes) → has_key k (keys_of_children ns) ≡ true → AnyMentions k ns
  found_children k leaf h = absurd (false≢true h)
  found_children k (child c rest) h = elim (Bool-cases (has_key k (field_keys_in c))) [
    | inl e ↦ first (found k c e)
    | inr e ↦ later (
        found_children k rest
          (ground (arith, has_key-append k (field_keys_in c) (keys_of_children rest))))
  ]

-- A key is among those that the permission gate asks about exactly when a rule of the filter, at
-- any depth, reads that field.
pub field_keys_in_iff :
    (k : String) (node : FilterNode) → (has_key k (field_keys_in node) ≡ true) ↔ Mentions k node
field_keys_in_iff k node = (found k node, mentioned)
