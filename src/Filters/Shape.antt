-- ===== src/Filters/Shape.antt =====
-- `validate_shape` bounds the size and the height of a filter.
use configurable_crm.Prelude.{ℕ, ◌+◌, ◌≤◌, max, ◌≡◌, ◌↔◌, refl, arith}
use configurable_crm.Errors.{ok}
use configurable_crm.Filters.Dsl.{
  FilterNode, Nodes, group, field_rule, leaf, child, walk, walk_children, validate_shape,
}

-- The number of nodes of a filter, and how many groups enclose its deepest node.
unfoldable mutual
  pub size : FilterNode → ℕ
  size (group op children) = 1 + size_children children
  size _ = 1

  pub size_children : Nodes → ℕ
  size_children leaf = 0
  size_children (child c rest) = size c + size_children rest

unfoldable mutual
  pub height : FilterNode → ℕ
  height (group op children) = height_children children
  height _ = 0

  pub height_children : Nodes → ℕ
  height_children leaf = 0
  height_children (child c rest) = max (height c + 1) (height_children rest)

mutual
  unfolding walk size height

  walk-size : (node : FilterNode) (d : ℕ) → (walk node d).0 ≡ size node
  walk-size (group op children) d = walk_children-size children d 1 d
  walk-size (field_rule k op v) d = refl
  walk-size _ d = refl

  walk_children-size :
      (ns : Nodes) (d count deepest : ℕ)
      → (walk_children ns d count deepest).0 ≡ count + size_children ns
  walk_children-size leaf d count deepest = omega arith
  walk_children-size (child c rest) d count deepest = omega (
    arith,
    walk-size c (d + 1),
    walk_children-size rest d (count + (walk c (d + 1)).0) (max deepest (walk c (d + 1)).1),
  )

mutual
  unfolding walk height

  walk-height : (node : FilterNode) (d : ℕ) → (walk node d).1 ≡ d + height node
  walk-height (group op children) d = omega (arith, walk_children-height children d 1 d le_self)
    where
      le_self : d ≤ d
      le_self = omega arith
  walk-height (field_rule k op v) d = omega arith
  walk-height _ d = omega arith

  walk_children-height :
      (ns : Nodes) (d count deepest : ℕ)
      → d ≤ deepest
      → (walk_children ns d count deepest).1 ≡ max deepest (d + height_children ns)
  walk_children-height leaf d count deepest h = omega arith
  walk_children-height (child c rest) d count deepest h =
      let (n, deep) = walk c (d + 1) in
      let next = walk_children-height rest d (count + n) (max deepest deep) (omega arith) in
      omega (arith, walk-height c (d + 1), next)

-- A filter passes exactly when it has at most `MAX_NODES` nodes, groups counted, and at most
-- `MAX_DEPTH` groups around any node.
pub validate_shape_iff :
    (node : FilterNode) → (validate_shape node ≡ ok tt) ↔ ((size node ≤ 200) × (height node ≤ 10))
unfolding validate_shape
validate_shape_iff node = ground (arith, walk-size node 0, walk-height node 0)
