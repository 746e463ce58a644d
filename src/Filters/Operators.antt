-- ===== src/Filters/Operators.antt =====
-- The comparison vocabulary and its arities (api/app/fields/operators.py).
pub data Operator : Type 0 where
  equals not_equals contains_text not_contains starts_with ends_with : Operator
  in_list not_in greater_than greater_or_equal less_than less_or_equal between : Operator
  is_empty is_not_empty has_any has_all in_last_days in_next_days : Operator

-- How many operands: none, one, a pair, or a list of any length (0, 1, 2 and -1 in the source).
pub data Arity : Type 0 where
  nullary unary binary variadic : Arity

-- `OPERATOR_ARITY`
unfoldable pub operator_arity : Operator → Arity
operator_arity is_empty = nullary
operator_arity is_not_empty = nullary
operator_arity between = binary
operator_arity in_list = variadic
operator_arity not_in = variadic
operator_arity has_any = variadic
operator_arity has_all = variadic
operator_arity _ = unary
