-- ===== src/Filters.antt =====
-- The filter DSL (api/app/filters/dsl.py, api/app/fields/operators.py).
pub mod Operators
pub mod Dsl
pub mod Shape
pub mod Keys
