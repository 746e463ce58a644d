-- ===== src/Pipeline.antt =====
-- The pipeline's rows and services (api/app/models/pipeline.py, api/app/services/pipeline.py).
pub mod Rows
pub mod Service
pub mod Stages
pub mod Reasons
pub mod Dispositions
pub mod ActionTypes
pub mod Requests
pub mod Singletons
pub mod Defaults
pub mod Limits
pub mod Taxonomy
pub mod Order
