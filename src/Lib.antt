-- ===== src/Lib.antt =====
-- The core logic of the configurable CRM's API (api/app), as executable definitions, with the
-- theorems that make it correct.
--
-- The API serves workspaces. Each has members with licences and managers, leads that members work,
-- rules that deal new leads out, permission templates that say which fields a member sees and edits,
-- and webhook endpoints that hear of every change. The services share the database session; a
-- request that raises rolls back, except where the code commits before it raises.
--
-- The files, and the code that each models (paths below api/app):
--   Prelude        Boolean tests on numbers, lists, and tables of rows with a numeric key: `find` is a
--                  lookup, `update` the mutation of the row that it returned.
--   Json, Errors   stored values; errors.py with `Result` for code that raises.
--   Actions        models/enums.py and services/actions.py: the kinds of timeline actions and what they carry.
--   Pipeline       services/pipeline.py, models/pipeline.py, and the custom action types of
--                  models/field.py: the tables of a `Taxonomy`. `perform` is one request.
--   Timeline       services/actions.py (`ActionWriter`) and models/lead.py: every change of a lead opens
--                  a changeset, appends an action and queues its events in a `Ledger`.
--   Events         events/outbox.py (`publish`), events/dispatcher.py (`_claim`, `deliver_once`,
--                  `run_dispatch`), events/envelope.py and models/integration.py.
--   LeadOwnership  services/lead_ownership.py: the open pipeline of a member and its transfer.
--   Members        services/members.py (`MemberService`), and `update_workspace` of
--                  routers/workspaces.py for the seat limit. `perform` is one request, `serve` a
--                  sequence of them; `deactivate` calls LeadOwnership, which calls Timeline.
--   Filters        filters/dsl.py and fields/operators.py: filter trees and the walks over them.
--   Assignment     services/assignment.py (`AssignmentEngine`) and models/assignment.py.
--   Routing        services/routing.py: sales groups, assignment rules, and `distribute`, which deals
--                  with the engine of Assignment and writes through Timeline.
--   Undo           services/undo.py (`UndoService`): the plan for a changeset, which collapses its
--                  actions by target, the preview, and the undo, which writes through Timeline.
--   Fields         fields/registry.py: the recurrence of dates over a calendar (Dates, Calendar), and the
--                  normalisers of texts, checkboxes and the types with options.
--   Leads          services/leads.py: the creation of a lead, with the engine of Assignment, the edit
--                  of one and of many, and the deletion, through the write filter of Permissions, the
--                  validation of fields/values.py, the stages of Pipeline and Timeline. `perform` is one
--                  request.
--   Work           services/work.py (`LabelService`): labels, and their links to leads.
--   Permissions    permissions/projection.py: grants, projection of reads, filter of writes.
--   Auth           services/auth.py (`AuthService`) and auth/tokens.py; in Limits auth/rate_limit.py
--                  (`AuthRateLimiter`), with the windows that it promises.
--   Tests          concrete runs, and the theorems applied to them.
--
-- How the code is modelled. UUIDs are numbers, and so are points in time, in seconds. A table is the
-- list of its rows in one workspace, so the workspace columns are left out; a record keeps the
-- columns that the modelled code reads or writes. Stateful code takes the state and returns the next
-- one. The text of error messages is left out, the status, code and named fields are kept.
--
-- A query without an order returns rows as the table lists them, and actions of one instant stay in the
-- order in which they were written.
--
-- Fuel: the loop of `_would_create_cycle` runs on as much fuel as the table has rows, plus two. That
-- is enough for every table, since a row is visited at most once (Members/Hierarchy/Walk.antt).
-- The loops of `_next_occurrence` take two rounds, which is enough for every date (Fields/Occurrences.antt).
-- All other loops are structural recursion.
--
-- Parameters, for code outside the repository: whether Postgres finds a compiled filter true of a lead
-- (`holds`), Python's `str` of a stored value (`show`), `int` of one and the text of an identifier (`Conversions`) in Assignment; JSON text, HMAC, the format
-- and slices of texts and the HTTP transport (`Outside`) in Events; SHA-256, JWT, the random source
-- and the password hasher (`Crypto`) in Auth; `strip` and `len` of a text (`Texts`) in Pipeline;
-- `lower` of Python and of Postgres (`Lowering`) in Routing; `casefold` and SHA-256 (`Naming`) in Auth; `lower` in Work.
-- Nothing is assumed of them. The unique index of models/lead.py is a check of the flush that ends a bulk edit
-- (Leads/Bulk.antt). Of Redis (`Redis` in Auth/Limits.antt) the documented effects of INCR, TTL, EXPIRE, DEL
-- and of time are assumed, and of `strip` in Fields that a stripped text stays as it is. The
-- normalisers of fields/registry.py and the variables of fields/variables.py are a parameter (`Registry`) of Leads.
--
-- Not modelled: the filter compiler, which builds SQL (a rule on a field that no longer exists is
-- refused there, and here its truth is a parameter); the normalisers that need decimals or regular
-- expressions, the field service, and so the edits of custom actions' forms; the search of leads and its
-- vector; the import, task and report services; dates after the year 9999, where Python raises; sessions of other workspaces; HTTP routing, schemas, workers, migrations and
-- the user interface. Concurrent requests are taken one after another, as the row locks make them.
pub mod Prelude
pub mod Json
pub mod Errors
pub mod Actions
pub mod Fields
pub mod Events
pub mod Timeline
pub mod Pipeline
pub mod LeadOwnership
pub mod Members
pub mod Filters
pub mod Assignment
pub mod Routing
pub mod Permissions
pub mod Auth
pub mod Undo
pub mod Leads
pub mod Work
pub mod Tests
