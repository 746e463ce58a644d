-- ===== src/Pipeline/Taxonomy.antt =====
-- The rules of a workspace's taxonomy, under every request.
use configurable_crm.Prelude.{◌≡◌, none}
use configurable_crm.Prelude.Table.{find}
use configurable_crm.Errors.{ok}
use configurable_crm.Pipeline.Service.{Texts, Taxonomy}
use configurable_crm.Pipeline.Dispositions.{disposition_key}
use configurable_crm.Pipeline.Requests.{
  Request, creating_stage, updating_stage, archiving_stage, reordering, creating_reason,
  updating_reason, archiving_reason, creating_disposition, updating_disposition, setting_default,
  archiving_disposition, creating_type, updating_type, archiving_type, perform,
}
use configurable_crm.Pipeline.Singletons.{
  HasSingletons, ChangesStages, create_stage-HasSingletons, update_stage-HasSingletons,
  archive_stage-HasSingletons, reorder_stages-HasSingletons,
}
use configurable_crm.Pipeline.Defaults.{
  HasDefault, ChangesDispositions, create_disposition-HasDefault, update_disposition-HasDefault,
  set_default-HasDefault, archive_disposition-HasDefault,
}
use configurable_crm.Pipeline.Limits.{
  WithinLimit, HasCodes, ChangesReasons, ChangesTypes, create_lost_reason-WithinLimit,
  update_lost_reason-WithinLimit, archive_lost_reason-WithinLimit, create_type-HasCodes,
  update_type-HasCodes, archive_type-HasCodes,
}

pub record IsTaxonomy (t : Taxonomy) : Type 0 where
  pub singletons : HasSingletons t.stages
  pub limit : WithinLimit t.lost_reasons
  pub default : HasDefault t.dispositions
  pub codes : HasCodes t.action_types

-- A new disposition has a new key; the other requests need no new key here.
abbrev pub IsFresh : Request → Taxonomy → Type 0
IsFresh (creating_disposition id label) t = find disposition_key id t.dispositions ≡ none
IsFresh _ t = Unit

-- A change of one table keeps the rules of the others.
module _ {t u : Taxonomy} (k : IsTaxonomy t) where
  of_stages : ChangesStages t u → IsTaxonomy u
  of_stages (xs, e, s) =
      rw e record { singletons = s; limit = k.limit; default = k.default; codes = k.codes }

  of_reasons : ChangesReasons t u → IsTaxonomy u
  of_reasons (xs, e, s) =
      rw e record { singletons = k.singletons; limit = s; default = k.default; codes = k.codes }

  of_dispositions : ChangesDispositions t u → IsTaxonomy u
  of_dispositions (xs, e, s) =
      rw e record { singletons = k.singletons; limit = k.limit; default = s; codes = k.codes }

  of_types : ChangesTypes t u → IsTaxonomy u
  of_types (xs, fs, e, s) =
      rw e record { singletons = k.singletons; limit = k.limit; default = k.default; codes = s }

-- Every request that succeeds keeps exactly one live initial, won and lost stage, at most 25 live lost
-- reasons, exactly one default disposition, which is live, and distinct codes of custom actions from
-- 1001 on, if they were so before and a new disposition has a new key.
pub perform-IsTaxonomy :
    (python : Texts) (r : Request) (t u : Taxonomy)
    → IsFresh r t
    → IsTaxonomy t
    → perform python r t ≡ ok u
    → IsTaxonomy u
unfolding perform
perform-IsTaxonomy python (creating_stage id label color) t u fresh k h =
    of_stages k (create_stage-HasSingletons python t u id label color h k.singletons)
perform-IsTaxonomy python (updating_stage i label color) t u fresh k h =
    of_stages k (update_stage-HasSingletons python t u i label color h k.singletons)
perform-IsTaxonomy python (archiving_stage i) t u fresh k h =
    of_stages k (archive_stage-HasSingletons python t u i h k.singletons)
perform-IsTaxonomy python (reordering ids) t u fresh k h =
    of_stages k (reorder_stages-HasSingletons python t u ids h k.singletons)
perform-IsTaxonomy python (creating_reason id label) t u fresh k h =
    of_reasons k (create_lost_reason-WithinLimit python t u id label h)
perform-IsTaxonomy python (updating_reason i label order) t u fresh k h =
    of_reasons k (update_lost_reason-WithinLimit python t u i label order h k.limit)
perform-IsTaxonomy python (archiving_reason i) t u fresh k h =
    of_reasons k (archive_lost_reason-WithinLimit python t u i h k.limit)
perform-IsTaxonomy python (creating_disposition id label) t u fresh k h =
    of_dispositions k (create_disposition-HasDefault python t u id label h fresh k.default)
perform-IsTaxonomy python (updating_disposition i label order) t u fresh k h =
    of_dispositions k (update_disposition-HasDefault python t u i label order h k.default)
perform-IsTaxonomy python (setting_default i) t u fresh k h =
    of_dispositions k (set_default-HasDefault python t u i h k.default)
perform-IsTaxonomy python (archiving_disposition i) t u fresh k h =
    of_dispositions k (archive_disposition-HasDefault python t u i h k.default)
perform-IsTaxonomy python (creating_type id name icon score dir desc pre) t u fresh k h =
    of_types k (create_type-HasCodes python t u id name icon score dir desc pre h k.codes)
perform-IsTaxonomy python (updating_type i name icon score dir desc pre) t u fresh k h =
    of_types k (update_type-HasCodes python t u i name icon score dir desc pre h k.codes)
perform-IsTaxonomy python (archiving_type i) t u fresh k h =
    of_types k (archive_type-HasCodes python t u i h k.codes)
