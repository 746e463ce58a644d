-- ===== src/Tests/Taxonomy.antt =====
-- A small taxonomy: three singletons and an active stage, two dispositions, one lost reason and one type.
use configurable_crm.Prelude.{
  ℕ, String, Bool, true, false, none, some, [], ◌∷◌, ◌≡◌, refl, arith, from_zero,
}
use configurable_crm.Prelude.Table.{find, update}
use configurable_crm.Prelude.Positions.{place_each}
use configurable_crm.Errors.{Result, ok, raise}
use configurable_crm.Pipeline.Rows.{
  Stage, StageKind, initial, active, won, lost, CallDisposition, inbound,
}
use configurable_crm.Pipeline.Service.{Texts, Taxonomy}
use configurable_crm.Pipeline.Stages.{stage_key, reorder_stages, next_stage_order}
use configurable_crm.Pipeline.Dispositions.{set_default}
use configurable_crm.Pipeline.Requests.{setting_default, perform}
use configurable_crm.Pipeline.Singletons.{live_of}
use configurable_crm.Pipeline.Defaults.{defaults, buried}
use configurable_crm.Pipeline.Limits.{live_reasons}
use configurable_crm.Pipeline.Taxonomy.{IsTaxonomy, perform-IsTaxonomy}

abbrev a_stage : ℕ → StageKind → String → ℕ → Stage
a_stage id kind label order = record {
  id = id;
  kind = kind;
  label = label;
  color = "#6b7280";
  sort_order = order;
  is_archived = false;
}

abbrev a_disposition : ℕ → Bool → CallDisposition
a_disposition id default = record {
  id = id;
  label = "d";
  is_default = default;
  is_system = false;
  is_archived = false;
  sort_order = 0;
}

abbrev taxonomy : Taxonomy
taxonomy = record {
  stages =
      a_stage 1 initial "New" 0
      ∷ a_stage 2 active "Contacted" 1
      ∷ a_stage 5 active "Visited" 2
      ∷ a_stage 3 won "Won" 3
      ∷ a_stage 4 lost "Lost" 4
      ∷ [];
  lost_reasons =
      record { id = 1; label = "Price"; sort_order = 0; is_default = true; is_archived = false }
      ∷ [];
  dispositions = a_disposition 1 true ∷ a_disposition 2 false ∷ [];
  action_types =
      record {
        id = 1;
        code = 1001;
        name = "Visit";
        icon = none;
        score = from_zero 5;
        direction = inbound;
        description = none;
        allow_predated = false;
        is_archived = false;
      }
      ∷ [];
  action_fields = [];
}

taxonomy-IsTaxonomy : IsTaxonomy taxonomy
unfolding live_of defaults buried live_reasons find
taxonomy-IsTaxonomy = record {
  singletons = (refl, refl, refl);
  limit = omega arith;
  default = record { one = refl; live = refl; distinct = (refl, (refl, tt)) };
  codes = (omega arith, refl, tt);
}

-- Every text is stripped already, and has one character.
abbrev python : Texts
python = record { strip = λ s. s; chars = λ s. 1 }

abbrev or_same : Taxonomy → Result Taxonomy → Taxonomy
or_same t (ok u) = u
or_same t (raise e) = t

abbrev moved : Taxonomy
moved = or_same taxonomy (perform python (setting_default 2) taxonomy)

default_moved : moved.dispositions ≡ a_disposition 1 false ∷ a_disposition 2 true ∷ []
unfolding perform set_default find update
default_moved = refl

perform-IsTaxonomy_example : IsTaxonomy moved
unfolding perform set_default find
perform-IsTaxonomy_example =
    perform-IsTaxonomy python (setting_default 2) taxonomy moved tt taxonomy-IsTaxonomy refl

abbrev reordered : Taxonomy
reordered = or_same taxonomy (reorder_stages (5 ∷ 2 ∷ []) taxonomy)

-- The first active stage ties with the initial one.
ties : find stage_key 5 reordered.stages ≡ some (a_stage 5 active "Visited" 0)
unfolding reorder_stages find place_each update
ties = refl

-- A stage that is created comes after the lost one.
after_lost : next_stage_order taxonomy.stages ≡ 5
unfolding next_stage_order
after_lost = refl
