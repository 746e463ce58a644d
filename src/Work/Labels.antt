-- ===== src/Work/Labels.antt =====
-- `LabelService` (api/app/services/work.py, api/app/models/work.py). `lower` is Python's; the key of a new
-- label is an argument.
use configurable_crm.Prelude.{
  ℕ, String, Bool, true, false, not, ◌&&◌, Option, none, some, List, [], ◌∷◌, ◌++◌, ◌==◌, leb,
  length, any, keep, str_eq, if◌then◌else◌,
}
use configurable_crm.Prelude.Table.{find, update}
use configurable_crm.Errors.{
  label_limit, duplicate_label, label_archived, Result, ok, raise, raise_if, not_found, conflict,
  unprocessable, ◌>>=◌, ◌>>◌,
}
use configurable_crm.Timeline.{Lead}

pub record Label : Type 0 where
  pub id : ℕ
  pub name : String
  pub color : Option String
  pub sort_order : ℕ
  pub is_archived : Bool

-- A row of `lead_labels`: a lead and a label.
abbrev pub LeadLabel : Type 0
LeadLabel = ℕ × ℕ

pub record Board : Type 0 where
  pub labels : List Label
  pub links : List LeadLabel
  pub leads : List Lead

abbrev pub max_labels : ℕ
max_labels = 100

abbrev pub label_key : Label → ℕ
label_key l = l.id

unfoldable pub get_label : ℕ → List Label → Result Label
get_label i labels = elim (find label_key i labels) [ none ↦ raise not_found | some l ↦ ok l ]

abbrev pub is_link : ℕ → ℕ → LeadLabel → Bool
is_link lead label (a, b) = a == lead && b == label

abbrev pub set_color : Option String → Label → Label
set_color none l = l
set_color (some c) l = record l { color = some c }

-- The lead of a link: it exists and is not deleted.
unfoldable pub live_lead : ℕ → List Lead → Result Lead
live_lead i leads = elim (find (λ (l : Lead). l.id) i leads) [
  | none ↦ raise not_found
  | some l ↦ (elim l.deleted_at [ none ↦ ok l | some at ↦ raise not_found ])
]

module _ (lower : String → String) where
  abbrev pub is_called : String → Label → Bool
  is_called name l = str_eq (lower l.name) (lower name)

  unfoldable pub create_label : ℕ → String → Option String → Board → Result Board
  create_label id name color b = do
    raise_if (leb max_labels (length b.labels)) (unprocessable label_limit)
    raise_if (any (is_called name) b.labels) (conflict duplicate_label)
    ok (record b {
      labels =
          b.labels
          ++ record {
            id = id;
            name = name;
            color = color;
            sort_order = length b.labels;
            is_archived = false;
          }
            ∷ [];
    })

  unfoldable pub renamed : ℕ → Option String → List Label → Result (List Label)
  renamed i none labels = ok labels
  renamed i (some name) labels = do
    raise_if (any (λ (o : Label). not (o.id == i) && is_called name o) labels)
        (conflict duplicate_label)
    ok (update label_key i (λ l. record l { name = name }) labels)

  unfoldable pub update_label : ℕ → Option String → Option String → Board → Result Board
  unfolding get_label renamed
  update_label i name color b = do
    get_label i b.labels
    labels ← renamed i name b.labels
    ok (record b { labels = update label_key i (set_color color) labels })

unfoldable pub archive_label : ℕ → Board → Result Board
unfolding get_label
archive_label i b = do
  get_label i b.labels
  ok (record b { labels = update label_key i (λ l. record l { is_archived = true }) b.labels })

unfoldable pub attach : ℕ → ℕ → Board → Result Board
unfolding get_label live_lead
attach lead i b = do
  live_lead lead b.leads
  l ← get_label i b.labels
  raise_if l.is_archived (conflict label_archived)
  ok (if any (is_link lead i) b.links then b else record b { links = b.links ++ (lead, i) ∷ [] })

unfoldable pub detach : ℕ → ℕ → Board → Board
detach lead i b = record b { links = keep (λ x. not (is_link lead i x)) b.links }
