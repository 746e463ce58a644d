-- ===== src/Tests/Values.antt =====
-- A monthly rule that begins on the 31st of a month, and values of the types with options.
use configurable_crm.Prelude.{true, false, Option, none, some, [], ◌∷◌, ◌≡◌, ◌⊎◌, refl, arith}
use configurable_crm.Json.{Json, text, array, object, nil, cons, end, member}
use configurable_crm.Fields.Dates.{Date, on_day, is_before, days_in_month}
use configurable_crm.Fields.Recurrence.{monthly, next_occurrence}
use configurable_crm.Fields.Occurrences.{IsFirst, occurrence, next_occurrence-IsFirst}
use configurable_crm.Fields.Normalise.{
  Texts, Context, dependent_dropdown, normalise_as, norm_tags, norm_dependent_dropdown,
}
use configurable_crm.Fields.Stable.{normalise_as-stable}

abbrev start : Date
start = on_day 4 1 31

abbrev today : Date
today = on_day 5 2 15

held_in_month : next_occurrence 2 start monthly 1 today ≡ some (on_day 5 2 28)
unfolding next_occurrence
held_in_month = refl

next_occurrence-IsFirst_example :
    (d : Date) × (next_occurrence 2 start monthly 1 today ≡ some d)
    × (((is_before start today ≡ false) × (d ≡ start))
        ⊎ ((is_before start today ≡ true) × IsFirst (occurrence start monthly 1) today d))
unfolding days_in_month
next_occurrence-IsFirst_example =
    next_occurrence-IsFirst start today monthly 1 0
      (omega arith, omega arith, omega arith, omega arith)
      (omega arith, omega arith, omega arith, omega arith) (omega arith)

abbrev plain : Texts
plain = record { strip = λ s. s; lower = λ s. s; len = λ s. 0 }

abbrev places : Context
places = record {
  option_codes = some ("tn" ∷ "chennai" ∷ []);
  option_parents = ("tn", none) ∷ ("chennai", some "tn") ∷ [];
}

stores_once :
    norm_tags plain places (some (array (cons (text "tn") (cons (text "") (cons (text "tn") nil)))))
    ≡ some (some (array (cons (text "tn") nil)))
unfolding norm_tags
stores_once = refl

abbrev chennai : Option Json
chennai = some (object (member "parent" (text "tn") (member "value" (text "chennai") end)))

normalise_as-stable_example : normalise_as plain places dependent_dropdown chennai ≡ some chennai
unfolding normalise_as norm_dependent_dropdown
normalise_as-stable_example =
    normalise_as-stable plain (λ s. refl) places (λ code p e. refl) dependent_dropdown
      (some (text "chennai")) chennai refl

stores_parent : norm_dependent_dropdown plain places (some (text "chennai")) ≡ some chennai
unfolding norm_dependent_dropdown
stores_parent = refl
