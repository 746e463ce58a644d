-- ===== src/Fields/Recurrence.antt =====
-- Recurring dates (api/app/fields/registry.py: `_next_occurrence`, `_add_months`). The loops run on fuel.
-- Years beyond 9999, where Python raises, are left out.
use configurable_crm.Prelude.{
  ℕ, zero, suc, ◌+◌, ◌-◌, ◌*◌, ◌/◌, ◌%◌, not, Option, none, some, ◌==◌, min, if◌then◌else◌,
}
use configurable_crm.Fields.Dates.{Date, on_day, is_before, days_between, day_before, add_days}

pub data Frequency : Type 0 where
  yearly monthly weekly daily : Frequency

-- `_add_months`: the day is held within the month.
unfoldable pub add_months : Date → ℕ → Date
unfolding day_before
add_months d months =
    let total = d.month - 1 + months in
    let year = d.year + total / 12 in
    let month = total % 12 + 1 in
    let next_month_start =
      if month == 12 then on_day (year + 1) 1 1 else on_day year (month + 1) 1 in
    let last_day = (day_before next_month_start).day in on_day year month (min d.day last_day)

-- `-(-a // b)`
unfoldable pub ceil_div : ℕ → ℕ → ℕ
ceil_div a b = (a + (b - 1)) / b

-- `while candidate < today: …` from a state of the loop; none where the fuel is used up.
unfoldable pub until {ℓ} : {S : Type ℓ} → ℕ → (S → Date) → (S → S) → Date → S → Option Date
unfolding is_before
until zero candidate step today s = none
until (suc fuel) candidate step today s =
    let rest = until fuel candidate step today (step s) in
    if is_before (candidate s) today then rest else some (candidate s)

-- The years, months and days from one date on to another.
abbrev pub months_between : Date → Date → ℕ
months_between a b = b.year * 12 + b.month - (a.year * 12 + a.month)

-- The branches after `if start >= today`. The number of weeks, a float to three places, is exact in them.
unfoldable pub search_from : ℕ → Date → Frequency → ℕ → Date → Option Date
unfolding until add_months ceil_div days_between
search_from fuel start daily interval today =
    some (add_days (ceil_div (days_between start today) interval * interval) start)
search_from fuel start weekly interval today =
    let thousandths = days_between start today * 1000 / 7 in
    let steps = ceil_div thousandths (interval * 1000) in
    until fuel (λ (d : Date). d) (add_days (7 * interval)) today
      (add_days (7 * (steps * interval)) start)
search_from fuel start monthly interval today =
    until fuel (λ (steps : ℕ). add_months start (steps * interval)) suc today
      (months_between start today / interval)
search_from fuel start yearly interval today =
    until fuel (λ (steps : ℕ). add_months start (steps * interval * 12)) suc today
      ((today.year - start.year) / interval)

unfoldable pub next_occurrence : ℕ → Date → Frequency → ℕ → Date → Option Date
unfolding search_from
next_occurrence fuel start frequency interval today =
    if not (is_before start today)
    then some start
    else search_from fuel start frequency interval today
