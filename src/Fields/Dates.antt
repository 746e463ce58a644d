-- ===== src/Fields/Dates.antt =====
-- `datetime.date` as api/app/fields/registry.py uses it: the Gregorian calendar, without its last year.
use configurable_crm.Prelude.{ℕ, zero, suc, ◌+◌, ◌-◌, ◌*◌, ◌/◌, ◌%◌, Bool, ◌==◌, ltb, if◌then◌else◌}

pub record Date : Type 0 where
  pub year : ℕ
  pub month : ℕ
  pub day : ℕ

-- `dt.date(year, month, day)`
abbrev pub on_day : (year month day : ℕ) → Date
on_day = λ y m d. record { day = d; month = m; year = y }

-- Years of a century are leap years if their century is divisible by four.
unfoldable pub is_leap : ℕ → Bool
is_leap year = if year % 100 == 0 then year / 100 % 4 == 0 else year % 4 == 0

-- Beside February, long months are the odd ones up to July and the even ones from August on.
unfoldable pub days_in_month : ℕ → ℕ → ℕ
unfolding is_leap
days_in_month year month =
    let february = if is_leap year then 29 else 28 in
    if month == 2 then february else 30 + (month + month / 8) % 2

-- Months are counted from January of the year 0.
abbrev pub index_of : Date → ℕ
index_of d = d.year * 12 + (d.month - 1)

-- The days in all months before one.
unfoldable pub days_before : ℕ → ℕ
unfolding days_in_month
days_before zero = 0
days_before (suc i) = days_before i + days_in_month (i / 12) (i % 12 + 1)

-- The position of a date, up to an offset that differences and comparisons do not see.
unfoldable pub ordinal : Date → ℕ
unfolding days_before
ordinal d = days_before (index_of d) + d.day

-- `a < b` and `(b - a).days`
unfoldable pub is_before : Date → Date → Bool
unfolding ordinal
is_before a b = ltb (ordinal a) (ordinal b)

unfoldable pub days_between : Date → Date → ℕ
unfolding ordinal
days_between a b = ordinal b - ordinal a

-- `d + timedelta(days=1)` and `d - timedelta(days=1)`
unfoldable pub day_after : Date → Date
unfolding days_in_month
day_after d =
    if ltb d.day (days_in_month d.year d.month)
    then on_day d.year d.month (d.day + 1)
    else if d.month == 12
    then on_day (d.year + 1) 1 1
    else on_day d.year (d.month + 1) 1

unfoldable pub day_before : Date → Date
unfolding days_in_month
day_before d =
    if ltb 1 d.day
    then on_day d.year d.month (d.day - 1)
    else if d.month == 1
    then on_day (d.year - 1) 12 31
    else on_day d.year (d.month - 1) (days_in_month d.year (d.month - 1))

-- `d + timedelta(days=n)`
unfoldable pub add_days : ℕ → Date → Date
unfolding day_after
add_days zero d = d
add_days (suc n) d = day_after (add_days n d)
