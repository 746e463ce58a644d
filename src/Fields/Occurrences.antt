-- ===== src/Fields/Occurrences.antt =====
-- The loops of `_next_occurrence` (api/app/fields/registry.py), and the occurrences that they search.
use native.Mathlib.Nat.{mul_assoc, add-mul, mul-le-mul_right, div-mul-le_self, lt-div-mul-add}
use configurable_crm.Prelude.{
  ltb, ltb→lt, ℕ, suc, ◌+◌, ◌-◌, ◌*◌, ◌/◌, ◌%◌, ◌≤◌, ◌<◌, true, false, some, ◌≡◌, ◌⊎◌, refl, arith,
  inl, inr, ◌==◌, Bool-cases, ==_iff,
}
use configurable_crm.Fields.Dates.{Date, index_of, ordinal, is_before, days_between, add_days}
use configurable_crm.Fields.Calendar.{
  IsDate, days_in_month_pos, ordinal-lt_of_index, ordinal-add_days, day-day_before_first,
}
use configurable_crm.Fields.Recurrence.{
  Frequency, yearly, monthly, weekly, daily, add_months, ceil_div, until, months_between,
  search_from, next_occurrence,
}

-- The occurrences of a rule, from its start on.
unfoldable pub occurrence : Date → Frequency → ℕ → ℕ → Date
unfolding add_months
occurrence start daily interval k = add_days (k * interval) start
occurrence start weekly interval k = add_days (7 * (k * interval)) start
occurrence start monthly interval k = add_months start (k * interval)
occurrence start yearly interval k = add_months start (k * interval * 12)

-- An occurrence that is not before today, when all earlier ones are.
abbrev pub IsFirst : (ℕ → Date) → Date → Date → Type 0
IsFirst occ today d =
    (k : ℕ) × (d ≡ occ k)
    × (is_before d today ≡ false)
    × ((j : ℕ) → (is_before (occ j) today ≡ true) ⊎ (k ≤ j))

or_later :
    (occ : ℕ → Date) (today : Date) (k : ℕ)
    → ((j : ℕ) → j < k → is_before (occ j) today ≡ true)
    → (j : ℕ) → (is_before (occ j) today ≡ true) ⊎ (k ≤ j)
or_later occ today k h j = elim (Bool-cases (ltb j k)) [
  | inl e ↦ inl (h j (ltb→lt j k e))
  | inr e ↦ inr (ground (arith, e))
]

is_before_of_lt : (a b : Date) → ordinal a < ordinal b → is_before a b ≡ true
unfolding is_before
is_before_of_lt a b h = ground (arith, h)

not-is_before_of_le : (a b : Date) → ordinal b ≤ ordinal a → is_before a b ≡ false
unfolding is_before
not-is_before_of_le a b h = ground (arith, h)

ceil_div-le : (a b : ℕ) → 0 < b → a ≤ ceil_div a b * b
unfolding ceil_div
ceil_div-le a b h = omega (arith, h, lt-div-mul-add {a = a + (b - 1)} {b = b} h)

lt_of_ceil_div : (a b j : ℕ) → 0 < b → j < ceil_div a b → j * b < a
unfolding ceil_div
lt_of_ceil_div a b j h k = omega (
  arith,
  h,
  div-mul-le_self (a + (b - 1)) b,
  mul-le-mul_right {m = j + 1} {n = (a + (b - 1)) / b} b (omega (arith, k)),
  add-mul j 1 b,
)

suc-mul_lem : (n k : ℕ) → suc n * k ≡ n * k + k
suc-mul_lem n k = omega (arith, add-mul n 1 k)

below_quotient : (a b j : ℕ) → j < a / b → j * b + b ≤ a
below_quotient a b j h = omega (
  arith,
  div-mul-le_self a b,
  mul-le-mul_right {m = j + 1} {n = a / b} b (omega (arith, h)),
  add-mul j 1 b,
)

above_quotient : (a b : ℕ) → 0 < b → a < suc (a / b) * b
above_quotient a b h = omega (arith, lt-div-mul-add {a = a} {b = b} h, suc-mul_lem (a / b) b)

module _ (d : Date) (h : IsDate d) (n : ℕ) where
  add_months-IsDate : IsDate (add_months d n)
  unfolding add_months
  add_months-IsDate =
      let total = d.month - 1 + n in
      rw (day-day_before_first (d.year + total / 12) (total % 12 + 1) (omega arith) (omega arith)) (
        omega arith,
        omega arith,
        omega (arith, h.2, days_in_month_pos (d.year + total / 12) (total % 12 + 1)),
        omega arith,
      )

  index-add_months : index_of (add_months d n) ≡ index_of d + n
  unfolding add_months
  index-add_months = omega arith

until-IsFirst :
    (occ : ℕ → Date) (today : Date) (fuel steps : ℕ)
    → ((j : ℕ) → j < steps → is_before (occ j) today ≡ true)
    → is_before (occ (suc steps)) today ≡ false
    → (d : Date) × (until (suc (suc fuel)) occ suc today steps ≡ some d) × IsFirst occ today d
unfolding until
until-IsFirst occ today fuel steps earlier later = elim (Bool-cases (is_before (occ steps) today)) [
  | inl e ↦
      rw (e, later)
        (
          occ (suc steps),
          refl,
          (
            suc steps,
            refl,
            later,
            (or_later occ today (suc steps) (λ j k. elim (Bool-cases (j == steps)) [
              | inl here ↦ rw ((==_iff j steps).0 here) e
              | inr other ↦ earlier j (ground (arith, k, other))
            ])),
          ),
        )
  | inr e ↦ rw e (occ steps, refl, (steps, refl, e, or_later occ today steps earlier))
]

module _ (start today : Date) (interval fuel : ℕ) (ds : IsDate start) (dt : IsDate today)
    (positive : 0 < interval) (behind : is_before start today ≡ true) where
  abbrev Ends : Frequency → Type 0
  Ends f =
      (d : Date) × (search_from (suc (suc fuel)) start f interval today ≡ some d)
      × IsFirst (occurrence start f interval) today d

  daily-Ends : Ends daily
  unfolding search_from occurrence days_between is_before
  daily-Ends =
      let days = days_between start today in
      let steps = ceil_div days interval in
      (
        add_days (steps * interval) start,
        refl,
        (
          steps,
          refl,
          not-is_before_of_le (add_days (steps * interval) start) today (
              omega (
                arith,
                ordinal-add_days (steps * interval) start ds,
                ceil_div-le days interval positive,
              )),
          (or_later (occurrence start daily interval) today steps (λ j k.
              is_before_of_lt (add_days (j * interval) start) today (
                omega (
                  arith,
                  ordinal-add_days (j * interval) start ds,
                  lt_of_ceil_div days interval j positive k,
                )))),
        ),
      )

  weekly-Ends : Ends weekly
  unfolding search_from occurrence days_between until
  weekly-Ends =
      let days = days_between start today in
      let a = days * 1000 / 7 in
      let b = interval * 1000 in
      let steps = ceil_div a b in
      let last = add_days (7 * (steps * interval)) start in
      let enough = not-is_before_of_le last today (
        omega (
          arith,
          ordinal-add_days (7 * (steps * interval)) start ds,
          ceil_div-le a b (omega (arith, positive)),
          mul_assoc steps interval 1000,
        )) in
      (
        last,
        rw enough refl,
        (
          steps,
          refl,
          enough,
          (or_later (occurrence start weekly interval) today steps (λ j k.
              is_before_of_lt (add_days (7 * (j * interval)) start) today (
                omega (
                  arith,
                  ordinal-add_days (7 * (j * interval)) start ds,
                  lt_of_ceil_div a b j (omega (arith, positive)) k,
                  mul_assoc j interval 1000,
                )))),
        ),
      )

  -- An occurrence some months on, before or after the month of today.
  earlier_month :
      (n : ℕ) → index_of start + n < index_of today → is_before (add_months start n) today ≡ true
  earlier_month n h = is_before_of_lt (add_months start n) today (
      ordinal-lt_of_index (add_months start n) today (add_months-IsDate start ds n) dt
        (omega (arith, h, index-add_months start ds n)))

  later_month :
      (n : ℕ) → index_of today < index_of start + n → is_before (add_months start n) today ≡ false
  later_month n h =
      let apart =
        ordinal-lt_of_index today (add_months start n) dt (add_months-IsDate start ds n)
          (omega (arith, h, index-add_months start ds n)) in
      not-is_before_of_le (add_months start n) today (omega (arith, apart))

  monthly-Ends : Ends monthly
  unfolding search_from occurrence
  monthly-Ends =
      let months = months_between start today in
      let steps = months / interval in
      until-IsFirst (λ k. add_months start (k * interval)) today fuel steps
        (λ j k.
          earlier_month (j * interval)
            (omega (arith, positive, ds.0, dt.0, below_quotient months interval j k)))
        (later_month (suc steps * interval)
          (omega (arith, ds.0, dt.0, above_quotient months interval positive)))

  yearly-Ends : Ends yearly
  unfolding search_from occurrence
  yearly-Ends =
      let years = today.year - start.year in
      let steps = years / interval in
      until-IsFirst (λ k. add_months start (k * interval * 12)) today fuel steps
        (λ j k.
          earlier_month (j * interval * 12)
            (omega (arith, positive, ds.1, dt.0, below_quotient years interval j k)))
        (later_month (suc steps * interval * 12)
          (omega (arith, ds.0, dt.1, above_quotient years interval positive)))

  search_from-Ends : (f : Frequency) → Ends f
  search_from-Ends daily = daily-Ends
  search_from-Ends weekly = weekly-Ends
  search_from-Ends monthly = monthly-Ends
  search_from-Ends yearly = yearly-Ends

-- For dates that exist and an interval of at least one, two rounds of fuel are enough at every
-- frequency, and the result is the first occurrence of the rule that is not before today. If the
-- rule starts today or later, it is the start.
pub next_occurrence-IsFirst :
    (start today : Date) (f : Frequency) (interval fuel : ℕ)
    → IsDate start
    → IsDate today
    → 0 < interval
    → (d : Date) × (next_occurrence (suc (suc fuel)) start f interval today ≡ some d)
      × (((is_before start today ≡ false) × (d ≡ start))
          ⊎ ((is_before start today ≡ true) × IsFirst (occurrence start f interval) today d))
unfolding next_occurrence
next_occurrence-IsFirst start today f interval fuel ds dt positive =
    elim (Bool-cases (is_before start today)) [
      | inl behind ↦
          let (d, ends, first) =
            search_from-Ends start today interval fuel ds dt positive behind f in
          rw behind (d, ends, inr (refl, first))
      | inr ahead ↦ rw ahead (start, refl, inl (refl, refl))
    ]
