-- ===== src/Fields/Calendar.antt =====
-- Months and days of the calendar that api/app/fields/registry.py counts with.
use configurable_crm.Prelude.{
  ℕ, zero, suc, ◌+◌, ◌-◌, ◌*◌, ◌/◌, ◌%◌, ◌≤◌, ◌<◌, false, ◌≡◌, refl, arith, inl, inr, ltb, ◌==◌,
  if◌then◌else◌, Bool-cases, ==_iff,
}
use configurable_crm.Fields.Dates.{
  Date, on_day, days_in_month, index_of, days_before, ordinal, day_after, day_before, add_days,
}

-- A date that exists.
abbrev pub IsDate : Date → Type 0
IsDate d = (1 ≤ d.month) × (d.month ≤ 12) × (1 ≤ d.day) × (d.day ≤ days_in_month d.year d.month)

pub days_in_month_pos : (y m : ℕ) → 28 ≤ days_in_month y m
unfolding days_in_month
days_in_month_pos y m = ground arith

index-year : (y m : ℕ) → 1 ≤ m → m ≤ 12 → (y * 12 + (m - 1)) / 12 ≡ y
index-year y m l u = omega (arith, l, u)

index-month : (y m : ℕ) → 1 ≤ m → m ≤ 12 → (y * 12 + (m - 1)) % 12 + 1 ≡ m
index-month y m l u = omega (arith, l, u)

-- The month after a date begins after its days.
pub days_before-suc_index :
    (d : Date)
    → IsDate d
    → days_before (suc (index_of d)) ≡ days_before (index_of d) + days_in_month d.year d.month
unfolding days_before
days_before-suc_index d (l, u, _, _) =
    rw (index-year d.year d.month l u, index-month d.year d.month l u) refl

days_before-le : (i j : ℕ) → i ≤ j → days_before i ≤ days_before j
unfolding days_before
days_before-le i zero h = let e : i ≡ 0 = omega (arith, h) in rw e (omega arith)
days_before-le i (suc j) h = elim (Bool-cases (i == suc j)) [
  | inl e ↦ rw ((==_iff i (suc j)).0 e) (omega arith)
  | inr e ↦ omega (arith, days_before-le i j (ground (arith, h, e)))
]

pub ordinal-lt_of_index :
    (a b : Date) → IsDate a → IsDate b → index_of a < index_of b → ordinal a < ordinal b
unfolding ordinal
ordinal-lt_of_index a b (la, ua, pa, fa) (lb, ub, pb, fb) h = omega (
  arith,
  fa,
  pb,
  days_before-suc_index a (la, ua, pa, fa),
  days_before-le (suc (index_of a)) (index_of b) h,
)

pub ordinal-day_after : (d : Date) → IsDate d → ordinal (day_after d) ≡ ordinal d + 1
unfolding ordinal day_after
ordinal-day_after d (l, u, p, f) = elim (Bool-cases (ltb d.day (days_in_month d.year d.month))) [
  | inl within ↦ rw within (omega arith)
  | inr last ↦
      let full : d.day ≡ days_in_month d.year d.month = ground (arith, last, f) in
      rw last (elim (Bool-cases (d.month == 12)) [
        | inl december ↦
            let e : (d.year + 1) * 12 + (1 - 1) ≡ suc (index_of d) = ground (arith, december) in
            rw (december, e, days_before-suc_index d (l, u, p, f)) (omega (arith, full))
        | inr earlier ↦
            let e : d.year * 12 + (d.month + 1 - 1) ≡ suc (index_of d) = omega (arith, l) in
            rw (earlier, e, days_before-suc_index d (l, u, p, f)) (omega (arith, full))
      ])
]

pub day_after-IsDate : (d : Date) → IsDate d → IsDate (day_after d)
unfolding day_after
day_after-IsDate d (l, u, p, f) = elim (Bool-cases (ltb d.day (days_in_month d.year d.month))) [
  | inl within ↦ rw within (l, u, omega arith, ground (arith, within))
  | inr last ↦ rw last (elim (Bool-cases (d.month == 12)) [
    | inl december ↦
        rw december
          (omega arith, omega arith, omega arith, omega (arith, days_in_month_pos (d.year + 1) 1))
    | inr earlier ↦ rw earlier (
      omega arith,
      ground (arith, earlier, u),
      omega arith,
      omega (arith, days_in_month_pos d.year (d.month + 1)),
    )
  ])
]

pub add_days-IsDate : (n : ℕ) (d : Date) → IsDate d → IsDate (add_days n d)
unfolding add_days
add_days-IsDate zero d h = h
add_days-IsDate (suc n) d h = day_after-IsDate (add_days n d) (add_days-IsDate n d h)

pub ordinal-add_days : (n : ℕ) (d : Date) → IsDate d → ordinal (add_days n d) ≡ ordinal d + n
unfolding add_days
ordinal-add_days zero d h = omega arith
ordinal-add_days (suc n) d h =
    omega (arith, ordinal-day_after (add_days n d) (add_days-IsDate n d h), ordinal-add_days n d h)

-- Days before the first of a month are the month before's last.
pub day-day_before_first :
    (y m : ℕ)
    → 1 ≤ m
    → m ≤ 12
    → (day_before (if m == 12 then on_day (y + 1) 1 1 else on_day y (m + 1) 1)).day
      ≡ days_in_month y m
unfolding day_before days_in_month
day-day_before_first y m l u = elim (Bool-cases (m == 12)) [
  | inl december ↦ rw (december, (==_iff m 12).0 december) refl
  | inr earlier ↦
      let later : (m + 1 == 1) ≡ false = ground (arith, l) in
      let back : m + 1 - 1 ≡ m = omega arith in rw (earlier, later, back) refl
]
