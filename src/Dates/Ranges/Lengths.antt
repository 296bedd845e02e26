-- ===== src/Dates/Ranges/Lengths.antt =====
-- How long the ranges are.
use datacube_ows.Base.{
  subst, ℕ, suc, ◌+◌, ◌-◌, ◌≤◌, ◌≡◌, refl, sym, ap, ◌∙◌, inl, inr, Bool-cases, nat_eq, ◌==◌,
  if◌then◌else◌, arith,
}
use datacube_ows.Dates.Ranges.{
  is_leap, month_days, days_before_year, days_before_month, day_seconds, midnight, month_date_range,
  year_date_range,
}

days_before_year-suc :
    (y : ℕ)
    → 1 ≤ y
    → days_before_year (y + 1) ≡ days_before_year y + (if is_leap y then 366 else 365)
unfolding days_before_year is_leap
days_before_year-suc y h = elim (Bool-cases (is_leap y)) [
  | inl leap ↦ ground (arith, leap)
  | inr common ↦ ground (arith, common)
]

days_before_month-full : (y : ℕ) → days_before_month y 13 ≡ (if is_leap y then 366 else 365)
unfolding days_before_month month_days
days_before_month-full y = ground arith

days_before_month-step :
    (y m : ℕ) → days_before_month y (m + 1) ≡ days_before_month y m + month_days y m
unfolding days_before_month
days_before_month-step y m =
    let same : m + 1 ≡ suc m = omega arith in ap (λ k. days_before_month y k) same

month_days_positive : (y m : ℕ) → 1 ≤ m → m ≤ 12 → 1 ≤ month_days y m
unfolding month_days
month_days_positive y m h1 h12 = ground arith

year_of_months :
    (y : ℕ) → days_before_month y 12 + month_days y 12 ≡ (if is_leap y then 366 else 365)
year_of_months y = sym (days_before_month-step y 12) ∙ days_before_month-full y

-- The months after a month, and after a year.
next_month :
    (y m : ℕ) → 1 ≤ m → m ≤ 12 → midnight y (m + 1) 1 - day_seconds ≡ midnight y m (month_days y m)
unfolding midnight
next_month y m h1 h12 = omega (arith, days_before_month-step y m, month_days_positive y m h1 h12)

december : (y : ℕ) → month_days y 12 ≡ 31
unfolding month_days
december y = refl

first_month : (y : ℕ) → days_before_month y 1 ≡ 0
unfolding days_before_month month_days
first_month y = ground arith

next_year : (y : ℕ) → 1 ≤ y → midnight (y + 1) 1 1 - day_seconds ≡ midnight y 12 (month_days y 12)
unfolding midnight
next_year y h = omega (
  arith,
  days_before_year-suc y h,
  year_of_months y,
  first_month (y + 1),
  month_days_positive y 12 (omega arith) (omega arith),
)

-- The range of a month begins with its first second and ends with the first second of its last day: it
-- leaves out that day but for this second, and is a day shorter than the month.
pub month_date_range-days :
    (y m : ℕ)
    → 1 ≤ y
    → 1 ≤ m
    → m ≤ 12
    → ((month_date_range y m).0 ≡ midnight y m 1)
      × ((month_date_range y m).1 ≡ midnight y m (month_days y m))
unfolding month_date_range midnight
month_date_range-days y m hy h1 h12 = elim (Bool-cases (m + 1 == 13)) [
  | inl wraps ↦
      let december : 12 ≡ m = ground (arith, wraps) in
      (
        refl,
        rw wraps (
            subst (λ k. midnight (y + 1) 1 1 - day_seconds ≡ midnight y k (month_days y k)) december
              (next_year y hy)),
      )
  | inr within ↦ (refl, rw within (next_month y m h1 h12))
]

-- The range of a year begins with its first second and ends with its last one.
pub year_date_range-days :
    (y : ℕ)
    → 1 ≤ y
    → ((year_date_range y).0 ≡ midnight y 1 1) × ((year_date_range y).1 + 1 ≡ midnight (y + 1) 1 1)
unfolding year_date_range midnight
year_date_range-days y h = (
  refl,
  omega (arith, days_before_year-suc y h, year_of_months y, first_month (y + 1), december y),
)
