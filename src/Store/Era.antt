-- ===== src/Store/Era.antt =====
-- The year and its day in an era of 400 years, against the leap years of the Gregorian calendar.
use rqmd.Common.{
  ℕ, zero, suc, ◌+◌, ◌-◌, ◌*◌, ◌/◌, ◌%◌, ◌≤◌, ◌<◌, ◌≡◌, refl, sym, ap, subst, ◌∙◌, not, ◌&&◌, ◌||◌,
  ◌==◌, arith, if◌then◌else◌, Bool-cases, inl, inr, ◌⊎◌, ltb, min,
}
use rqmd.Store.Calendar.{year_of_era, day_of_year}

abbrev pub leap_day : ℕ → ℕ
leap_day y = if y % 4 == 0 && (not (y % 100 == 0) || y % 400 == 0) then 1 else 0

-- The days of the years before one, counted from the year 0.
abbrev pub days_before_year : ℕ → ℕ
days_before_year zero = 0
days_before_year (suc y) = days_before_year y + 365 + leap_day y

-- The first of March of a year, in days behind the first of March of the year 0.
abbrev pub march : ℕ → ℕ
march y = 365 * y + y / 4 - y / 100 + y / 400

march-suc : (y : ℕ) → march (suc y) ≡ march y + 365 + leap_day (suc y)
march-suc y = ground arith

pub march_of_year : (y : ℕ) → days_before_year y + 59 + leap_day y ≡ march y + 60
march_of_year zero = refl
march_of_year (suc y) = omega (arith, march_of_year y, march-suc y)

-- A day of the era: the century, the four years of it, the year of those and the day of that.
record Decomposed (doe c f g d : ℕ) : Type 0 where
  split : doe ≡ 36524 * c + 1461 * f + 365 * g + d
  centuries : c ≤ 3
  fours : f ≤ 24
  years : g ≤ 3
  days : d ≤ 365
  last : d ≤ 364 ⊎ (g ≡ 3)
  short : (f ≤ 23) ⊎ (365 * g + d ≤ 1459)

year_of_Decomposed :
    (doe c f g d : ℕ) → Decomposed doe c f g d → year_of_era doe ≡ 100 * c + 4 * f + g
unfolding year_of_era
year_of_Decomposed doe c f g d h =
    let century : doe / 36524 ≡ c =
      omega (arith, h.split, h.centuries, h.fours, h.years, h.days, h.short) in
    let whole : doe / 146096 ≡ 0 =
      omega (arith, h.split, h.centuries, h.fours, h.years, h.days, h.short) in
    let quarter : doe / 1460 ≡ 25 * c + f + (24 * c + f + (365 * g + d)) / 1460 =
      omega (arith, h.split) in
    let rest : 36524 * c
          + 1461 * f
          + 365 * g
          + d
          - (25 * c + f + (24 * c + f + (365 * g + d)) / 1460)
          + c
          - 0
        ≡ 365 * (100 * c + 4 * f + g) + (d - (24 * c + f + (365 * g + d)) / 1460) =
      omega (arith, h.centuries, h.fours, h.years, h.days, h.last) in
    let small : d - (24 * c + f + (365 * g + d)) / 1460 ≤ 364 =
      omega (arith, h.centuries, h.fours, h.years, h.days, h.last) in
    rw (quarter, century, whole, h.split) (omega (arith, rest, small))

decompose :
    (doe : ℕ) → doe < 146096 → (c : ℕ) × (f : ℕ) × (g : ℕ) × (d : ℕ) × Decomposed doe c f g d
decompose doe h =
    let c = doe / 36524 in
    let f = doe % 36524 / 1461 in
    let s = doe % 36524 % 1461 in
    (
      c,
      f,
      min 3 (s / 365),
      s - 365 * min 3 (s / 365),
      record {
        split = omega (arith, h);
        centuries = omega (arith, h);
        fours = omega (arith, h);
        years = omega (arith, h);
        days = omega (arith, h);
        last = omega (arith, h);
        short = omega (arith, h);
      },
    )

-- What the formulas give for a day of the era.
pub record InEra (doe : ℕ) : Type 0 where
  pub in_era : year_of_era doe ≤ 399
  pub same_day : march (year_of_era doe) + day_of_year doe ≡ doe
  pub in_year : day_of_year doe ≤ 364 + leap_day (suc (year_of_era doe))

leap_of_decomposed : (c f : ℕ) → f ≤ 23 → leap_day (suc (100 * c + 4 * f + 3)) ≡ 1
leap_of_decomposed c f h = ground arith

day_of_Decomposed : (doe c f g d : ℕ) → Decomposed doe c f g d → day_of_year doe ≡ d
unfolding day_of_year
day_of_Decomposed doe c f g d h =
    ap (λ y. doe - (365 * y + y / 4 - y / 100)) (year_of_Decomposed doe c f g d h)
    ∙ omega (arith, h.split, h.centuries, h.fours, h.years, h.days)

within_year :
    (c f g d : ℕ)
    → d ≤ 365
    → (d ≤ 364) ⊎ (g ≡ 3)
    → (f ≤ 23) ⊎ (365 * g + d ≤ 1459)
    → d ≤ 364 + leap_day (suc (100 * c + 4 * f + g))
within_year c f g d h (inl k) short = omega (arith, k)
within_year c f g d h (inr k) (inl l) = rw k (omega (arith, leap_of_decomposed c f l, h))
within_year c f g d h (inr k) (inr l) = omega (arith, k, l)

InEra-Decomposed : (doe c f g d : ℕ) → Decomposed doe c f g d → InEra doe
InEra-Decomposed doe c f g d h =
    let y = year_of_Decomposed doe c f g d h in
    let e = day_of_Decomposed doe c f g d h in
    record {
      in_era = omega (arith, y, h.centuries, h.fours, h.years);
      same_day = rw (y, e) (omega (arith, h.split, h.centuries, h.fours, h.years));
      in_year = rw (y, e) (within_year c f g d h.days h.last h.short);
    }

InEra-last : InEra 146096
unfolding day_of_year year_of_era
InEra-last = record { in_era = omega arith; same_day = refl; in_year = omega arith }

pub day-InEra : (doe : ℕ) → doe < 146097 → InEra doe
day-InEra doe h = elim (Bool-cases (ltb doe 146096)) [
  | inl e ↦ let (c, f, g, d, k) = decompose doe (ground arith) in InEra-Decomposed doe c f g d k
  | inr e ↦ let q : doe ≡ 146096 = ground arith in subst InEra (sym q) InEra-last
]
