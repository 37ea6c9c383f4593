-- ===== src/Store/Dates.antt =====
-- The time of a row is that of the Gregorian calendar.
use rqmd.Common.{
  ℕ, zero, suc, ◌+◌, ◌-◌, ◌*◌, ◌/◌, ◌%◌, ◌≤◌, ◌≡◌, subst, true, false, ◌||◌, ◌==◌, arith,
  if◌then◌else◌, Bool-cases, inl, inr, ltb, leb,
}
use rqmd.Store.Calendar.{
  DateTime, year_of_era, day_of_year, month_index, day_of_month, month_of, civil, date_time,
}
use rqmd.Store.Era.{leap_day, days_before_year, march, march_of_year, day-InEra}

abbrev pub month_length : ℕ → ℕ → ℕ
month_length y m =
    if m == 2 then 28 + leap_day y else if m == 4 || m == 6 || m == 9 || m == 11 then 30 else 31

abbrev pub days_before_month : ℕ → ℕ → ℕ
days_before_month y zero = 0
days_before_month y (suc zero) = 0
days_before_month y (suc (suc m)) = days_before_month y (suc m) + month_length y (suc m)

-- A date of the calendar, with the day of its year, from 0 on.
pub record OnDay (y m d n : ℕ) : Type 0 where
  pub month_from : 1 ≤ m
  pub month_to : m ≤ 12
  pub day_from : 1 ≤ d
  pub day_to : d ≤ month_length y m
  pub counted : days_before_month y m + d ≡ suc n

-- The months from March to December begin on those days, and have those lengths.
starts :
    (y mp : ℕ)
    → mp ≤ 9
    → (days_before_month y (mp + 3) ≡ 59 + leap_day y + (153 * mp + 2) / 5)
      × (month_length y (mp + 3) ≡ (153 * suc mp + 2) / 5 - (153 * mp + 2) / 5)
starts y zero h = (omega arith, omega arith)
starts y (suc zero) h = (omega arith, omega arith)
starts y (suc (suc zero)) h = (omega arith, omega arith)
starts y (suc (suc (suc zero))) h = (omega arith, omega arith)
starts y (suc (suc (suc (suc zero)))) h = (omega arith, omega arith)
starts y (suc (suc (suc (suc (suc zero))))) h = (omega arith, omega arith)
starts y (suc (suc (suc (suc (suc (suc zero)))))) h = (omega arith, omega arith)
starts y (suc (suc (suc (suc (suc (suc (suc zero))))))) h = (omega arith, omega arith)
starts y (suc (suc (suc (suc (suc (suc (suc (suc zero)))))))) h = (omega arith, omega arith)
starts y (suc (suc (suc (suc (suc (suc (suc (suc (suc zero))))))))) h = (omega arith, omega arith)
starts y (suc (suc (suc (suc (suc (suc (suc (suc (suc (suc mp)))))))))) h = absurd (omega arith)

late_month :
    (y doy : ℕ)
    → doy ≤ 305
    → OnDay y (month_of (month_index doy)) (day_of_month doy) (59 + leap_day y + doy)
unfolding month_of day_of_month month_index
late_month y doy h =
    let mp = (5 * doy + 2) / 153 in
    let (before, len) = starts y mp (omega (arith, h)) in
    let early : ltb mp 10 ≡ true = ground arith in
    rw early (record {
      month_from = omega arith;
      month_to = omega (arith, h);
      day_from = omega arith;
      day_to = omega (arith, len);
      counted = omega (arith, before);
    })

leap_day_le : (y : ℕ) → leap_day y ≤ 1
leap_day_le y = ground arith

early_month :
    (y doy : ℕ)
    → 306 ≤ doy
    → doy ≤ 364 + leap_day y
    → OnDay y (month_of (month_index doy)) (day_of_month doy) (doy - 306)
unfolding month_of day_of_month month_index
early_month y doy h k = elim (Bool-cases (ltb doy 337)) [
  | inl e ↦
      let mp : (5 * doy + 2) / 153 ≡ 10 = ground arith in
      rw mp (record {
        month_from = omega arith;
        month_to = omega arith;
        day_from = omega arith;
        day_to = ground arith;
        counted = ground arith;
      })
  | inr e ↦
      let mp : (5 * doy + 2) / 153 ≡ 11 = let le = leap_day_le y in ground arith in
      rw mp (record {
        month_from = omega arith;
        month_to = omega arith;
        day_from = omega arith;
        day_to = ground arith;
        counted = ground arith;
      })
]

march-era : (k era : ℕ) → march (k + era * 400) ≡ era * 146097 + march k
march-era k era = omega arith

leap_day-era : (k era : ℕ) → leap_day (suc (k + era * 400)) ≡ leap_day (suc k)
leap_day-era k era = ground arith

late_is_march : (doy : ℕ) → doy ≤ 305 → leb (month_of (month_index doy)) 2 ≡ false
unfolding month_of month_index
late_is_march doy h =
    let early : ltb ((5 * doy + 2) / 153) 10 ≡ true = ground arith in rw early (ground arith)

early_is_january : (doy : ℕ) → 306 ≤ doy → doy ≤ 365 → leb (month_of (month_index doy)) 2 ≡ true
unfolding month_of month_index
early_is_january doy h k =
    let late : ltb ((5 * doy + 2) / 153) 10 ≡ false = ground arith in rw late (ground arith)

-- The days of the calendar up to a date are so many.
pub record OnDays (t : DateTime) (days : ℕ) : Type 0 where
  pub day_in_year : ℕ
  pub on_day : OnDay t.year t.month t.day day_in_year
  pub all_days : days_before_year t.year + day_in_year ≡ days

civil-OnDays : (secs z : ℕ) → OnDays (civil secs z) (z + 60)
unfolding civil
civil-OnDays secs z =
    let era = z / 146097 in
    let doe = z % 146097 in
    let doy = day_of_year doe in
    let y = year_of_era doe + era * 400 in
    let h = day-InEra doe (omega arith) in
    let whole : z ≡ era * 146097 + doe = omega arith in
    elim (Bool-cases (leb doy 305)) [
      | inl e ↦ rw (late_is_march doy (ground arith)) (record {
        day_in_year = 59 + leap_day y + doy;
        on_day = late_month y doy (ground arith);
        all_days =
            omega (arith, whole, h.same_day, march-era (year_of_era doe) era, march_of_year y);
      })
      | inr e ↦
          let most : doy ≤ 365 = omega (arith, h.in_year, leap_day_le (suc (year_of_era doe))) in
          let next : y + 1 ≡ suc y = omega arith in
          rw (early_is_january doy (ground arith) most, next)
            (record {
              day_in_year = doy - 306;
              on_day =
                  early_month (suc y) doy (ground arith)
                    (omega (arith, h.in_year, leap_day-era (year_of_era doe) era));
              all_days =
                  let later : 306 ≤ doy = ground arith in
                  omega (
                    arith,
                    whole,
                    h.same_day,
                    march-era (year_of_era doe) era,
                    march_of_year y,
                    later,
                  );
            })
    ]

-- The date and the time of so many seconds since the beginning of 1970.
pub record IsTime (secs : ℕ) (t : DateTime) : Type 0 where
  pub date : OnDays t (days_before_year 1970 + secs / 86400)
  pub hour_to : t.hour ≤ 23
  pub minute_to : t.minute ≤ 59
  pub second_to : t.second ≤ 59
  pub all_seconds : t.hour * 3600 + t.minute * 60 + t.second ≡ secs % 86400

epoch : days_before_year 1970 ≡ 719528
epoch = omega (arith, march_of_year 1970)

-- For every number of seconds, the date is one of the Gregorian calendar, with the days since the beginning of 1970 that the seconds fill, and the hours, minutes and seconds are the rest.
pub date_time-IsTime : (secs : ℕ) → IsTime secs (date_time secs)
unfolding date_time
date_time-IsTime secs = record {
  date =
      subst (OnDays (civil secs (secs / 86400 + 719468))) (omega (arith, epoch))
        (civil-OnDays secs (secs / 86400 + 719468));
  hour_to = omega arith;
  minute_to = omega arith;
  second_to = omega arith;
  all_seconds = omega arith;
}
