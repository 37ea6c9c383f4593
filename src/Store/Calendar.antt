-- ===== src/Store/Calendar.antt =====
-- crates/rqmd-core/src/store.rs: format_rfc3339, the time of a row in UTC.
use rqmd.Common.{
  ℕ, zero, suc, ◌+◌, ◌-◌, ◌*◌, ◌/◌, ◌%◌, [], ◌∷◌, ◌++◌, ltb, leb, if◌then◌else◌, length,
}
use rqmd.Text.{Bytes}
use rqmd.Text.Decimal.{decimal}

pub record DateTime : Type 0 where
  pub year : ℕ
  pub month : ℕ
  pub day : ℕ
  pub hour : ℕ
  pub minute : ℕ
  pub second : ℕ

-- The year of the era, from the day of the era; years begin in March.
unfoldable pub year_of_era : ℕ → ℕ
year_of_era doe = (doe - doe / 1460 + doe / 36524 - doe / 146096) / 365

unfoldable pub day_of_year : ℕ → ℕ
unfolding year_of_era
day_of_year doe = doe - (365 * year_of_era doe + year_of_era doe / 4 - year_of_era doe / 100)

-- The month from March on, for a day of the year.
unfoldable pub month_index : ℕ → ℕ
month_index doy = (5 * doy + 2) / 153

unfoldable pub day_of_month : ℕ → ℕ
unfolding month_index
day_of_month doy = doy - (153 * month_index doy + 2) / 5 + 1

unfoldable pub month_of : ℕ → ℕ
month_of mp = if ltb mp 10 then mp + 3 else mp - 9

unfoldable pub civil : ℕ → ℕ → DateTime
unfolding year_of_era day_of_year month_index day_of_month month_of
civil secs z =
    let era = z / 146097 in
    let doe = z % 146097 in
    let doy = day_of_year doe in
    let y = year_of_era doe + era * 400 in
    let mo = month_of (month_index doy) in
    record {
      year = if leb mo 2 then y + 1 else y;
      month = mo;
      day = day_of_month doy;
      hour = secs % 86400 / 3600;
      minute = secs % 86400 % 3600 / 60;
      second = secs % 86400 % 60;
    }

unfoldable pub date_time : ℕ → DateTime
unfolding civil
date_time secs = civil secs (secs / 86400 + 719468)

-- `{:0width}`
unfoldable pub padded : ℕ → ℕ → Bytes
unfolding decimal
padded width n = zeros (width - length (decimal n)) ++ decimal n
  where
    zeros : ℕ → Bytes
    zeros zero = []
    zeros (suc k) = b'0' ∷ zeros k

unfoldable pub format_rfc3339 : ℕ → Bytes
unfolding date_time padded
format_rfc3339 secs =
    let t = date_time secs in
    padded 4 t.year
    ++ b'-' ∷ padded 2 t.month
    ++ b'-' ∷ padded 2 t.day
    ++ b'T' ∷ padded 2 t.hour
    ++ b':' ∷ padded 2 t.minute
    ++ b':' ∷ padded 2 t.second
    ++ b'Z' ∷ []
