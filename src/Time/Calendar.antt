-- ===== src/Time/Calendar.antt =====
-- The calendar functions of firmware/src/svc/time.c.
pub mod Days
pub mod Week
use stm32h745_disco.Base.{
  ℕ, suc, zero, Bool, true, false, List, [], ◌∷◌, ◌+◌, ◌-◌, ◌*◌, ◌/◌, ◌%◌, ltb, leb, ◌==◌,
  if◌then◌else◌, not, ◌&&◌, ◌||◌, u8, u16, get_or,
}

-- The test for a leap year, which the code writes out twice.
unfoldable pub is_leap : ℕ → Bool
is_leap year = (year % 4 == 0 && not (year % 100 == 0)) || year % 400 == 0

abbrev pub k_days : List ℕ
k_days = 31 ∷ 28 ∷ 31 ∷ 30 ∷ 31 ∷ 30 ∷ 31 ∷ 31 ∷ 30 ∷ 31 ∷ 30 ∷ 31 ∷ []

-- `time_month_days`
unfoldable pub month_days : ℕ → ℕ → ℕ
month_days year month =
    if ltb month 1 || ltb 12 month
    then 0
    else if month == 2 && is_leap year
    then 29
    else get_or k_days (month - 1) 0

abbrev pub k_t : List ℕ
k_t = 0 ∷ 3 ∷ 2 ∷ 5 ∷ 0 ∷ 3 ∷ 5 ∷ 1 ∷ 4 ∷ 6 ∷ 2 ∷ 4 ∷ []

-- `time_weekday`
unfoldable pub weekday : ℕ → ℕ → ℕ → ℕ
weekday year month day =
    let y = if ltb month 3 then u16 (year + 65535) else year in
    if ltb month 1 || ltb 12 month || ltb day 1
    then 0
    else u8 ((y + y / 4 - y / 100 + y / 400 + get_or k_t (month - 1) 0 + day) % 7)

-- `time_civil_t`
pub record Civil : Type 0 where
  pub year : ℕ
  pub month : ℕ
  pub day : ℕ
  pub hour : ℕ
  pub min : ℕ
  pub sec : ℕ
  pub wday : ℕ

-- `ydays` of the loop over the years.
unfoldable pub year_days : ℕ → ℕ
year_days year = if is_leap year then 366 else 365

-- The loop of `time_unix_to_civil` over the years, with fuel: the days that are left, and the year.
unfoldable pub year_loop : ℕ → ℕ → ℕ → ℕ × ℕ
year_loop zero days year = (days, year)
year_loop (suc fuel) days year =
    let rest = year_loop fuel (days - year_days year) (u16 (year + 1)) in
    if ltb days (year_days year)
    then (days, year)
    else if ltb 2199 (u16 (year + 1))
    then (days - year_days year, u16 (year + 1))
    else rest

-- The loop over the months, with the number of rounds that it can make.
unfoldable pub month_loop : ℕ → ℕ → ℕ → ℕ → ℕ × ℕ
month_loop zero year days month = (days, month)
month_loop (suc left) year days month =
    let rest = month_loop left year (days - month_days year month) (month + 1) in
    if ltb days (month_days year month) then (days, month) else rest

-- The years from 1970 to 2199, after which the loop stops.
abbrev pub year_rounds : ℕ
year_rounds = 230

-- `time_unix_to_civil`
unfoldable pub unix_to_civil : ℕ → Civil
unix_to_civil unix_sec =
    let rem = unix_sec % 86400 in
    let (in_year, year) = year_loop year_rounds (unix_sec / 86400) 1970 in
    let (in_month, month) = month_loop 12 year in_year 1 in
    record {
      year = year;
      month = month;
      day = u8 (in_month + 1);
      hour = u8 (rem / 3600);
      min = u8 (rem % 3600 / 60);
      sec = u8 (rem % 60);
      wday = weekday year month (u8 (in_month + 1));
    }
