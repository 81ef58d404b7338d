-- ===== src/Time/Calendar/Days.antt =====
-- The calendar as a count of days, and `time_unix_to_civil` against it.
use stm32h745_disco.Base.{
  ℕ, suc, zero, ◌^◌, false, ◌+◌, ◌-◌, ◌*◌, ◌/◌, ◌%◌, ◌≤◌, ◌<◌, ◌≡◌, arith, ltb, ◌||◌, u8, u16,
  Bool-cases, inl, inr, ltb→lt,
}
use stm32h745_disco.Time.Calendar.{
  is_leap, month_days, year_days, year_loop, month_loop, unix_to_civil, Civil, year_rounds,
}

-- The days of `n` years from `year` on, and of `n` months from `month` on.
abbrev pub years_span : ℕ → ℕ → ℕ
years_span year zero = 0
years_span year (suc n) = year_days year + years_span (year + 1) n

abbrev pub months_span : ℕ → ℕ → ℕ → ℕ
months_span year month zero = 0
months_span year month (suc n) = month_days year month + months_span year (month + 1) n

year_days_bounds : (year : ℕ) → (365 ≤ year_days year) × (year_days year ≤ 366)
unfolding year_days
year_days_bounds year = ground arith

pub months_of_year : (year : ℕ) → months_span year 1 12 ≡ year_days year
unfolding month_days year_days
months_of_year year = elim (Bool-cases (is_leap year)) [
  | inl leap ↦ rw leap (omega arith)
  | inr plain ↦ rw plain (omega arith)
]

-- What the loop over the years ends with: it has passed whole years, and what is left is in the next.
record Years (days year : ℕ) (out : ℕ × ℕ) : Type 0 where
  passed : ℕ
  reached : out.1 ≡ year + passed
  counted : days ≡ years_span year passed + out.0
  within : out.0 < year_days out.1

one_more_year :
    (days year : ℕ) (out : ℕ × ℕ)
    → year_days year ≤ days
    → Years (days - year_days year) (year + 1) out
    → Years days year out
one_more_year days year out h rest = record {
  passed = suc rest.passed;
  reached = omega (arith, rest.reached);
  counted = omega (arith, rest.counted, h);
  within = rest.within;
}

year_loop-Years :
    (fuel days year bound : ℕ)
    → days < 365 * bound
    → bound ≤ fuel
    → year + bound ≤ 2199
    → Years days year (year_loop fuel days year)
unfolding year_loop
year_loop-Years zero days year bound h k m = absurd (omega arith)
year_loop-Years (suc fuel) days year bound h k m =
    let next : u16 (year + 1) ≡ year + 1 = omega arith in
    let early : ltb 2199 (year + 1) ≡ false = ground arith in
    elim (Bool-cases (ltb days (year_days year))) [
      | inl less ↦ rw less (record {
        passed = 0;
        reached = omega arith;
        counted = omega arith;
        within = ltb→lt days (year_days year) less;
      })
      | inr more ↦
          let enough : year_days year ≤ days = ground arith in
          let shorter : days - year_days year < 365 * (bound - 1) =
            omega (arith, year_days_bounds year, enough) in
          rw (more, next, early)
            (one_more_year days year (year_loop fuel (days - year_days year) (year + 1)) enough (
              year_loop-Years fuel (days - year_days year) (year + 1) (bound - 1) shorter
                (omega arith) (omega arith)))
    ]

record Months (year days month : ℕ) (out : ℕ × ℕ) : Type 0 where
  passed : ℕ
  reached : out.1 ≡ month + passed
  counted : days ≡ months_span year month passed + out.0
  within : out.0 < month_days year out.1

one_more_month :
    (year days month : ℕ) (out : ℕ × ℕ)
    → month_days year month ≤ days
    → Months year (days - month_days year month) (month + 1) out
    → Months year days month out
one_more_month year days month out h rest = record {
  passed = suc rest.passed;
  reached = omega (arith, rest.reached);
  counted = omega (arith, rest.counted, h);
  within = rest.within;
}

month_loop-Months :
    (left year days month : ℕ)
    → days < months_span year month left
    → Months year days month (month_loop left year days month)
unfolding month_loop
month_loop-Months zero year days month h = absurd (omega arith)
month_loop-Months (suc left) year days month h =
    elim (Bool-cases (ltb days (month_days year month))) [
      | inl less ↦ rw less (record {
        passed = 0;
        reached = omega arith;
        counted = omega arith;
        within = ltb→lt days (month_days year month) less;
      })
      | inr more ↦
          let enough : month_days year month ≤ days = ground arith in
          rw more (
            one_more_month year days month
              (month_loop left year (days - month_days year month) (month + 1)) enough
              (month_loop-Months left year (days - month_days year month) (month + 1)
                (omega arith)))
    ]

pub month_days_bound : (year month : ℕ) → month_days year month ≤ 31
unfolding month_days
month_days_bound year month = elim (Bool-cases (ltb 12 month)) [
  | inl late ↦ ground arith
  | inr early ↦ ground arith
]

month_of_days : (year month d : ℕ) → d < month_days year month → (1 ≤ month) × (month ≤ 12)
unfolding month_days
month_of_days year month d h = elim (Bool-cases (ltb month 1 || ltb 12 month)) [
  | inl out ↦ absurd (ground arith)
  | inr within ↦ ground arith
]

-- A date and time of day that exists.
pub record IsCivil (c : Civil) : Type 0 where
  pub month_from : 1 ≤ c.month
  pub month_to : c.month ≤ 12
  pub day_from : 1 ≤ c.day
  pub day_to : c.day ≤ month_days c.year c.month
  pub hour_to : c.hour < 24
  pub min_to : c.min < 60
  pub sec_to : c.sec < 60

-- The seconds from the start of 1970 to a date and time, by counting the days of the calendar.
abbrev pub seconds_since_1970 : Civil → ℕ
seconds_since_1970 c =
    (years_span 1970 (c.year - 1970) + months_span c.year 1 (c.month - 1) + (c.day - 1)) * 86400
    + c.hour * 3600
    + c.min * 60
    + c.sec

-- Every 32-bit count of seconds is converted to a date and time that exists, and that lies exactly
-- that many seconds after the start of 1970 when the days of the years and months between are counted.
pub unix_to_civil-seconds :
    (t : ℕ) → t < 2 ^ 32 → IsCivil (unix_to_civil t) × (seconds_since_1970 (unix_to_civil t) ≡ t)
unfolding unix_to_civil
unix_to_civil-seconds t h =
    let whole = t / 86400 in
    let rem = t % 86400 in
    let y = year_loop year_rounds whole 1970 in
    let m = month_loop 12 y.1 y.0 1 in
    let ys : Years whole 1970 y =
      year_loop-Years year_rounds whole 1970 137 (omega arith) (omega arith) (omega arith) in
    let ms : Months y.1 y.0 1 m =
      month_loop-Months 12 y.1 y.0 1 (omega (arith, ys.within, months_of_year y.1)) in
    let months = month_of_days y.1 m.1 m.0 ms.within in
    let bound = month_days_bound y.1 m.1 in
    let day : u8 (m.0 + 1) ≡ m.0 + 1 = omega (arith, bound, ms.within) in
    let passed_years : y.1 - 1970 ≡ ys.passed = omega (arith, ys.reached) in
    let passed_months : m.1 - 1 ≡ ms.passed = omega (arith, ms.reached) in
    let date : years_span 1970 (y.1 - 1970) + months_span y.1 1 (m.1 - 1) + (u8 (m.0 + 1) - 1)
        ≡ whole =
      rw (passed_years, passed_months, day) (omega (arith, ys.counted, ms.counted)) in
    let clock : u8 (rem / 3600) * 3600 + u8 (rem % 3600 / 60) * 60 + u8 (rem % 60) ≡ rem =
      omega arith in
    (
      record {
        month_from = months.0;
        month_to = months.1;
        day_from = omega (arith, day);
        day_to = omega (arith, day, ms.within);
        hour_to = omega arith;
        min_to = omega arith;
        sec_to = omega arith;
      },
      omega (arith, date, clock),
    )
