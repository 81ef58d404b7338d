-- ===== src/Time/Calendar/Week.antt =====
-- The weekday of a date against the count of days: 1 January 1970 was a Thursday.
use stm32h745_disco.Base.{ℕ, zero, suc, ◌+◌, ◌-◌, ◌*◌, ◌/◌, ◌%◌, ◌≤◌, ◌<◌, ◌≡◌, arith}
use stm32h745_disco.Time.Calendar.{is_leap, year_days, month_days, weekday}
use stm32h745_disco.Time.Calendar.Days.{years_span, months_span}

-- The leap days before a year.
abbrev leaps : ℕ → ℕ
leaps year = (year - 1) / 4 - (year - 1) / 100 + (year - 1) / 400

leap_step : (y : ℕ) → 1 ≤ y → year_days y + leaps y ≡ 365 + leaps (y + 1)
unfolding year_days is_leap
leap_step y h = ground arith

years_leaps : (n y : ℕ) → 1 ≤ y → years_span y n + leaps y ≡ 365 * n + leaps (y + n)
years_leaps zero y h = omega arith
years_leaps (suc n) y h = omega (arith, leap_step y h, years_leaps n (y + 1) (omega arith))

-- The days from the start of 1970 to the start of a year.
years_before : (y : ℕ) → 1970 ≤ y → years_span 1970 (y - 1970) + 477 ≡ 365 * (y - 1970) + leaps y
years_before y h =
    let e : 1970 + (y - 1970) ≡ y = omega arith in
    let s = years_leaps (y - 1970) 1970 (omega arith) in
    let s' : years_span 1970 (y - 1970) + leaps 1970 ≡ 365 * (y - 1970) + leaps y = rw e at s in
    omega (arith, s')

-- From 1970 on the weekday of a date, with Sunday as 0, is found by counting the days of the calendar
-- from 1 January 1970, which was a Thursday.
pub weekday_lem :
    (y m d : ℕ)
    → 1970 ≤ y
    → y < 65536
    → 1 ≤ m
    → m ≤ 12
    → 1 ≤ d
    → d ≤ 31
    → weekday y m d ≡ (years_span 1970 (y - 1970) + months_span y 1 (m - 1) + (d - 1) + 4) % 7
unfolding weekday month_days is_leap
weekday_lem y zero d h k a b p q = absurd (omega arith)
weekday_lem y (suc zero) d h k a b p q = let e = years_before y h in ground (arith, e)
weekday_lem y (suc (suc zero)) d h k a b p q = let e = years_before y h in ground (arith, e)
weekday_lem y (suc (suc (suc zero))) d h k a b p q = let e = years_before y h in ground (arith, e)
weekday_lem y (suc (suc (suc (suc zero)))) d h k a b p q =
    let e = years_before y h in ground (arith, e)
weekday_lem y (suc (suc (suc (suc (suc zero))))) d h k a b p q =
    let e = years_before y h in ground (arith, e)
weekday_lem y (suc (suc (suc (suc (suc (suc zero)))))) d h k a b p q =
    let e = years_before y h in ground (arith, e)
weekday_lem y (suc (suc (suc (suc (suc (suc (suc zero))))))) d h k a b p q =
    let e = years_before y h in ground (arith, e)
weekday_lem y (suc (suc (suc (suc (suc (suc (suc (suc zero)))))))) d h k a b p q =
    let e = years_before y h in ground (arith, e)
weekday_lem y (suc (suc (suc (suc (suc (suc (suc (suc (suc zero))))))))) d h k a b p q =
    let e = years_before y h in ground (arith, e)
weekday_lem y (suc (suc (suc (suc (suc (suc (suc (suc (suc (suc zero)))))))))) d h k a b p q =
    let e = years_before y h in ground (arith, e)
weekday_lem y (suc (suc (suc (suc (suc (suc (suc (suc (suc (suc (suc zero))))))))))) d h k a b p q =
    let e = years_before y h in ground (arith, e)
weekday_lem y (suc (suc (suc (suc (suc (suc (suc (suc (suc (suc (suc (suc zero)))))))))))) d h k a b
      p q =
    let e = years_before y h in ground (arith, e)
weekday_lem y (suc (suc (suc (suc (suc (suc (suc (suc (suc (suc (suc (suc (suc m))))))))))))) d h k
      a b p q =
    absurd (omega arith)
