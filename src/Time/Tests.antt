-- ===== src/Time/Tests.antt =====
-- The conversion at a date after a leap day: 1 March 2024, 12:34:56.
use stm32h745_disco.Base.{◌≡◌, ◌+◌, ◌%◌, refl, arith}
use stm32h745_disco.Time.Calendar.{
  unix_to_civil, weekday, year_loop, month_loop, year_days, month_days, is_leap,
}
use stm32h745_disco.Time.Calendar.Week.{weekday_lem}
use stm32h745_disco.Time.Calendar.Days.{
  years_span, months_span, IsCivil, seconds_since_1970, unix_to_civil-seconds,
}

march :
    unix_to_civil 1709296496
    ≡ record { year = 2024; month = 3; day = 1; hour = 12; min = 34; sec = 56; wday = 5 }
unfolding unix_to_civil year_loop month_loop year_days month_days is_leap weekday
march = refl

unix_to_civil-seconds_example :
    IsCivil (unix_to_civil 1709296496)
    × (seconds_since_1970 (unix_to_civil 1709296496) ≡ 1709296496)
unix_to_civil-seconds_example = unix_to_civil-seconds 1709296496 (omega arith)

weekday_lem_example : weekday 2024 2 29 ≡ (years_span 1970 54 + months_span 2024 1 1 + 28 + 4) % 7
weekday_lem_example =
    weekday_lem 2024 2 29 (omega arith) (omega arith) (omega arith) (omega arith) (omega arith)
      (omega arith)
