-- ===== src/Time/Clock/Tests.antt =====
-- The clock at concrete calls.
use stm32h745_disco.Base.{some, List, [], ◌∷◌, ◌≡◌, refl}
use stm32h745_disco.Base.Access.{Safe}
use stm32h745_disco.Time.Calendar.{Civil, month_days, is_leap}
use stm32h745_disco.Time.Clock.{NtpState, Clock, from_ms, add_days, time_init, time_poll}
use stm32h745_disco.Time.Clock.Valid.{IsClock}
use stm32h745_disco.Time.Clock.Calls.{
  Call, poll, set, rtc_set, ntp_apply_unix, after_all, time_init-IsClock,
}

-- A second before the end of a leap day.
abbrev leap_day : Clock
leap_day = record {
  ntp = NtpState.ntp_idle;
  ready = 1;
  ms = 86399000;
  year = 2028;
  month = 2;
  day = 29;
  hh = 23;
  mm = 59;
  ss = 59;
}

next_day :
    time_poll leap_day 1500
    ≡ some (record leap_day { ms = 500; month = 3; day = 1; hh = 0; mm = 0; ss = 0 })
unfolding time_poll add_days from_ms month_days is_leap
next_day = refl

abbrev new_year : Civil
new_year = record { year = 2027; month = 13; day = 1; hour = 0; min = 0; sec = 0; wday = 0 }

abbrev calls : List Call
calls =
    ntp_apply_unix 1800000000 ∷ poll 4294967295 ∷ set new_year ∷ rtc_set 23 59 58 ∷ poll 5000 ∷ []

time_init-IsClock_example : Safe IsClock (after_all time_init.1 calls)
time_init-IsClock_example = time_init-IsClock calls
