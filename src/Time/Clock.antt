-- ===== src/Time/Clock.antt =====
-- The clock of firmware/src/svc/time.c as it is built for a computer: on the board its calls go to the real-time clock.
pub mod Valid
pub mod Calls
mod Tests
use stm32h745_disco.Base.{
  ℕ, zero, suc, Bool, Option, none, some, ◌+◌, ◌-◌, ◌*◌, ◌/◌, ◌%◌, ltb, leb, ◌==◌, if◌then◌else◌,
  not, ◌||◌, u8, u16, u32, Err,
}
use stm32h745_disco.Base.Access.{◌>>=◌}
use stm32h745_disco.Time.Calendar.{Civil, month_days, weekday, unix_to_civil}

-- `time_ntp_st_t`
pub data NtpState : Type 0 where
  ntp_idle ntp_wait ntp_ok ntp_err : NtpState

-- The static variables.
pub record Clock : Type 0 where
  pub ntp : NtpState
  pub ready : ℕ
  pub ms : ℕ
  pub year : ℕ
  pub month : ℕ
  pub day : ℕ
  pub hh : ℕ
  pub mm : ℕ
  pub ss : ℕ

-- `from_ms`
unfoldable pub from_ms : Clock → Clock
from_ms c =
    let sec = c.ms / 1000 in
    record c { ss = u8 (sec % 60); mm = u8 (sec / 60 % 60); hh = u8 (sec / 60 / 60 % 24) }

-- The month after the one of the clock, from its first day.
abbrev pub next_month : Clock → Clock
next_month c =
    let month = u8 (c.month + 1) in
    if ltb 12 month
    then record c { day = 1; month = 1; year = u16 (c.year + 1) }
    else record c { day = 1; month = month }

-- The day of the clock in its month, or the first one.
abbrev pub day_in_month : Clock → ℕ
day_in_month c =
    let md = month_days c.year c.month in
    if md == 0 || (ltb c.day 1 || ltb md c.day) then 1 else c.day

-- `add_days`, with fuel that runs out at `none`.
unfoldable pub add_days : ℕ → Clock → ℕ → Option Clock
add_days zero c days = none
add_days (suc fuel) c days =
    let day = day_in_month c in
    let left = u8 (month_days c.year c.month + 256 - day + 1) in
    let rest = add_days fuel (next_month c) (days - left) in
    if days == 0
    then some c
    else if ltb days left
    then some (record c { day = u8 (day + days) })
    else rest

-- `apply_civil`
unfoldable pub apply_civil : Clock → Civil → Clock
apply_civil c t = record c {
  year = t.year;
  month = t.month;
  day = t.day;
  hh = t.hour;
  mm = t.min;
  ss = t.sec;
  ms = u32 ((t.hour * 3600 + t.min * 60 + t.sec) * 1000);
}

-- `time_ntp_apply_unix`
unfoldable pub time_ntp_apply_unix : Clock → ℕ → Clock
time_ntp_apply_unix c unix_sec = record (apply_civil c (unix_to_civil unix_sec)) {
  ntp = NtpState.ntp_ok;
}

-- `time_init`
unfoldable pub time_init : Err × Clock
time_init = (
  Err.ok,
  record {
    ntp = NtpState.ntp_idle;
    ready = 1;
    ms = 0;
    year = 2026;
    month = 1;
    day = 1;
    hh = 0;
    mm = 0;
    ss = 0;
  },
)

-- `time_poll`; there are at most 49 days in 2 ^ 32 ms, and each round of `add_days` takes one at least.
unfoldable pub time_poll : Clock → ℕ → Option Clock
time_poll c dt_ms =
    let ms = u32 (c.ms + dt_ms) in
    let days = ms / 86400000 in
    let moved = add_days (days + 1) (record c { ms = ms % 86400000 }) days in
    if ltb 0 days then (moved >>= λ d. some (from_ms d)) else some (from_ms (record c { ms = ms }))

-- `time_now`
unfoldable pub time_now : Clock → Err × Civil
time_now c = (
  Err.ok,
  record {
    year = c.year;
    month = c.month;
    day = c.day;
    hour = c.hh;
    min = c.mm;
    sec = c.ss;
    wday = weekday c.year c.month c.day;
  },
)

-- `time_set`
unfoldable pub time_set : Clock → Civil → Err × Clock
time_set c t =
    if ltb t.month 1
      || (ltb 12 t.month || (ltb t.day 1 || (ltb 23 t.hour || (ltb 59 t.min || ltb 59 t.sec))))
    then (Err.inval, c)
    else if ltb (month_days t.year t.month) t.day
    then (Err.inval, c)
    else (Err.ok, apply_civil c t)

-- `time_rtc_set`
unfoldable pub time_rtc_set : Clock → ℕ → ℕ → ℕ → Err × Clock
time_rtc_set c hh mm ss = if ltb 23 hh || (ltb 59 mm || ltb 59 ss) then (Err.inval, c) else (
  Err.ok,
  record c { ms = u32 ((hh * 3600 + mm * 60 + ss) * 1000); hh = hh; mm = mm; ss = ss },
)
