-- ===== src/Time/Clock/Calls.antt =====
-- Any sequence of calls of the clock of firmware/src/svc/time.c.
use stm32h745_disco.Base.{ℕ, Option, some, List, [], ◌∷◌, ◌^◌, ◌<◌, refl, arith, u32}
use stm32h745_disco.Base.Access.{◌>>=◌, Safe, Safe-some, Safe-bind}
use stm32h745_disco.Time.Calendar.{Civil, unix_to_civil}
use stm32h745_disco.Time.Calendar.Days.{unix_to_civil-seconds}
use stm32h745_disco.Time.Clock.{
  Clock, apply_civil, time_ntp_apply_unix, time_init, time_poll, time_now, time_set, time_rtc_set,
}
use stm32h745_disco.Time.Clock.Valid.{
  IsClock, month_days_least, time_poll-IsClock, apply_civil-IsClock, time_set-IsClock,
  time_rtc_set-IsClock,
}

-- The calls of the clock that change it.
pub data Call : Type 0 where
  poll : ℕ → Call
  set : Civil → Call
  rtc_set : ℕ → ℕ → ℕ → Call
  ntp_apply_unix : ℕ → Call

unfoldable pub after : Clock → Call → Option Clock
after c (poll dt_ms) = time_poll c dt_ms
after c (set t) = some (time_set c t).1
after c (rtc_set hh mm ss) = some (time_rtc_set c hh mm ss).1
after c (ntp_apply_unix unix_sec) = some (time_ntp_apply_unix c (u32 unix_sec))

unfoldable pub after_all : Clock → List Call → Option Clock
after_all c [] = some c
after_all c (call ∷ calls) = after c call >>= λ d. after_all d calls

ntp_apply-IsClock :
    (c : Clock) (unix_sec : ℕ) → unix_sec < 2 ^ 32 → IsClock (time_ntp_apply_unix c unix_sec)
unfolding time_ntp_apply_unix apply_civil time_now
ntp_apply-IsClock c unix_sec h =
    let v = apply_civil-IsClock c (unix_to_civil unix_sec) (unix_to_civil-seconds unix_sec h).0 in
    record { civil = v.civil; ms = v.ms }

after-IsClock : (c : Clock) (call : Call) → IsClock c → Safe IsClock (after c call)
unfolding after
after-IsClock c (poll dt_ms) v = time_poll-IsClock c dt_ms v
after-IsClock c (set t) v = Safe-some (time_set-IsClock c t v)
after-IsClock c (rtc_set hh mm ss) v = Safe-some (time_rtc_set-IsClock c hh mm ss v)
after-IsClock c (ntp_apply_unix unix_sec) v =
    Safe-some (ntp_apply-IsClock c (u32 unix_sec) (omega arith))

after_all-IsClock : (c : Clock) (calls : List Call) → IsClock c → Safe IsClock (after_all c calls)
unfolding after_all
after_all-IsClock c [] v = Safe-some v
after_all-IsClock c (call ∷ calls) v =
    Safe-bind (after-IsClock c call v) (λ d w. after_all-IsClock d calls w)

-- After `time_init`, any sequence of polls by any time, of dates and times set by hand, whether they exist or not, and
-- of times from the network ends: the loop of `add_days` stops within its fuel. It leaves a date that
-- exists, and a time of day that exists and is the one of the milliseconds that are counted.
pub time_init-IsClock : (calls : List Call) → Safe IsClock (after_all time_init.1 calls)
unfolding time_init time_now
time_init-IsClock calls = after_all-IsClock _ calls (record {
  civil = record {
    month_from = omega arith;
    month_to = omega arith;
    day_from = omega arith;
    day_to = omega (arith, month_days_least 2026 1 (omega arith) (omega arith));
    hour_to = omega arith;
    min_to = omega arith;
    sec_to = omega arith;
  };
  ms = refl;
})
