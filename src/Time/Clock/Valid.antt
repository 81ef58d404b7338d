-- ===== src/Time/Clock/Valid.antt =====
-- Every state of the clock of firmware/src/svc/time.c is a date and a time that exist.
use stm32h745_disco.Base.{
  ℕ, zero, suc, ◌+◌, ◌-◌, ◌*◌, ◌/◌, ◌%◌, ◌≤◌, ◌<◌, ◌≡◌, inl, inr, refl, ◌∙◌, arith, ltb, ◌==◌, ◌||◌,
  u8, u16, u32, Bool-cases,
}
use stm32h745_disco.Base.Access.{Safe, Safe-some, Safe-bind, Safe-if}
use stm32h745_disco.Time.Calendar.{Civil, month_days}
use stm32h745_disco.Time.Calendar.Days.{IsCivil, month_days_bound}
use stm32h745_disco.Time.Clock.{
  Clock, from_ms, next_month, day_in_month, add_days, apply_civil, time_poll, time_now, time_set,
  time_rtc_set,
}

record Dated (c : Clock) : Type 0 where
  month_from : 1 ≤ c.month
  month_to : c.month ≤ 12
  day_from : 1 ≤ c.day
  day_to : c.day ≤ month_days c.year c.month

pub month_days_least : (year month : ℕ) → 1 ≤ month → month ≤ 12 → 28 ≤ month_days year month
unfolding month_days
month_days_least year month l u = ground (arith, l, u)

day_in_month-Dated : (c : Clock) → Dated c → day_in_month c ≡ c.day
day_in_month-Dated c d =
    let least = month_days_least c.year c.month d.month_from d.month_to in
    ground (arith, least, d.day_from, d.day_to)

-- The date goes on, the time of day stays.
record Stepped (c d : Clock) : Type 0 where
  dated : Dated d
  ms : d.ms ≡ c.ms

next_month-Stepped : (c : Clock) → Dated c → Stepped c (next_month c)
next_month-Stepped c d = elim (Bool-cases (ltb 12 (u8 (c.month + 1)))) [
  | inl e ↦
      let least = month_days_least (u16 (c.year + 1)) 1 (omega arith) (omega arith) in
      rw e (record {
        dated = record {
          month_from = omega arith;
          month_to = omega arith;
          day_from = omega arith;
          day_to = omega (arith, least);
        };
        ms = refl;
      })
  | inr e ↦
      let month : u8 (c.month + 1) ≡ c.month + 1 = omega (arith, d.month_to) in
      let short : c.month + 1 ≤ 12 = ground (arith, e, d.month_to) in
      let least = month_days_least c.year (c.month + 1) (omega arith) short in
      rw e (record {
        dated = record {
          month_from = omega (arith, month);
          month_to = omega (arith, month, short);
          day_from = omega arith;
          day_to = rw month (omega (arith, least));
        };
        ms = refl;
      })
]

add_days-Stepped :
    (fuel : ℕ) (c : Clock) (days : ℕ)
    → days < fuel
    → Dated c
    → Safe (Stepped c) (add_days fuel c days)
unfolding add_days
add_days-Stepped zero c days h d = absurd (omega (arith, h))
add_days-Stepped (suc fuel) c days h d =
    let bound = month_days_bound c.year c.month in
    let least = month_days_least c.year c.month d.month_from d.month_to in
    let left = u8 (month_days c.year c.month + 256 - day_in_month c + 1) in
    let place : left ≡ month_days c.year c.month - c.day + 1 =
      rw (day_in_month-Dated c d) (omega (arith, bound, d.day_from, d.day_to)) in
    let n = next_month-Stepped c d in
    Safe-if (days == 0) (λ e. Safe-some (record { dated = d; ms = refl }))
      (λ e.
        Safe-if (ltb days left)
          (λ f.
            let less : days < month_days c.year c.month - c.day + 1 = ground (arith, f, place) in
            let fits : c.day + days ≤ month_days c.year c.month = omega (arith, less, d.day_to) in
            let day : u8 (day_in_month c + days) ≡ c.day + days =
              rw (day_in_month-Dated c d) (omega (arith, fits, bound)) in
            Safe-some (record {
              dated = record {
                month_from = d.month_from;
                month_to = d.month_to;
                day_from = rw day (omega (arith, d.day_from));
                day_to = rw day fits;
              };
              ms = refl;
            }))
          (λ f.
            let s =
              add_days-Stepped fuel (next_month c) (days - left) (ground (arith, e, h, place))
                n.dated in
            record {
              result = s.result;
              reached = s.reached;
              holds = record { dated = s.holds.dated; ms = s.holds.ms ∙ n.ms };
            }))

-- A date that exists, and a time of day that exists and is the one of `g_ms`.
pub record IsClock (c : Clock) : Type 0 where
  pub civil : IsCivil (time_now c).1
  pub ms : c.ms / 1000 ≡ c.hh * 3600 + c.mm * 60 + c.ss

civil-Dated : (c : Clock) → IsCivil (time_now c).1 → Dated c
unfolding time_now
civil-Dated c v = record {
  month_from = v.month_from;
  month_to = v.month_to;
  day_from = v.day_from;
  day_to = v.day_to;
}

-- The time of day that `from_ms` gives.
from_ms-IsClock : (c : Clock) → Dated c → c.ms < 86400000 → IsClock (from_ms c)
unfolding from_ms time_now
from_ms-IsClock c d h = record {
  civil = record {
    month_from = d.month_from;
    month_to = d.month_to;
    day_from = d.day_from;
    day_to = d.day_to;
    hour_to = omega (arith, h);
    min_to = omega (arith, h);
    sec_to = omega (arith, h);
  };
  ms = omega (arith, h);
}

pub time_poll-IsClock : (c : Clock) (dt_ms : ℕ) → IsClock c → Safe IsClock (time_poll c dt_ms)
unfolding time_poll
time_poll-IsClock c dt_ms v =
    let d = civil-Dated c v.civil in
    let ms = u32 (c.ms + dt_ms) in
    let at : Dated (record c { ms = ms % 86400000 }) = record {
      month_from = d.month_from;
      month_to = d.month_to;
      day_from = d.day_from;
      day_to = d.day_to;
    } in
    Safe-if (ltb 0 (ms / 86400000))
      (λ e.
        Safe-bind
          (add_days-Stepped (ms / 86400000 + 1) (record c { ms = ms % 86400000 }) (ms / 86400000)
            (omega arith) at)
          (λ m s. Safe-some (from_ms-IsClock m s.dated (rw s.ms (omega arith)))))
      (λ e. Safe-some (
        from_ms-IsClock (record c { ms = ms })
          (record {
            month_from = d.month_from;
            month_to = d.month_to;
            day_from = d.day_from;
            day_to = d.day_to;
          })
          (ground (arith, e))))

pub apply_civil-IsClock : (c : Clock) (t : Civil) → IsCivil t → IsClock (apply_civil c t)
unfolding apply_civil time_now
apply_civil-IsClock c t v = record {
  civil = record {
    month_from = v.month_from;
    month_to = v.month_to;
    day_from = v.day_from;
    day_to = v.day_to;
    hour_to = v.hour_to;
    min_to = v.min_to;
    sec_to = v.sec_to;
  };
  ms = omega (arith, v.hour_to, v.min_to, v.sec_to);
}

pub time_set-IsClock : (c : Clock) (t : Civil) → IsClock c → IsClock (time_set c t).1
unfolding time_set
time_set-IsClock c t v =
    elim (Bool-cases (
      ltb t.month 1
      || (ltb 12 t.month || (ltb t.day 1 || (ltb 23 t.hour || (ltb 59 t.min || ltb 59 t.sec)))))) [
        | inl e ↦ rw e v
        | inr e ↦ elim (Bool-cases (ltb (month_days t.year t.month) t.day)) [
          | inl f ↦ rw (e, f) v
          | inr f ↦
              rw (e, f)
                (apply_civil-IsClock c t (record {
                  month_from = ground (arith, e);
                  month_to = ground (arith, e);
                  day_from = ground (arith, e);
                  day_to = ground (arith, f);
                  hour_to = ground (arith, e);
                  min_to = ground (arith, e);
                  sec_to = ground (arith, e);
                }))
        ]
      ]

pub time_rtc_set-IsClock :
    (c : Clock) (hh mm ss : ℕ) → IsClock c → IsClock (time_rtc_set c hh mm ss).1
unfolding time_rtc_set time_now
time_rtc_set-IsClock c hh mm ss v = elim (Bool-cases (ltb 23 hh || (ltb 59 mm || ltb 59 ss))) [
  | inl e ↦ rw e v
  | inr e ↦ rw e (record {
    civil = record {
      month_from = v.civil.month_from;
      month_to = v.civil.month_to;
      day_from = v.civil.day_from;
      day_to = v.civil.day_to;
      hour_to = ground (arith, e);
      min_to = ground (arith, e);
      sec_to = ground (arith, e);
    };
    ms = ground (arith, e);
  })
]
