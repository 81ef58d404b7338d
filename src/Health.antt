-- ===== src/Health.antt =====
-- The health record: firmware/src/svc/health.c, without its self-test. A call of the watchdog of the board is counted.
pub mod Watchdog
mod Tests
use stm32h745_disco.Base.{ℕ, Bool, true, false, ◌+◌, ltb, if◌then◌else◌, not, Err, u32, sub32}

abbrev pub health_wdog_ms : ℕ
health_wdog_ms = 8000

-- `health_reason_t`
pub data HealthReason : Type 0 where
  reason_none reason_wdog reason_bor reason_oom : HealthReason

pub record Health : Type 0 where
  pub ready : Bool
  pub expired : Bool
  pub oom : Bool
  pub peer : Bool
  pub now_ms : ℕ
  pub last_kick : ℕ
  pub reason : HealthReason
  pub boot : HealthReason
  pub wdog_kicks : ℕ

-- `health_reset`
unfoldable pub health_reset : Health → Health
health_reset h = record {
  ready = false;
  expired = false;
  oom = false;
  peer = true;
  now_ms = 0;
  last_kick = 0;
  reason = HealthReason.reason_none;
  boot = HealthReason.reason_none;
  wdog_kicks = h.wdog_kicks;
}

-- `read_boot_reason` on the core that has the register: whether its flags for the watchdog and the supply are set.
unfoldable pub read_boot_reason : Bool → Bool → HealthReason
read_boot_reason iwdg1rstf borrstf =
    if iwdg1rstf
    then HealthReason.reason_wdog
    else if borrstf
    then HealthReason.reason_bor
    else HealthReason.reason_none

unfoldable pub health_init : Bool → Bool → Health → Err × Health
health_init iwdg1rstf borrstf h =
    (Err.ok, record (health_reset h) { ready = true; boot = read_boot_reason iwdg1rstf borrstf })

-- `health_kick`
unfoldable pub health_kick : Health → Health
health_kick h = if not h.ready then h else record h { last_kick = h.now_ms }

-- `health_poll`
unfoldable pub health_poll : Health → ℕ → Health
health_poll h dt_ms =
    let now_ms = u32 (h.now_ms + dt_ms) in
    let kicked = record h { now_ms = now_ms; wdog_kicks = h.wdog_kicks + 1 } in
    if not h.ready
    then h
    else if ltb health_wdog_ms (sub32 now_ms h.last_kick)
    then record kicked { expired = true; reason = HealthReason.reason_wdog }
    else kicked

-- `health_note_peer` and `health_mark_oom`
unfoldable pub health_note_peer : Health → Bool → Health
health_note_peer h ok = record h { peer = ok }

unfoldable pub health_mark_oom : Health → Health
health_mark_oom h = record h { oom = true; reason = HealthReason.reason_oom }
