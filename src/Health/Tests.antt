-- ===== src/Health/Tests.antt =====
-- The health record at concrete calls.
use stm32h745_disco.Base.{true, false, List, [], ◌∷◌, ◌≡◌, refl, arith}
use stm32h745_disco.Health.{
  Health, HealthReason, health_init, health_reset, health_kick, health_poll, health_mark_oom,
}
use stm32h745_disco.Health.Watchdog.{
  Call, kick, mark_oom, poll, after_all, is_late, health_init-expired,
}

abbrev old : Health
old = record {
  ready = false;
  expired = true;
  oom = false;
  peer = false;
  now_ms = 5;
  last_kick = 3;
  reason = HealthReason.reason_none;
  boot = HealthReason.reason_none;
  wdog_kicks = 0;
}

abbrev calls : List Call
calls = poll 7000 ∷ kick ∷ poll 8000 ∷ mark_oom ∷ poll 1 ∷ []

expires : (after_all (health_init false false old).1 calls).expired ≡ true
unfolding after_all health_init health_reset health_kick health_poll health_mark_oom
expires = refl

health_init-expired_example :
    (after_all (health_init false false old).1 calls).expired ≡ is_late 0 calls
health_init-expired_example =
    health_init-expired false false old calls (omega arith, (omega arith, (omega arith, tt)))
