-- ===== src/Ipc/Watch.antt =====
-- The heartbeat watch of firmware/src/ipc/ipc_ring.c.
use stm32h745_disco.Base.{ℕ, Bool, false, ltb, ◌==◌, if◌then◌else◌, not, sub32}

abbrev pub ipc_hb_timeout_ms : ℕ
ipc_hb_timeout_ms = 500

-- `ipc_watch_t`
pub record Watch : Type 0 where
  pub last_ms : ℕ
  pub seen : ℕ

-- `ipc_watch_reset`
unfoldable pub watch_reset : Watch → Watch
watch_reset w = record { last_ms = 0; seen = 0 }

-- `ipc_watch_beat`
unfoldable pub watch_beat : Watch → ℕ → Watch
watch_beat w now_ms = record { last_ms = now_ms; seen = 1 }

-- `ipc_watch_alive`
unfoldable pub watch_alive : Watch → ℕ → Bool
watch_alive w now_ms =
    if w.seen == 0 then false else not (ltb ipc_hb_timeout_ms (sub32 now_ms w.last_ms))
