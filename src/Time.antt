-- ===== src/Time.antt =====
-- The clock service: firmware/src/svc/time.c, as it is built for the host (no `CORE_CM7`).
pub mod Calendar
pub mod Clock
mod Tests
