-- ===== src/System.antt =====
-- system/: the fault latch, the heartbeat monitor, the watchdog, and the health task of
-- app/app_tasks.c that joins them.
pub mod Fault
pub mod Health
pub mod Monitor
mod Tests
