-- ===== src/Telemetry.antt =====
-- modules/telemetry: the debug log and the requests of the command port.
pub mod RttLog
pub mod Uart
pub mod Requests
pub mod Command
pub mod Emit
mod Tests
