-- ===== src/Control.antt =====
-- common/ and control/: floating-point operations, the PID regulator, the filters, and the
-- chassis.
pub mod Floats
pub mod Pid
pub mod Sma
pub mod Lpf
pub mod Chassis
pub mod LineTracker
pub mod Tests
