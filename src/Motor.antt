-- ===== src/Motor.antt =====
-- modules/motor: the motor device (dev_motor.c) and the two motors of the board (bsp_motor.c).
pub mod Device
pub mod Board
pub mod Tests
