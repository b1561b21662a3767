-- ===== src/Platform.antt =====
-- The board support of platform/mspm0g3507/drivers: the calls that the drivers make into the
-- vendor's DriverLib, and the drivers that the modules stand on.
pub mod Calls
pub mod PinMap
pub mod Wiring
pub mod Gpio
pub mod Pwm
pub mod HBridge
pub mod QuadEncoder
pub mod Time
pub mod Poll
pub mod Spi
pub mod Uart
pub mod LineSensor
pub mod I2c
mod Tests
mod SerialTests
