-- ===== src/Timer.antt =====
-- The timers of gps/utils/LocTimer.cpp.
pub mod Types
pub mod Service
pub mod Life
pub mod Handling
pub mod Messages
pub mod Popping
pub mod Stops
pub mod Expiry
pub mod Arming
pub mod Serving
pub mod Early
mod Examples
