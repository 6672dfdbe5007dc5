-- ===== src/Gnss.antt =====
-- The tracking sessions of `GnssAdapter`: gps/gnss/GnssAdapter.h and gps/gnss/GnssAdapter.cpp.
pub mod Types
pub mod Sessions
pub mod Multiplex
pub mod Commands
pub mod Order
pub mod Served
pub mod Bounds
pub mod Serving
pub mod Tracking
pub mod Stale
pub mod Blacklist
pub mod MaskBits
pub mod RoundTrip
mod Examples
