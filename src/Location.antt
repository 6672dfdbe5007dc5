-- ===== src/Location.antt =====
-- The entry of the clients: gps/location/LocationAPI.cpp.
pub mod Types
pub mod Api
pub mod Clients
pub mod Removal
mod Examples
