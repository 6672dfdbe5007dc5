-- ===== src/Geofence.antt =====
-- The geofences of the location HAL: gps/geofence/GeofenceAdapter.h and
-- gps/geofence/GeofenceAdapter.cpp.
pub mod Types
pub mod Items
pub mod Commands
pub mod Sessions
pub mod Linked
pub mod Results
pub mod Responses
pub mod Refusals
pub mod Departure
mod Examples
