-- ===== src/Batching.antt =====
-- The batching of locations: gps/batching/BatchingAdapter.h and gps/batching/BatchingAdapter.cpp.
pub mod Types
pub mod Sessions
pub mod Trips
pub mod Messages
pub mod Minimum
pub mod Completed
pub mod Progress
pub mod Leftovers
mod Examples
