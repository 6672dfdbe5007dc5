-- ===== src/Client.antt =====
-- The ids of the clients of `LocationAPIClientBase`: gps/location/LocationAPIClientBase.h and
-- gps/location/LocationAPIClientBase.cpp.
pub mod BiDict
pub mod Queues
pub mod Sessions
pub mod Replies
pub mod Sound
pub mod Lifecycle
pub mod Rounds
pub mod Forgotten
pub mod Crossed
pub mod Fences
pub mod Mutual
pub mod Answers
pub mod Mixups
mod Examples
mod SessionExamples
