-- ===== src/Observer.antt =====
-- Who is told of which data items: gps/utils/LocUnorderedSetMap.h and
-- gps/core/SystemStatusOsObserver.cpp.
pub mod SetMap
pub mod Subscriptions
pub mod Entries
pub mod Keys
pub mod Mirror
pub mod Framework
pub mod Changes
pub mod Switches
mod Examples
