-- ===== src/Agps.antt =====
-- The AGPS state machines and their manager: gps/gnss/Agps.h and gps/gnss/Agps.cpp.
pub mod Types
pub mod Subscribers
pub mod Machine
pub mod Events
pub mod Manager
pub mod Distinct
pub mod Loops
pub mod Outcome
pub mod Invariant
pub mod Service
pub mod Connection
pub mod Endings
pub mod History
pub mod Runs
pub mod Requests
mod Examples
