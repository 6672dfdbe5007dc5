-- ===== src/Heap.antt =====
-- The heap that keeps the timers of the location stack in order: gps/utils/LocHeap.h and
-- gps/utils/LocHeap.cpp.
pub mod Node
pub mod Order
pub mod Operations
pub mod Removal
pub mod Queue
mod Examples
