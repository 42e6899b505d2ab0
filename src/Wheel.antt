-- ===== src/Wheel.antt =====
-- comLib/dhntimer/DHNTimerQueue.h and DHNTimerWheel.h: the timer queue as a hashed timing wheel.
pub mod Node
pub mod Sizing
pub mod State
pub mod Ids
pub mod Ops
pub mod Dispatch
pub mod Sorted
pub mod Ticks
pub mod Earliest
pub mod Inv
pub mod Link
pub mod Unlink
pub mod Contents
pub mod Unique
pub mod Remove
pub mod Find
pub mod Cancel
pub mod Issue
pub mod Schedule
pub mod Lifetime
pub mod Counts
pub mod Advance
pub mod Timeout
pub mod Settle
pub mod Expire
pub mod Create
