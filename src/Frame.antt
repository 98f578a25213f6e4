-- ===== src/Frame.antt =====
-- src/Frame.h: call frame information.
pub mod Row
pub mod Instructions
pub mod Entry
pub mod Search
pub mod Unwind
pub mod Progress
pub mod Found
pub mod Order
