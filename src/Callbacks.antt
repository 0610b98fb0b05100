-- ===== src/Callbacks.antt =====
-- The callbacks of twapi/base/async.c.
pub mod Queue
pub mod Counts
pub mod Counted
pub mod Released
mod Examples
