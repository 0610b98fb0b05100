-- ===== src/ThreadPool.antt =====
-- The registrations of twapi/base/threadpool.c.
pub mod Registrations
pub mod Balance
pub mod Freed
pub mod Leaks
mod Examples
