-- ===== src/OneTimeInit.antt =====
-- `TwapiDoOneTimeInit` of twapi/base/util.c, called by several threads.
pub mod Threads
pub mod Places
pub mod Once
pub mod Turns
pub mod Returns
mod Examples
