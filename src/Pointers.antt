-- ===== src/Pointers.antt =====
-- The registry of pointers that twapi/base/twapi.c hands out to scripts.
pub mod Registry
pub mod Holders
pub mod Refines
pub mod Balance
mod Examples
