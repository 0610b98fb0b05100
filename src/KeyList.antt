-- ===== src/KeyList.antt =====
-- The keyed lists of twapi/base/keylist.c.
pub mod Get
pub mod Finds
mod Examples
