-- ===== src/Crypto.antt =====
-- The encryption of data in memory of twapi/base/tclobjs.c.
pub mod Padding
pub mod RoundTrip
mod Examples
