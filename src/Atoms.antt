-- ===== src/Atoms.antt =====
-- The table of atoms of twapi/base/twapi.c: one Tcl object for each string.
pub mod Table
pub mod Purges
pub mod Released
mod Examples
