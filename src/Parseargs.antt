-- ===== src/Parseargs.antt =====
-- The option parser of twapi/base/parseargs.c.
pub mod Tcl
pub mod Descriptor
pub mod Scan
pub mod Values
pub mod Command
pub mod Describes
pub mod Leftovers
pub mod Leaves
pub mod Left
pub mod Suits
pub mod Types
pub mod Safe
pub mod Guards
pub mod NeverCrashes
pub mod Objects
mod Examples
