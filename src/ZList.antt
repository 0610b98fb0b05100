-- ===== src/ZList.antt =====
-- The doubly linked lists of twapi/include/zlist.h.
pub mod Links
pub mod Segments
pub mod Represents
pub mod Removes
pub mod Attached
pub mod Attaches
pub mod Locates
mod Examples
