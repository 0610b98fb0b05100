-- ===== src/MemLifo.antt =====
-- The last-in-first-out memory pool of twapi/base/memlifo.c.
pub mod Word
pub mod Heap
pub mod State
pub mod Alloc
pub mod Marks
pub mod Last
pub mod Open
pub mod Check
pub mod Blocks
pub mod Invariant
pub mod Settles
pub mod LastSize
pub mod Enter
pub mod Served
pub mod NewBlock
pub mod AllocValid
pub mod Release
pub mod MarksValid
pub mod PopRestores
pub mod FramesValid
pub mod ShrinkValid
pub mod Replaced
pub mod ExpandValid
pub mod ResizeValid
pub mod Restore
pub mod OpenValid
pub mod CheckValid
pub mod Overrun
pub mod Scan
mod Examples
