-- ===== src/RecordArray.antt =====
-- The record arrays of twapi/base/recordarray.c.
pub mod Reply
pub mod Twine
pub mod Options
pub mod Records
pub mod Command
pub mod Instance
pub mod Selects
pub mod InRange
pub mod Queries
pub mod Reads
pub mod NeverNull
pub mod NotAList
pub mod Fields
pub mod Dicts
pub mod Objects
mod Examples
