-- ===== src/MemLifo/State.antt =====
-- `MemLifo` and `MemLifoMark` of twapi/base/memlifo.c as values, and what a call comes to.
-- The magic numbers, `lm_seq` and `lm_lifo` serve assertions only. The chain of marks from
-- `lifo_top_mark` through `lm_prev` is `top` and the list `below`; its last is `lifo_bot_mark`.
use twapi.Base.{ℕ, Bool, List, [], ◌∷◌}
use twapi.MemLifo.Heap.{Ptr, null, Chunk, Heap}

pub record Mark : Type 0 where
  pub addr : Ptr
  pub last_alloc : Ptr
  pub big_blocks : List Chunk
  pub chunk : Chunk
  pub older_chunks : List Chunk
  pub freeptr : Ptr

-- The list that `lm_chunks` heads.
abbrev pub chunks : Mark → List Chunk
chunks m = m.chunk ∷ m.older_chunks

pub record Lifo : Type 0 where
  pub top : Mark
  pub below : List Mark
  pub chunk_size : ℕ
  pub panic_on_fail : Bool
  pub heap : Heap

-- A call returns, panics, or runs into undefined behaviour.
pub data Outcome (A : Type 0) : Type 0 where
  returned : A → Lifo → Outcome A
  panicked : Outcome A
  faulted : Outcome A

-- The address that a list of chunks is known by.
abbrev pub head_ptr : List Chunk → Ptr
head_ptr [] = null
head_ptr (c ∷ cs) = c.base
