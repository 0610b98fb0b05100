-- ===== src/MemLifo/Invariant.antt =====
-- The invariant of a pool of twapi/base/memlifo.c.
use twapi.Base.{◌+◌, ◌%◌, ◌^◌, ◌≤◌, ◌≡◌, ◌≢◌, false, true, List, [], ◌∷◌, ◌++◌}
use twapi.MemLifo.Heap.{null, Chunk, Blocks}
use twapi.MemLifo.State.{Mark, chunks, Lifo}
use twapi.MemLifo.Blocks.{overlay, IsOwned}
use twapi.MemLifo.Last.{is_big_block}

-- The last allocation lies in the used part of the current chunk.
pub record IsInChunk (m : Mark) : Type 0 where
  pub low : m.chunk.base + 16 ≤ m.last_alloc
  pub high : m.last_alloc ≤ m.freeptr
  pub even : m.last_alloc % 8 ≡ 0
  pub small_block : is_big_block m ≡ false

-- Where a mark's last allocation is: nowhere, in the current chunk, or the newest big block.
pub data LastAlloc (m : Mark) : Type 0 where
  nowhere : m.last_alloc ≡ null → LastAlloc m
  in_chunk : IsInChunk m → LastAlloc m
  in_big_block : is_big_block m ≡ true → m.big_blocks ≢ [] → LastAlloc m

-- The free pointer is aligned, and is in the current chunk behind its header.
pub record IsPlaced (m : Mark) : Type 0 where
  pub low : m.chunk.base + 16 ≤ m.freeptr
  pub high : m.freeptr ≤ m.chunk.end
  pub even : m.freeptr % 8 ≡ 0
  pub last : LastAlloc m

-- The lists of `m` extend those of `n`, and a big block that was allocated last is not shared.
pub record Extends (m n : Mark) : Type 0 where
  pub new_big : List Chunk
  pub new_chunks : List Chunk
  pub bigs : m.big_blocks ≡ new_big ++ n.big_blocks
  pub chunk_list : chunks m ≡ new_chunks ++ chunks n
  pub unshared : is_big_block m ≡ true → new_big ≢ []

abbrev pub IsStacked : Mark → List Mark → Type 0
IsStacked m [] = Unit
IsStacked m (n ∷ ms) = Extends m n × IsPlaced n × IsStacked n ms

-- The blocks that the topmost mark owns, over those of others.
abbrev pub owned : Mark → Blocks → Blocks
owned m f = overlay m.big_blocks (overlay (chunks m) f)

-- The heap holds the pool's blocks and the blocks `f` of others, and the marks are in order.
pub record IsValid (f : Blocks) (l : Lifo) : Type 0 where
  pub placed : IsPlaced l.top
  pub stacked : IsStacked l.top l.below
  pub own_chunks : IsOwned (chunks l.top) f
  pub own_bigs : IsOwned l.top.big_blocks (overlay (chunks l.top) f)
  pub accounted : l.heap.live ≡ owned l.top f
  pub size_low : 1000 ≤ l.chunk_size
  pub size_high : l.chunk_size ≤ 2 ^ 30
  pub size_even : l.chunk_size % 8 ≡ 0
