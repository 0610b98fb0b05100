-- ===== src/MemLifo/LastSize.antt =====
-- The size of the last allocation, as `MemLifoExpandLast` of twapi/base/memlifo.c measures it.
use twapi.Base.{◌+◌, ◌-◌, ◌^◌, ◌≤◌, ◌<◌, ◌≡◌, true, false, List, ◌∷◌, arith}
use twapi.MemLifo.Word.{ptr_diff32}
use twapi.MemLifo.Heap.{Chunk}
use twapi.MemLifo.State.{Mark}
use twapi.MemLifo.Last.{is_big_block, last_size}

pub last_size_diff :
    (m : Mark) → is_big_block m ≡ false → last_size m ≡ ptr_diff32 m.freeptr m.last_alloc
unfolding last_size
last_size_diff m h = ground arith

-- In the current chunk: from the allocation to the free pointer.
pub last_size_small :
    (m : Mark)
    → is_big_block m ≡ false
    → m.last_alloc ≤ m.freeptr
    → m.freeptr < m.last_alloc + 2 ^ 32
    → last_size m ≡ m.freeptr - m.last_alloc
last_size_small m h low high = omega (arith, last_size_diff m h)

-- In a big block: all but its header.
pub last_size_big :
    (m : Mark) (b : Chunk) (bs : List Chunk)
    → is_big_block m ≡ true
    → m.big_blocks ≡ b ∷ bs
    → b.base + 16 ≤ b.end
    → b.end < b.base + 2 ^ 32
    → last_size m ≡ b.end - b.base - 16
unfolding last_size
last_size_big m b bs h e low high = ground arith

-- An allocation behind the header of the first big block is that block.
pub newest-is_big_block :
    (m : Mark) (c : Chunk) (bs : List Chunk)
    → m.big_blocks ≡ c ∷ bs
    → m.last_alloc ≡ c.base + 16
    → c.base + 16 < 2 ^ 64
    → is_big_block m ≡ true
unfolding is_big_block
newest-is_big_block m c bs e at small = ground arith
