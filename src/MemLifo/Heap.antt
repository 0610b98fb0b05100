-- ===== src/MemLifo/Heap.antt =====
-- What the pool is given by its `allocFunc` and `freeFunc`: blocks of memory at addresses. The
-- allocator itself is a parameter of the model.
use twapi.Base.{ℕ, ◌+◌, ◌%◌, ◌^◌, ◌≤◌, ◌<◌, ◌≡◌, ◌≢◌, ◌⊎◌, Option, none, some, ◌==◌, if◌then◌else◌}

abbrev pub Ptr : Type 0
Ptr = ℕ

abbrev pub null : Ptr
null = 0

-- `MemLifoChunk` at its address: `end` is `lc_end`. The `lc_prev` link is the order of a list.
pub record Chunk : Type 0 where
  pub base : Ptr
  pub end : Ptr

abbrev pub Blocks : Type 0
Blocks = Ptr → Option Ptr

-- `live p` is the end of the allocated block at `p`; `clock` counts the calls, so that an
-- allocator may answer the same request differently.
pub record Heap : Type 0 where
  pub live : Blocks
  pub clock : ℕ

-- `allocFunc`: the call's number, the blocks in use and the size; `none` for `NULL`.
abbrev pub AllocFn : Type 0
AllocFn = ℕ → Blocks → ℕ → Option Chunk

abbrev pub write : Blocks → Ptr → Option Ptr → Blocks
write live p v q = if q == p then v else live q

abbrev pub claim : Heap → Chunk → Heap
claim h c = record { live = write h.live c.base (some c.end); clock = h.clock + 1 }

abbrev pub tick : Heap → Heap
tick h = record h { clock = h.clock + 1 }

abbrev pub release : Heap → Ptr → Heap
release h p = record h { live = write h.live p none }

-- A block given out for a request of `sz` bytes: as large, within the address space, of a size
-- that fits a `DWORD`, and clear of every block in use.
pub record IsGranted (live : Blocks) (sz : ℕ) (c : Chunk) : Type 0 where
  pub nonnull : c.base ≢ null
  pub large : c.base + sz ≤ c.end
  pub small : c.end < c.base + 2 ^ 32
  pub addressable : c.end < 2 ^ 64
  pub aligned : c.base % 8 ≡ 0
  pub rounded : sz % 8 ≡ 0 → c.end % 8 ≡ 0
  pub unused : live c.base ≡ none
  pub apart : (p e : Ptr) → live p ≡ some e → (e ≤ c.base) ⊎ (c.end ≤ p)

-- What the documentation of `MemLifoInit` asks of `allocFunc`, and `HeapAlloc` gives.
pub record IsAllocator (alloc : AllocFn) : Type 0 where
  pub grants :
      (n : ℕ) (live : Blocks) (sz : ℕ) (c : Chunk) → alloc n live sz ≡ some c → IsGranted live sz c
