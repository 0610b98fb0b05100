-- ===== src/MemLifo/Open.antt =====
-- `MemLifoInit` and `MemLifoClose` of twapi/base/memlifo.c.
use twapi.Base.{ℕ, Bool, Option, none, some, List, [], ◌∷◌, ltb, if◌then◌else◌}
use twapi.MemLifo.Word.{round_up, align_ptr, dword, chunk_header, mark_size}
use twapi.MemLifo.Heap.{null, Chunk, Heap, AllocFn, claim, tick, release}
use twapi.MemLifo.State.{Mark, Lifo, returned, panicked, faulted}
use twapi.MemLifo.Alloc.{fail}
use twapi.MemLifo.Marks.{pop_mark}

-- `ERROR_SUCCESS` with the pool, `ERROR_OUTOFMEMORY`, or a panic.
pub data Opened : Type 0 where
  opened : Lifo → Opened
  out_of_memory : Heap → Opened
  panicked_at_start : Opened

-- The pool whose bottom mark stands in the first chunk.
unfoldable pub first_lifo : ℕ → Bool → Chunk → Heap → Lifo
first_lifo chunk_sz panic c h =
    let m = align_ptr c.base chunk_header in
    record {
      top = record {
        addr = m;
        last_alloc = null;
        big_blocks = [];
        chunk = c;
        older_chunks = [];
        freeptr = align_ptr m mark_size;
      };
      below = [];
      chunk_size = dword (round_up chunk_sz);
      panic_on_fail = panic;
      heap = claim h c;
    }

unfoldable pub init : AllocFn → ℕ → Bool → Heap → Opened
unfolding first_lifo fail
init alloc_fn chunk_sz panic h =
    let sz = if ltb chunk_sz 1000 then 1000 else chunk_sz in
    elim (alloc_fn h.clock h.live sz) [
      | none ↦ fail panic panicked_at_start (out_of_memory (tick h))
      | some c ↦ opened (first_lifo sz panic c h)
    ]

-- `lifo_bot_mark`: the last of the chain.
unfoldable pub bottom : Mark → List Mark → Mark
bottom m [] = m
bottom m (n ∷ ms) = bottom n ms

-- The heap that is left, or `none` for undefined behaviour.
unfoldable pub close : Lifo → Option Heap
unfolding bottom
close l = elim (pop_mark (bottom l.top l.below).addr l) [
  | returned _ l' ↦ elim (l'.heap.live (bottom l'.top l'.below).chunk.base) [
    | none ↦ none
    | some _ ↦ some (release l'.heap (bottom l'.top l'.below).chunk.base)
  ]
  | panicked ↦ none
  | faulted ↦ none
]
