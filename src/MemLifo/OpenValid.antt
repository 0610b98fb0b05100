-- ===== src/MemLifo/OpenValid.antt =====
-- `MemLifoInit` and `MemLifoClose` of twapi/base/memlifo.c, the invariant and the blocks in use.
use twapi.Base.{
  ℕ, ◌+◌, ◌%◌, ◌^◌, ◌≤◌, ◌≡◌, refl, ◌≢◌, Bool, true, false, Option, none, some, [], arith, ltb,
  if◌then◌else◌,
}
use twapi.MemLifo.Heap.{Ptr, null, Chunk, Heap, AllocFn, IsAllocator, tick, release}
use twapi.MemLifo.State.{Mark, Lifo, returned}
use twapi.MemLifo.Alloc.{fail}
use twapi.MemLifo.Marks.{find_mark, pop_mark}
use twapi.MemLifo.Open.{
  Opened, opened, out_of_memory, panicked_at_start, first_lifo, init, bottom, close,
}
use twapi.MemLifo.Blocks.{IsAdded, IsGranted-IsAdded}
use twapi.MemLifo.Invariant.{nowhere, IsValid}
use twapi.MemLifo.Enter.{align_ptr_lem}
use twapi.MemLifo.Restore.{pop_to-bottom}

-- How `MemLifoInit` may end: with a valid pool of one mark over the blocks that were in use, with
-- the heap unchanged, or by a panic that was asked for.
abbrev pub Starts : Bool → Heap → Opened → Type 0
Starts panic h (opened l) =
    IsValid h.live l × (l.below ≡ []) × (l.top.last_alloc ≡ null) × (l.panic_on_fail ≡ panic)
Starts panic h (out_of_memory h') = (h'.live ≡ h.live) × (panic ≡ false)
Starts panic h panicked_at_start = panic ≡ true

pub first_lifo-IsValid :
    (sz : ℕ) (panic : Bool) (c : Chunk) (h : Heap)
    → IsAdded h.live c
    → 1000 ≤ sz
    → sz ≤ 2 ^ 30
    → sz % 8 ≡ 0
    → c.base + sz ≤ c.end
    → IsValid h.live (first_lifo sz panic c h)
unfolding first_lifo
first_lifo-IsValid sz panic c h a low high even room =
    rw
      (
        align_ptr_lem c.base 16 a.aligned refl (omega (arith, a.addressable)),
        align_ptr_lem (c.base + 16) 56 (omega (arith, a.aligned)) refl
            (omega (arith, a.addressable)),
      )
      (record {
        placed = record {
          low = omega arith;
          high = omega arith;
          even = omega (arith, a.aligned);
          last = nowhere refl;
        };
        stacked = tt;
        own_chunks = (a, tt);
        own_bigs = tt;
        accounted = refl;
        size_low = omega arith;
        size_high = omega arith;
        size_even = omega arith;
      })

failed-Starts :
    (panic : Bool) (h : Heap)
    → Starts panic h (fail panic panicked_at_start (out_of_memory (tick h)))
unfolding fail
failed-Starts true h = refl
failed-Starts false h = (refl, refl)

-- `MemLifoInit`, asked for a chunk size that is a multiple of eight and at most 2^30, sets up a
-- valid pool with one mark and no allocation; or there is no memory, and it returns an error or
-- panics, as asked, with the same blocks in use.
pub init-Starts :
    (alloc_fn : AllocFn) (chunk_sz : ℕ) (panic : Bool) (h : Heap)
    → IsAllocator alloc_fn
    → chunk_sz ≤ 2 ^ 30
    → chunk_sz % 8 ≡ 0
    → Starts panic h (init alloc_fn chunk_sz panic h)
unfolding init
init-Starts alloc_fn chunk_sz panic h ok high even =
    go (if ltb chunk_sz 1000 then 1000 else chunk_sz) (ground arith) (ground arith) (ground arith)
      (alloc_fn h.clock h.live (if ltb chunk_sz 1000 then 1000 else chunk_sz)) refl
  where
    go :
        (sz : ℕ)
        → 1000 ≤ sz
        → sz ≤ 2 ^ 30
        → sz % 8 ≡ 0
        → (o : Option Chunk) → alloc_fn h.clock h.live sz ≡ o
        → Starts panic h (elim o [
          | none ↦ fail panic panicked_at_start (out_of_memory (tick h))
          | some c ↦ opened (first_lifo sz panic c h)
        ])
    go sz low high' even' none e = failed-Starts panic h
    go sz low high' even' (some c) e =
        let g = ok.grants h.clock h.live sz c e in
        (
          first_lifo-IsValid sz panic c h (IsGranted-IsAdded sz g (omega arith) even') low high'
              even' g.large,
          refl,
          refl,
          refl,
        )

pop_mark-bottom :
    (l : Lifo) (m : Mark)
    → find_mark m.addr l.top l.below ≡ some (m, [])
    → pop_mark m.addr l ≡ returned tt (record l { top = m; below = [] })
unfolding pop_mark
pop_mark-bottom l m e = rw (e, pop_mark) (pop_to-bottom l m)

-- `MemLifoClose` frees one block only, the newest chunk of the bottom mark: every other block that
-- is in use before the call, the pool's own too, is in use after it. The hypothesis on the marks
-- is that the bottom mark's address is no other mark's.
pub close_leaks :
    (l : Lifo) (p e b : Ptr)
    → find_mark (bottom l.top l.below).addr l.top l.below ≡ some (bottom l.top l.below, [])
    → l.heap.live (bottom l.top l.below).chunk.base ≡ some b
    → l.heap.live p ≡ some e
    → p ≢ (bottom l.top l.below).chunk.base
    → (h : Heap) × (close l ≡ some h)
      × (h.live p ≡ some e)
      × (h.live (bottom l.top l.below).chunk.base ≡ none)
unfolding close
close_leaks l p e b found last live ne =
    let m = bottom l.top l.below in
    (
      release l.heap m.chunk.base,
      rw (pop_mark-bottom l m found, close, last),
      ground arith,
      ground arith,
    )
