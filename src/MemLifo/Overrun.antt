-- ===== src/MemLifo/Overrun.antt =====
-- `MemLifoExpandLast` of twapi/base/memlifo.c with an increment that is no positive `int`.
use twapi.Base.{ℕ, ◌+◌, ◌^◌, ◌≤◌, ◌<◌, ◌≡◌, refl, ◌≢◌, Bool, false, true, arith, ◌==◌}
use twapi.MemLifo.Word.{round_up, add_ptr, dword, ptr_diff32, int_ge}
use twapi.MemLifo.Heap.{null, Blocks, AllocFn}
use twapi.MemLifo.State.{Lifo, returned}
use twapi.MemLifo.Last.{is_big_block, set_freeptr, expand_last}
use twapi.MemLifo.Invariant.{IsValid}

-- In a valid pool whose chunk ends below 2^63 with less than 2^31 bytes free, and whose topmost mark
-- has a last allocation that is no big block, `MemLifoExpandLast` takes an increment from 2^31 to
-- 2^32 - 8 for one that fits: it returns the allocation, with the free pointer beyond the end of the
-- chunk.
pub expand_last_overruns :
    (f : Blocks) (l : Lifo) (alloc_fn : AllocFn) (incr : ℕ) (fix : Bool)
    → IsValid f l
    → l.top.last_alloc ≢ null
    → is_big_block l.top ≡ false
    → 2 ^ 31 ≤ incr
    → incr + 8 ≤ 2 ^ 32
    → l.top.chunk.end < l.top.freeptr + 2 ^ 31
    → l.top.chunk.end < 2 ^ 63
    → (l' : Lifo) × (expand_last alloc_fn incr fix l ≡ returned l.top.last_alloc l')
      × (l'.top.chunk ≡ l.top.chunk)
      × (l'.top.chunk.end < l'.top.freeptr)
unfolding expand_last set_freeptr
expand_last_overruns f l alloc_fn incr fix v ne small low high free below =
    let incr' = dword (round_up incr) in
    let there : (l.top.last_alloc == null) ≡ false = ground arith in
    let room : int_ge (ptr_diff32 l.top.chunk.end l.top.freeptr) incr' ≡ true =
      ground (arith, v.placed.high) in
    (
      set_freeptr (add_ptr l.top.freeptr incr') l,
      rw (there, small, room),
      refl,
      omega (arith, v.placed.high),
    )
