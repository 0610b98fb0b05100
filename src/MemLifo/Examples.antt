-- ===== src/MemLifo/Examples.antt =====
-- Pools of twapi/base/memlifo.c at concrete addresses: runs of the calls, and the theorems at them.
use twapi.Base.{◌+◌, ◌^◌, ◌<◌, ◌≡◌, refl, true, false, none, some, [], ◌∷◌, arith}
use twapi.MemLifo.Word.{round_up, dword}
use twapi.MemLifo.Heap.{Chunk, Blocks, Heap, AllocFn}
use twapi.MemLifo.State.{Mark, Lifo, returned, panicked}
use twapi.MemLifo.Alloc.{alloc}
use twapi.MemLifo.Marks.{find_mark, push_mark, pop_frame, push_frame}
use twapi.MemLifo.Last.{
  is_big_block, last_size, pointer, move_last, expand_last, shrink_last, resize_last,
}
use twapi.MemLifo.Open.{bottom, init, close}
use twapi.MemLifo.Check.{fine, alloc_below_chunk, validate}
use twapi.MemLifo.Blocks.{IsAdded}
use twapi.MemLifo.Invariant.{nowhere, in_chunk, in_big_block, owned, IsValid}
use twapi.MemLifo.Settles.{Settles}
use twapi.MemLifo.Served.{AllocPost}
use twapi.MemLifo.AllocValid.{alloc_serves}
use twapi.MemLifo.MarksValid.{MarkPost, push_mark_stands}
use twapi.MemLifo.PopRestores.{pop_frame_restores}
use twapi.MemLifo.FramesValid.{FramePost, push_frame_serves}
use twapi.MemLifo.ShrinkValid.{ShrinkPost, shrink_last_shrinks}
use twapi.MemLifo.ExpandValid.{may_panic, Grown, expand_last_grows}
use twapi.MemLifo.ResizeValid.{Resized, resize_last_fits}
use twapi.MemLifo.Restore.{here, next, allocated, IsRestored, pop_frame_undoes}
use twapi.MemLifo.OpenValid.{Starts, init-Starts, close_leaks}
use twapi.MemLifo.CheckValid.{AllPlain, before_end, validate_accepts, validate_misjudges}
use twapi.MemLifo.Overrun.{expand_last_overruns}
use twapi.MemLifo.Scan.{scan, scan-IsAllocator}

abbrev nothing : Blocks
nothing _ = none

abbrev chunk0 : Chunk
chunk0 = record { base = 0x100000; end = 0x1003e8 }

-- The bottom mark, and 104 bytes allocated behind it.
abbrev mark0 : Mark
mark0 = record {
  addr = 0x100010;
  last_alloc = 0x100048;
  big_blocks = [];
  chunk = chunk0;
  older_chunks = [];
  freeptr = 0x1000b0;
}

abbrev pool0 : Lifo
pool0 = record {
  top = mark0;
  below = [];
  chunk_size = 1000;
  panic_on_fail = false;
  heap = record { live = owned mark0 nothing; clock = 1 };
}

chunk0-IsAdded : IsAdded nothing chunk0
chunk0-IsAdded = record {
  nonnull = omega arith;
  header = omega arith;
  small = omega arith;
  addressable = omega arith;
  aligned = refl;
  rounded = refl;
  unused = refl;
  apart = λ p e h. cc;
}

pool0-IsValid : IsValid nothing pool0
unfolding is_big_block
pool0-IsValid = record {
  placed = record {
    low = omega arith;
    high = omega arith;
    even = refl;
    last =
        in_chunk
          (record { low = omega arith; high = omega arith; even = refl; small_block = refl });
  };
  stacked = tt;
  own_chunks = (chunk0-IsAdded, tt);
  own_bigs = tt;
  accounted = refl;
  size_low = omega arith;
  size_high = omega arith;
  size_even = refl;
}

-- The pool with a mark pushed in its chunk.
abbrev mark1 : Mark
mark1 = record mark0 { addr = 0x1000b0; last_alloc = 0; freeptr = 0x1000e8 }

abbrev pool1 : Lifo
pool1 = record pool0 { top = mark1; below = mark0 ∷ [] }

push_mark-pool0 : push_mark scan pool0 ≡ returned 0x1000b0 pool1
unfolding push_mark
push_mark-pool0 = refl

-- Then 24 bytes are allocated.
abbrev pool2 : Lifo
pool2 = record pool1 { top = record mark1 { last_alloc = 0x1000e8; freeptr = 0x100100 } }

alloc-pool1 : alloc scan 20 false pool1 ≡ returned (0x1000e8, none) pool2
unfolding alloc
alloc-pool1 = refl

alloc_serves_example :
    Settles false (AllocPost nothing pool0 (dword (round_up 20)) true) (alloc scan 20 true pool0)
alloc_serves_example = alloc_serves nothing pool0 scan 20 true scan-IsAllocator pool0-IsValid

push_mark_stands_example : Settles false (MarkPost nothing pool0) (push_mark scan pool0)
push_mark_stands_example = push_mark_stands nothing pool0 scan scan-IsAllocator pool0-IsValid

push_frame_serves_example :
    Settles false
      (FramePost nothing pool0 (dword (round_up 900)) false)
      (push_frame scan 900 false pool0)
push_frame_serves_example =
    push_frame_serves nothing pool0 scan 900 false scan-IsAllocator pool0-IsValid

pop_frame_undoes_example :
    (l3 : Lifo) × (pop_frame pool2 ≡ returned tt l3) × IsRestored nothing pool0 l3
pop_frame_undoes_example =
    pop_frame_undoes nothing scan pool0 pool1 pool2 0x1000b0 scan-IsAllocator pool0-IsValid
      push_mark-pool0 (next here (allocated 20 false (0x1000e8, none) alloc-pool1)) refl

expand_last_grows_example :
    Settles false
      (Grown nothing pool0 (last_size mark0 + 20) 24 true)
      (expand_last scan 20 true pool0)
unfolding last_size may_panic
expand_last_grows_example =
    expand_last_grows nothing pool0 pool0-IsValid scan scan-IsAllocator 20 true (omega arith)
      (omega arith) (omega arith)

shrink_last_shrinks_example :
    (l' : Lifo) × (shrink_last 20 pool0 ≡ returned 0x100048 l')
    × ShrinkPost nothing pool0 20 0x100048 l'
shrink_last_shrinks_example = shrink_last_shrinks nothing pool0 20 pool0-IsValid

resize_last_fits_example :
    Settles false (Resized nothing pool0 50 false) (resize_last scan 50 false pool0)
unfolding last_size may_panic is_big_block
resize_last_fits_example =
    resize_last_fits nothing pool0 pool0-IsValid scan scan-IsAllocator 50 false (omega arith)
      (omega arith) (omega arith)

-- An allocator with no memory left: expanding panics if the pool was opened so.
abbrev exhausted : AllocFn
exhausted _ _ _ = none

expanding_panics :
    expand_last exhausted 4096 false (record pool0 { panic_on_fail = true }) ≡ panicked
unfolding expand_last is_big_block last_size move_last pointer alloc
expanding_panics = refl

resizing_panics :
    resize_last exhausted 4096 false (record pool0 { panic_on_fail = true }) ≡ panicked
unfolding resize_last is_big_block last_size expand_last move_last pointer alloc
resizing_panics = refl

pool1-IsValid : IsValid nothing pool1
unfolding is_big_block
pool1-IsValid = record {
  placed = record { low = omega arith; high = omega arith; even = refl; last = nowhere refl };
  stacked = (
    record { new_big = []; new_chunks = []; bigs = refl; chunk_list = refl; unshared = λ h. cc },
    pool0-IsValid.placed,
    tt,
  );
  own_chunks = (chunk0-IsAdded, tt);
  own_bigs = tt;
  accounted = refl;
  size_low = omega arith;
  size_high = omega arith;
  size_even = refl;
}

pop_frame_restores_example : (pop_frame pool1 ≡ returned tt pool0) × IsValid nothing pool0
pop_frame_restores_example = pop_frame_restores nothing pool1 mark0 [] pool1-IsValid refl

init-Starts_example :
    Starts false
      (record { live = nothing; clock = 0 })
      (init scan 8000 false (record { live = nothing; clock = 0 }))
init-Starts_example =
    init-Starts scan 8000 false (record { live = nothing; clock = 0 }) scan-IsAllocator
      (omega arith) refl

-- A pool whose only mark has two chunks.
abbrev grown : Mark
grown = record mark0 {
  chunk = record { base = 0x200000; end = 0x2003f8 };
  older_chunks = chunk0 ∷ [];
  last_alloc = 0x200010;
  freeptr = 0x200100;
}

abbrev pool3 : Lifo
pool3 = record pool0 { top = grown; heap = record { live = owned grown nothing; clock = 2 } }

close_leaks_example :
    (h : Heap) × (close pool3 ≡ some h)
    × (h.live 0x100000 ≡ some 0x1003e8)
    × (h.live 0x200000 ≡ none)
unfolding bottom find_mark
close_leaks_example = close_leaks pool3 0x100000 0x1003e8 0x2003f8 refl refl refl (omega arith)

validate_accepts_example : validate pool0 ≡ fine
unfolding AllPlain is_big_block
validate_accepts_example =
    validate_accepts nothing pool0 pool0-IsValid (before_end refl (omega arith))

-- A pool with a big block at a lower address than its chunk.
abbrev low_block : Chunk
low_block = record { base = 0x80000; end = 0x80808 }

abbrev mark4 : Mark
mark4 = record mark0 { big_blocks = low_block ∷ []; last_alloc = 0x80010 }

abbrev pool4 : Lifo
pool4 = record pool0 { top = mark4; heap = record { live = owned mark4 nothing; clock = 2 } }

low_block-IsAdded : IsAdded (owned mark0 nothing) low_block
low_block-IsAdded = record {
  nonnull = omega arith;
  header = omega arith;
  small = omega arith;
  addressable = omega arith;
  aligned = refl;
  rounded = refl;
  unused = refl;
  apart = λ p e h. ground arith;
}

pool4-IsValid : IsValid nothing pool4
unfolding is_big_block
pool4-IsValid = record {
  placed = record {
    low = omega arith;
    high = omega arith;
    even = refl;
    last = in_big_block refl (λ e. cc);
  };
  stacked = tt;
  own_chunks = (chunk0-IsAdded, tt);
  own_bigs = (low_block-IsAdded, tt);
  accounted = refl;
  size_low = omega arith;
  size_high = omega arith;
  size_even = refl;
}

validate_misjudges_example : validate pool4 ≡ alloc_below_chunk
unfolding is_big_block
validate_misjudges_example =
    validate_misjudges nothing pool4 low_block [] pool4-IsValid refl refl (omega arith)

expand_last_overruns_example :
    (l' : Lifo) × (expand_last scan (2 ^ 31) true pool0 ≡ returned 0x100048 l')
    × (l'.top.chunk ≡ chunk0)
    × (l'.top.chunk.end < l'.top.freeptr)
unfolding is_big_block
expand_last_overruns_example =
    expand_last_overruns nothing pool0 scan (2 ^ 31) true pool0-IsValid (λ e. cc) refl (omega arith)
      (omega arith) (omega arith) (omega arith)
