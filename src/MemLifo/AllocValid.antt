-- ===== src/MemLifo/AllocValid.antt =====
-- `MemLifoAlloc` of twapi/base/memlifo.c and the invariant.
use twapi.Base.{
  ℕ, ◌+◌, ◌%◌, ◌^◌, ◌≤◌, ◌≡◌, refl, inl, inr, Bool, Option, none, some, arith, Bool-cases, ltb,
}
use twapi.MemLifo.Word.{round_up, add_ptr, dword, max_alloc}
use twapi.MemLifo.Heap.{null, Chunk, Blocks, Heap, AllocFn, IsAllocator, tick}
use twapi.MemLifo.State.{Lifo}
use twapi.MemLifo.Alloc.{
  fits, no_memory, take_space, chunk_request, enter_chunk, enter_big_block, grow, add_big_block,
  is_little, alloc_rounded, alloc,
}
use twapi.MemLifo.Invariant.{IsValid}
use twapi.MemLifo.Settles.{Settles, fail-Settles, Settles-mono}
use twapi.MemLifo.Enter.{IsAdded-granted}
use twapi.MemLifo.Served.{ServedPost, AllocPost, tick-IsValid, take_space-ServedPost}
use twapi.MemLifo.NewBlock.{enter_chunk-AllocPost, enter_big_block-AllocPost}

module _ (f : Blocks) (l : Lifo) (v : IsValid f l) where
  open v use {placed, stacked, own_chunks, own_bigs, accounted}

  refused-AllocPost :
      (sz : ℕ) (want : Bool) (h : Heap)
      → IsValid f (record l { heap = h })
      → Settles l.panic_on_fail (AllocPost f l sz want) (no_memory (record l { heap = h }))
  unfolding no_memory
  refused-AllocPost sz want h valid =
      fail-Settles l.panic_on_fail (AllocPost f l sz want) (null, none) (record l { heap = h })
        (record { valid = valid; kept = (refl, refl, refl); served = inr (refl, refl) })

  -- The size asked of the allocator for a new chunk is even, and leaves room for the request.
  chunk_request_room :
      (sz : ℕ)
      → sz ≤ 2 ^ 31
      → sz % 8 ≡ 0
      → (16 + sz ≤ chunk_request sz l) × (chunk_request sz l % 8 ≡ 0)
  unfolding chunk_request
  chunk_request_room sz small even = ground (arith, v.size_low, v.size_high, v.size_even)

  module _ (alloc_fn : AllocFn) (ok : IsAllocator alloc_fn) where
    grow-AllocPost :
        (sz : ℕ) (want : Bool)
        → sz ≤ 2 ^ 31
        → sz % 8 ≡ 0
        → Settles l.panic_on_fail (AllocPost f l sz want) (grow alloc_fn sz want l)
    unfolding grow
    grow-AllocPost sz want small even =
        go (alloc_fn l.heap.clock l.heap.live (chunk_request sz l)) refl
      where
        go :
            (o : Option Chunk)
            → alloc_fn l.heap.clock l.heap.live (chunk_request sz l) ≡ o
            → Settles l.panic_on_fail (AllocPost f l sz want) (elim o [
              | none ↦ no_memory (record l { heap = tick l.heap })
              | some c ↦ enter_chunk sz want c l
            ])
        go none e = refused-AllocPost sz want (tick l.heap) (tick-IsValid f l v)
        go (some c) e =
            let (room, rounded) = chunk_request_room sz small even in
            let g = ok.grants l.heap.clock l.heap.live (chunk_request sz l) c e in
            enter_chunk-AllocPost f l v c
              (IsAdded-granted f l v (chunk_request sz l) c g (omega arith) rounded) sz want even
              (omega (arith, g.large))

    add_big_block-AllocPost :
        (sz : ℕ) (want : Bool)
        → sz ≤ 2 ^ 31
        → sz % 8 ≡ 0
        → Settles l.panic_on_fail (AllocPost f l sz want) (add_big_block alloc_fn sz want l)
    unfolding add_big_block
    add_big_block-AllocPost sz want small even =
        go (alloc_fn l.heap.clock l.heap.live (dword (sz + 16))) refl
      where
        go :
            (o : Option Chunk)
            → alloc_fn l.heap.clock l.heap.live (dword (sz + 16)) ≡ o
            → Settles l.panic_on_fail (AllocPost f l sz want) (elim o [
              | none ↦ no_memory (record l { heap = tick l.heap })
              | some c ↦ enter_big_block want c l
            ])
        go none e = refused-AllocPost sz want (tick l.heap) (tick-IsValid f l v)
        go (some c) e =
            let g = ok.grants l.heap.clock l.heap.live (dword (sz + 16)) c e in
            enter_big_block-AllocPost f l v c
              (IsAdded-granted f l v (dword (sz + 16)) c g (omega arith) (omega arith)) sz want
              (omega (arith, g.large))

    pub alloc_rounded-AllocPost :
        (sz : ℕ) (want : Bool)
        → sz ≤ 2 ^ 31
        → sz % 8 ≡ 0
        → Settles l.panic_on_fail (AllocPost f l sz want) (alloc_rounded alloc_fn sz want l)
    unfolding alloc_rounded
    alloc_rounded-AllocPost sz want small even =
        elim (Bool-cases (fits l.top (add_ptr l.top.freeptr sz))) [
          | inl room ↦ rw room (
              Settles-mono l.panic_on_fail (ServedPost f l sz want) (AllocPost f l sz want)
                (take_space want (add_ptr l.top.freeptr sz) l)
                (λ r l' post. record {
                  valid = post.valid;
                  kept = post.kept;
                  served = inl post.served;
                })
                (take_space-ServedPost f l v sz want small even room))
          | inr full ↦ rw full (elim (Bool-cases (is_little l)) [
            | inl little ↦ rw little (grow-AllocPost sz want small even)
            | inr much ↦ rw much (add_big_block-AllocPost sz want small even)
          ])
        ]

-- `MemLifoAlloc` on a valid pool never faults, and panics only if the pool asks for it. The pool
-- stays valid and keeps its lower marks. A request is refused with `NULL`, the topmost mark as it
-- was, or it is served: at least the requested bytes, rounded up, at an aligned address in the
-- free space of the current chunk or in a block that was not in use; `actual_szP` tells the size.
pub alloc_serves :
    (f : Blocks) (l : Lifo) (alloc_fn : AllocFn) (sz : ℕ) (want : Bool)
    → IsAllocator alloc_fn
    → IsValid f l
    → Settles l.panic_on_fail (AllocPost f l (dword (round_up sz)) want) (alloc alloc_fn sz want l)
unfolding alloc
alloc_serves f l alloc_fn sz want ok v = elim (Bool-cases (ltb max_alloc sz)) [
  | inl large ↦ rw large (refused-AllocPost f l v (dword (round_up sz)) want l.heap v)
  | inr small ↦ rw small (
      alloc_rounded-AllocPost f l v alloc_fn ok (dword (round_up sz)) want (ground arith)
        (omega arith))
]
