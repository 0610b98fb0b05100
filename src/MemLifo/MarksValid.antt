-- ===== src/MemLifo/MarksValid.antt =====
-- `MemLifoPushMark` of twapi/base/memlifo.c and the invariant.
use twapi.Base.{
  ◌+◌, ◌≤◌, ◌≡◌, refl, ◌≢◌, ◌⊎◌, inl, inr, true, false, Option, none, some, List, [], ◌∷◌, ◌++◌,
  arith, Bool-cases,
}
use twapi.MemLifo.Word.{add_ptr}
use twapi.MemLifo.Heap.{Ptr, null, Chunk, Blocks, AllocFn, IsAllocator, tick}
use twapi.MemLifo.State.{Mark, chunks, Lifo, returned, panicked}
use twapi.MemLifo.Alloc.{fits, fail}
use twapi.MemLifo.Marks.{mark_here, mark_in_chunk, push_mark}
use twapi.MemLifo.Last.{is_big_block}
use twapi.MemLifo.Blocks.{overlay, IsAdded}
use twapi.MemLifo.Invariant.{nowhere, Extends, owned, IsValid}
use twapi.MemLifo.Settles.{Settles, fail-Settles}
use twapi.MemLifo.Enter.{
  align_ptr_lem, IsAdded-granted, own_chunks-cons, own_bigs-write, accounted-chunk, not_big_null,
}
use twapi.MemLifo.Served.{fits_lem, tick-IsValid}

-- The mark stands on the former topmost one, which is as it was, and nothing is allocated in it.
pub record IsMarked (before after : Lifo) (n : Ptr) : Type 0 where
  pub nonnull : n ≢ null
  pub at : after.top.addr ≡ n
  pub fresh : after.top.last_alloc ≡ null
  pub below : after.below ≡ before.top ∷ before.below

pub record MarkPost (f : Blocks) (l : Lifo) (n : Ptr) (l' : Lifo) : Type 0 where
  pub valid : IsValid f l'
  pub opened_so : (l'.chunk_size ≡ l.chunk_size) × (l'.panic_on_fail ≡ l.panic_on_fail)
  pub marked : IsMarked l l' n ⊎ ((n ≡ null) × (l'.top ≡ l.top) × (l'.below ≡ l.below))

module _ (f : Blocks) (l : Lifo) (v : IsValid f l) where
  open v use {placed, stacked, own_chunks, own_bigs, accounted}

  -- A new mark that shares the lists of the topmost one.
  Extends-self :
      (n : Mark) (xs : List Chunk)
      → n.big_blocks ≡ l.top.big_blocks
      → chunks n ≡ xs ++ chunks l.top
      → is_big_block n ≡ false
      → Extends n l.top
  Extends-self n xs eb ec small = record {
    new_big = [];
    new_chunks = xs;
    bigs = eb;
    chunk_list = ec;
    unshared = λ h. cc;
  }

  pub mark_here-MarkPost :
      fits l.top (add_ptr l.top.freeptr 56) ≡ true
      → Settles l.panic_on_fail (MarkPost f l) (mark_here (add_ptr l.top.freeptr 56) l)
  unfolding mark_here
  mark_here-MarkPost h =
      let (e, room) = fits_lem f l v 56 (omega arith) h in
      let m' = record l.top {
        addr = l.top.freeptr;
        last_alloc = null;
        freeptr = add_ptr l.top.freeptr 56;
      } in
      record {
        valid = record {
          placed = record {
            low = omega (arith, placed.low);
            high = omega arith;
            even = omega (arith, placed.even);
            last = nowhere refl;
          };
          stacked = (
            Extends-self m' [] refl refl (not_big_null (overlay (chunks l.top) f) m' own_bigs refl),
            placed,
            stacked,
          );
          own_chunks = own_chunks;
          own_bigs = own_bigs;
          accounted = accounted;
          size_low = v.size_low;
          size_high = v.size_high;
          size_even = v.size_even;
        };
        opened_so = (refl, refl);
        marked =
            inl (record {
              nonnull = omega (arith, placed.low);
              at = refl;
              fresh = refl;
              below = refl;
            });
      }

  mark_in_chunk-MarkPost :
      (c : Chunk)
      → IsAdded (owned l.top f) c
      → c.base + 72 ≤ c.end
      → Settles l.panic_on_fail (MarkPost f l) (mark_in_chunk c l)
  unfolding mark_in_chunk
  mark_in_chunk-MarkPost c a room =
      let ob = own_bigs-write f l v c a in
      let m' : Mark = record {
        addr = c.base + 16;
        last_alloc = null;
        big_blocks = l.top.big_blocks;
        chunk = c;
        older_chunks = chunks l.top;
        freeptr = c.base + 16 + 56;
      } in
      rw
        (
          align_ptr_lem c.base 16 a.aligned refl (omega (arith, a.addressable)),
          align_ptr_lem (c.base + 16) 56 (omega (arith, a.aligned)) refl
              (omega (arith, a.addressable)),
        )
        (record {
          valid = record {
            placed = record {
              low = omega arith;
              high = omega arith;
              even = omega (arith, a.aligned);
              last = nowhere refl;
            };
            stacked = (
              Extends-self m' (c ∷ []) refl refl
                  (not_big_null (overlay (c ∷ chunks l.top) f) m' ob refl),
              placed,
              stacked,
            );
            own_chunks = own_chunks-cons f l v c a;
            own_bigs = ob;
            accounted = accounted-chunk f l v c a;
            size_low = v.size_low;
            size_high = v.size_high;
            size_even = v.size_even;
          };
          opened_so = (refl, refl);
          marked = inl (record { nonnull = omega arith; at = refl; fresh = refl; below = refl });
        })

-- `MemLifoPushMark` on a valid pool never faults, and panics only if the pool asks for it. The
-- pool stays valid. Either there is no memory for the mark, `NULL` is returned and the marks are
-- as they were, or the new mark, at the address returned and with no allocation in it, stands on
-- the former ones, unchanged.
pub push_mark_stands :
    (f : Blocks) (l : Lifo) (alloc_fn : AllocFn)
    → IsAllocator alloc_fn
    → IsValid f l
    → Settles l.panic_on_fail (MarkPost f l) (push_mark alloc_fn l)
unfolding push_mark
push_mark_stands f l alloc_fn ok v = elim (Bool-cases (fits l.top (add_ptr l.top.freeptr 56))) [
  | inl room ↦ rw room (mark_here-MarkPost f l v room)
  | inr full ↦ rw full (go (alloc_fn l.heap.clock l.heap.live l.chunk_size) refl)
]
  where
    go :
        (o : Option Chunk)
        → alloc_fn l.heap.clock l.heap.live l.chunk_size ≡ o
        → Settles l.panic_on_fail (MarkPost f l) (elim o [
          | none ↦ fail l.panic_on_fail panicked (returned null (record l { heap = tick l.heap }))
          | some c ↦ mark_in_chunk c l
        ])
    go none e =
        fail-Settles l.panic_on_fail (MarkPost f l) null (record l { heap = tick l.heap })
          (record {
            valid = tick-IsValid f l v;
            opened_so = (refl, refl);
            marked = inr (refl, refl, refl);
          })
    go (some c) e =
        let g = ok.grants l.heap.clock l.heap.live l.chunk_size c e in
        mark_in_chunk-MarkPost f l v c
          (IsAdded-granted f l v l.chunk_size c g (omega (arith, v.size_low)) v.size_even)
          (omega (arith, g.large, v.size_low))
