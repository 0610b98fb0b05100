-- ===== src/MemLifo/NewBlock.antt =====
-- How `MemLifoAlloc` of twapi/base/memlifo.c serves a request from a new block: a chunk, or a big block.
use twapi.Base.{
  ℕ, ◌+◌, ◌-◌, ◌%◌, ◌≤◌, ◌≡◌, refl, inl, inr, Bool, true, false, none, some, [], ◌∷◌, arith,
  if◌then◌else◌,
}
use twapi.MemLifo.Word.{ptr_diff32}
use twapi.MemLifo.Heap.{Ptr, Chunk, Blocks, claim}
use twapi.MemLifo.State.{chunks, Lifo}
use twapi.MemLifo.Alloc.{enter_chunk, enter_big_block}
use twapi.MemLifo.Last.{is_big_block, last_size}
use twapi.MemLifo.LastSize.{last_size_small, last_size_big}
use twapi.MemLifo.Blocks.{IsAdded}
use twapi.MemLifo.Invariant.{in_chunk, in_big_block, owned, IsValid}
use twapi.MemLifo.Settles.{Settles}
use twapi.MemLifo.Enter.{
  align_ptr_lem, own_chunks-cons, own_bigs-write, accounted-chunk, accounted-big, not_big_in_chunk,
  IsStacked-grow,
}
use twapi.MemLifo.Served.{in_new_block, ActualSize, IsServed, AllocPost}

module _ (f : Blocks) (l : Lifo) (v : IsValid f l) where
  open v use {placed, stacked, own_chunks, own_bigs, accounted}

  module _ (c : Chunk) (a : IsAdded (owned l.top f) c) where
    -- The pool with the block as its current chunk, used up to `p`.
    chunk-IsValid :
        (p : Ptr)
        → c.base + 16 ≤ p
        → p ≤ c.end
        → p % 8 ≡ 0
        → IsValid f (record l {
          top = record l.top {
            last_alloc = c.base + 16;
            chunk = c;
            older_chunks = chunks l.top;
            freeptr = p;
          };
          heap = claim l.heap c;
        })
    chunk-IsValid p low high even =
        let m' = record l.top {
          last_alloc = c.base + 16;
          chunk = c;
          older_chunks = chunks l.top;
          freeptr = p;
        } in
        let oc = own_chunks-cons f l v c a in
        let ob = own_bigs-write f l v c a in
        let small = not_big_in_chunk f m' oc ob (omega arith) (omega arith) in
        record {
          placed = record {
            low = low;
            high = high;
            even = even;
            last = in_chunk (record {
              low = omega arith;
              high = low;
              even = omega (arith, a.aligned);
              small_block = small;
            });
          };
          stacked = IsStacked-grow l.top m' l.below [] (c ∷ []) stacked refl refl (inl small);
          own_chunks = oc;
          own_bigs = ob;
          accounted = accounted-chunk f l v c a;
          size_low = v.size_low;
          size_high = v.size_high;
          size_even = v.size_even;
        }

    chunk-measured :
        (sz : ℕ)
        → c.base + 16 + sz ≤ c.end
        → sz
          ≤ last_size (record l.top {
            last_alloc = c.base + 16;
            chunk = c;
            older_chunks = chunks l.top;
            freeptr = c.base + 16 + sz;
          })
    chunk-measured sz room =
        let m' = record l.top {
          last_alloc = c.base + 16;
          chunk = c;
          older_chunks = chunks l.top;
          freeptr = c.base + 16 + sz;
        } in
        omega (
          arith,
          last_size_small m' (
              not_big_in_chunk f m' (own_chunks-cons f l v c a) (own_bigs-write f l v c a)
                (omega arith) (omega arith)),
          a.small,
        )

    pub enter_chunk-AllocPost :
        (sz : ℕ) (want : Bool)
        → sz % 8 ≡ 0
        → c.base + 16 + sz ≤ c.end
        → Settles l.panic_on_fail (AllocPost f l sz want) (enter_chunk sz want c l)
    unfolding enter_chunk
    enter_chunk-AllocPost sz want even room =
        rw
          (
            align_ptr_lem c.base 16 a.aligned refl (omega (arith, a.addressable)),
            align_ptr_lem (c.base + 16) sz (omega (arith, a.aligned)) even
                (omega (arith, a.addressable)),
          )
          (record {
            valid = chunk-IsValid (c.base + 16 + sz) (omega arith) room (omega (arith, a.aligned));
            kept = (refl, refl, refl);
            served = inl (record {
              size = sz;
              nonnull = omega arith;
              even = omega (arith, a.aligned);
              last = refl;
              actual = actual want;
              place = in_new_block c (rw accounted a.unused) (ground arith) (omega arith) room;
              measured = chunk-measured sz room;
            });
          })
      where
        actual :
            (b : Bool)
            → ActualSize b sz
                (if b then some (ptr_diff32 (c.base + 16 + sz) (c.base + 16)) else none)
                sz
        actual true = (refl, omega (arith, a.small), omega (arith, a.small))
        actual false = (refl, refl)

    newest_is_big :
        is_big_block (record l.top { last_alloc = c.base + 16; big_blocks = c ∷ l.top.big_blocks })
        ≡ true
    unfolding is_big_block
    newest_is_big = ground (arith, a.addressable, a.header)

    big-measured :
        (sz : ℕ)
        → c.base + 16 + sz ≤ c.end
        → sz
          ≤ last_size (record l.top { last_alloc = c.base + 16; big_blocks = c ∷ l.top.big_blocks })
    big-measured sz room =
        let m' = record l.top { last_alloc = c.base + 16; big_blocks = c ∷ l.top.big_blocks } in
        omega (arith, last_size_big m' c l.top.big_blocks newest_is_big refl a.header a.small)

    big-IsValid : IsValid f (record l {
      top = record l.top { last_alloc = c.base + 16; big_blocks = c ∷ l.top.big_blocks };
      heap = claim l.heap c;
    })
    big-IsValid =
        let m' = record l.top { last_alloc = c.base + 16; big_blocks = c ∷ l.top.big_blocks } in
        record {
          placed = record {
            low = placed.low;
            high = placed.high;
            even = placed.even;
            last = in_big_block newest_is_big (λ e. cc);
          };
          stacked =
              IsStacked-grow l.top m' l.below (c ∷ []) [] stacked refl refl (inr (inl (λ e. cc)));
          own_chunks = own_chunks;
          own_bigs = (a, own_bigs);
          accounted = accounted-big f l v c a;
          size_low = v.size_low;
          size_high = v.size_high;
          size_even = v.size_even;
        }

    pub enter_big_block-AllocPost :
        (sz : ℕ) (want : Bool)
        → c.base + 16 + sz ≤ c.end
        → Settles l.panic_on_fail (AllocPost f l sz want) (enter_big_block want c l)
    unfolding enter_big_block
    enter_big_block-AllocPost sz want room =
        rw (align_ptr_lem c.base 16 a.aligned refl (omega (arith, a.addressable, a.header)))
          (record { valid = big-IsValid; kept = (refl, refl, refl); served = inl (served want) })
      where
        served :
            (b : Bool)
            → IsServed l
                (record l {
                  top = record l.top {
                    last_alloc = c.base + 16;
                    big_blocks = c ∷ l.top.big_blocks;
                  };
                  heap = claim l.heap c;
                })
                sz
                b
                (c.base + 16, if b then some (ptr_diff32 c.end (c.base + 16)) else none)
        served true = record {
          size = c.end - (c.base + 16);
          nonnull = omega arith;
          even = omega (arith, a.aligned);
          last = refl;
          actual = (
            refl,
            omega (arith, a.small, a.header, a.addressable),
            omega (arith, a.small, a.header, a.addressable),
          );
          place =
              in_new_block c (rw accounted a.unused) (ground arith) (omega arith)
                (omega (arith, a.header));
          measured = big-measured sz room;
        }
        served false = record {
          size = sz;
          nonnull = omega arith;
          even = omega (arith, a.aligned);
          last = refl;
          actual = (refl, refl);
          place = in_new_block c (rw accounted a.unused) (ground arith) (omega arith) room;
          measured = big-measured sz room;
        }
