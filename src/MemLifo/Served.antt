-- ===== src/MemLifo/Served.antt =====
-- What `MemLifoAlloc` of twapi/base/memlifo.c promises, and how it serves a request from the current
-- chunk.
use twapi.Base.{
  ℕ, ◌+◌, ◌-◌, ◌%◌, ◌^◌, ◌≤◌, ◌≡◌, refl, ◌≢◌, ◌⊎◌, inl, Bool, true, false, Option, none, some, [],
  arith,
}
use twapi.MemLifo.Word.{add_ptr}
use twapi.MemLifo.Heap.{Ptr, null, Chunk, Blocks, tick}
use twapi.MemLifo.State.{Lifo}
use twapi.MemLifo.Alloc.{Allotted, fits, take_space}
use twapi.MemLifo.Last.{last_size}
use twapi.MemLifo.LastSize.{last_size_small}
use twapi.MemLifo.Invariant.{in_chunk, IsValid}
use twapi.MemLifo.Settles.{Settles}
use twapi.MemLifo.Enter.{not_big_in_chunk, IsStacked-grow}

-- Where `[p, p + n)` lies: in the free space of the current chunk, which is used up to its end or
-- beyond; or behind the header of a block that was not in use.
pub data Place (before after : Lifo) (p n : ℕ) : Type 0 where
  in_free_space :
      after.top.chunk ≡ before.top.chunk
      → p ≡ before.top.freeptr
      → p + n ≤ after.top.freeptr
      → Place before after p n
  in_new_block :
      (c : Chunk)
      → before.heap.live c.base ≡ none
      → after.heap.live c.base ≡ some c.end
      → c.base + 16 ≤ p
      → p + n ≤ c.end
      → Place before after p n

-- The size reported through `actual_szP`.
abbrev pub ActualSize : Bool → ℕ → Option ℕ → ℕ → Type 0
ActualSize want sz none n = (want ≡ false) × (n ≡ sz)
ActualSize want sz (some a) n = (want ≡ true) × (n ≡ a) × (sz ≤ a)

-- A served request of `sz` bytes: `n` bytes at an aligned address become the last allocation.
pub record IsServed (before after : Lifo) (sz : ℕ) (want : Bool) (r : Allotted) : Type 0 where
  pub size : ℕ
  pub nonnull : r.0 ≢ null
  pub even : r.0 % 8 ≡ 0
  pub last : after.top.last_alloc ≡ r.0
  pub actual : ActualSize want sz r.1 size
  pub place : Place before after r.0 size
  pub measured : sz ≤ last_size after.top

-- `NULL`, with the marks as they were.
abbrev pub Refused : Lifo → Lifo → Allotted → Type 0
Refused before after r = (r ≡ (null, none)) × (after.top ≡ before.top)

-- The marks under the topmost one, and how the pool was opened, are as before.
abbrev pub Kept : Lifo → Lifo → Type 0
Kept before after =
    (after.below ≡ before.below)
    × (after.chunk_size ≡ before.chunk_size)
    × (after.panic_on_fail ≡ before.panic_on_fail)

pub record ServedPost (f : Blocks) (l : Lifo) (sz : ℕ) (want : Bool) (r : Allotted) (l' : Lifo)
    : Type 0 where
  pub valid : IsValid f l'
  pub kept : Kept l l'
  pub served : IsServed l l' sz want r

pub record AllocPost (f : Blocks) (l : Lifo) (sz : ℕ) (want : Bool) (r : Allotted) (l' : Lifo)
    : Type 0 where
  pub valid : IsValid f l'
  pub kept : Kept l l'
  pub served : IsServed l l' sz want r ⊎ Refused l l' r

module _ (f : Blocks) (l : Lifo) (v : IsValid f l) where
  open v use {placed, stacked, own_chunks, own_bigs, accounted}

  pub tick-IsValid : IsValid f (record l { heap = tick l.heap })
  tick-IsValid = record {
    placed = placed;
    stacked = stacked;
    own_chunks = own_chunks;
    own_bigs = own_bigs;
    accounted = accounted;
    size_low = v.size_low;
    size_high = v.size_high;
    size_even = v.size_even;
  }

  take-IsValid :
      (p : Ptr)
      → l.top.freeptr ≤ p
      → p ≤ l.top.chunk.end
      → p % 8 ≡ 0
      → IsValid f (record l { top = record l.top { last_alloc = l.top.freeptr; freeptr = p } })
  take-IsValid p low high even =
      let m' = record l.top { last_alloc = l.top.freeptr; freeptr = p } in
      let small = not_big_in_chunk f m' own_chunks own_bigs placed.low placed.high in
      record {
        placed = record {
          low = omega (arith, placed.low);
          high = high;
          even = even;
          last =
              in_chunk
                (record { low = placed.low; high = low; even = placed.even; small_block = small });
        };
        stacked = IsStacked-grow l.top m' l.below [] [] stacked refl refl (inl small);
        own_chunks = own_chunks;
        own_bigs = own_bigs;
        accounted = accounted;
        size_low = v.size_low;
        size_high = v.size_high;
        size_even = v.size_even;
      }

  -- A pointer that fits did not wrap around.
  pub fits_lem :
      (sz : ℕ)
      → sz ≤ 2 ^ 31 + 64
      → fits l.top (add_ptr l.top.freeptr sz) ≡ true
      → (add_ptr l.top.freeptr sz ≡ l.top.freeptr + sz) × (l.top.freeptr + sz ≤ l.top.chunk.end)
  unfolding fits
  fits_lem sz small h =
      ground (arith, placed.low, placed.high, own_chunks.0.small, own_chunks.0.addressable)

  take-measured :
      (sz : ℕ) (p : Ptr)
      → l.top.freeptr ≤ p
      → p ≤ l.top.chunk.end
      → l.top.freeptr + sz ≤ p
      → sz ≤ last_size (record l.top { last_alloc = l.top.freeptr; freeptr = p })
  take-measured sz p low high room =
      let m' = record l.top { last_alloc = l.top.freeptr; freeptr = p } in
      omega (
        arith,
        last_size_small m' (not_big_in_chunk f m' own_chunks own_bigs placed.low placed.high),
        own_chunks.0.small,
        placed.low,
      )

  pub take_space-ServedPost :
      (sz : ℕ) (want : Bool)
      → sz ≤ 2 ^ 31
      → sz % 8 ≡ 0
      → fits l.top (add_ptr l.top.freeptr sz) ≡ true
      → Settles l.panic_on_fail
          (ServedPost f l sz want)
          (take_space want (add_ptr l.top.freeptr sz) l)
  unfolding take_space
  take_space-ServedPost sz true small even h =
      let (e, room) = fits_lem sz (omega arith) h in
      record {
        valid =
            take-IsValid l.top.chunk.end placed.high (omega (arith, own_chunks.0.small))
              own_chunks.0.rounded;
        kept = (refl, refl, refl);
        served = record {
          size = l.top.chunk.end - l.top.freeptr;
          nonnull = omega (arith, placed.low);
          even = placed.even;
          last = refl;
          actual = (
            refl,
            omega (arith, own_chunks.0.small, placed.low, placed.high, own_chunks.0.addressable),
            omega (arith, own_chunks.0.small, placed.low, placed.high, own_chunks.0.addressable),
          );
          place = in_free_space refl refl (omega (arith, placed.high));
          measured =
              take-measured sz l.top.chunk.end placed.high (omega arith)
                (omega (arith, placed.high));
        };
      }
  take_space-ServedPost sz false small even h =
      let (e, room) = fits_lem sz (omega arith) h in
      record {
        valid =
            take-IsValid (add_ptr l.top.freeptr sz) (omega arith) (omega arith)
              (omega (arith, placed.even));
        kept = (refl, refl, refl);
        served = record {
          size = sz;
          nonnull = omega (arith, placed.low);
          even = placed.even;
          last = refl;
          actual = (refl, refl);
          place = in_free_space refl refl (omega arith);
          measured =
              take-measured sz (add_ptr l.top.freeptr sz) (omega arith) (omega arith) (omega arith);
        };
      }
