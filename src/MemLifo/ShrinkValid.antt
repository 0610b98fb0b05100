-- ===== src/MemLifo/ShrinkValid.antt =====
-- The last allocation grows and shrinks in place: `MemLifoShrinkLast` and the fast paths of
-- `MemLifoExpandLast` and `MemLifoResizeLast` of twapi/base/memlifo.c.
use twapi.Base.{
  ℕ, ◌-◌, ◌%◌, ◌≤◌, ◌<◌, ◌≡◌, refl, sym, ap, subst, ◌≢◌, inl, inr, Bool, true, false, ◌&&◌, not, [],
  arith, ◌==◌, leb, Bool-cases,
}
use twapi.MemLifo.Word.{round_down, sub_ptr}
use twapi.MemLifo.Heap.{Ptr, null, Blocks}
use twapi.MemLifo.State.{Mark, Lifo, returned}
use twapi.MemLifo.Last.{is_big_block, last_size, set_freeptr, shrink_last}
use twapi.MemLifo.LastSize.{last_size_small}
use twapi.MemLifo.Invariant.{
  IsInChunk, LastAlloc, nowhere, in_chunk, in_big_block, IsPlaced, IsValid,
}
use twapi.MemLifo.Settles.{Settles}
use twapi.MemLifo.Enter.{IsStacked-grow}
use twapi.MemLifo.Served.{Kept}

pub true-ne-false : {b : Bool} → b ≡ true → b ≡ false → ⊥
true-ne-false h k = cc

-- An allocation that is no big block is in the current chunk.
pub IsInChunk-small :
    (m : Mark) → IsPlaced m → m.last_alloc ≢ null → is_big_block m ≡ false → IsInChunk m
IsInChunk-small m p ne small = go p.last
  where
    go : LastAlloc m → IsInChunk m
    go (nowhere e) = absurd (ne e)
    go (in_chunk s) = s
    go (in_big_block big some_big) = absurd (true-ne-false big small)

module _ (f : Blocks) (l : Lifo) (v : IsValid f l) (s : IsInChunk l.top) where
  pub small_size : last_size l.top ≡ l.top.freeptr - l.top.last_alloc
  small_size =
      last_size_small l.top s.small_block s.high
        (omega (arith, v.own_chunks.0.small, v.placed.high, s.low))

  -- The free pointer moves within the current chunk, behind the last allocation.
  pub set_freeptr-IsValid :
      (p : Ptr)
      → l.top.last_alloc ≤ p
      → p ≤ l.top.chunk.end
      → p % 8 ≡ 0
      → IsValid f (set_freeptr p l)
  unfolding set_freeptr is_big_block
  set_freeptr-IsValid p low high even = record {
    placed = record {
      low = omega (arith, s.low);
      high = high;
      even = even;
      last =
          in_chunk (record { low = s.low; high = low; even = s.even; small_block = s.small_block });
    };
    stacked =
        IsStacked-grow l.top (record l.top { freeptr = p }) l.below [] [] v.stacked refl refl
          (inr (inr refl));
    own_chunks = v.own_chunks;
    own_bigs = v.own_bigs;
    accounted = v.accounted;
    size_low = v.size_low;
    size_high = v.size_high;
    size_even = v.size_even;
  }

  pub set_freeptr-size :
      (p : Ptr)
      → l.top.last_alloc ≤ p
      → p ≤ l.top.chunk.end
      → last_size (set_freeptr p l).top ≡ p - l.top.last_alloc
  unfolding set_freeptr is_big_block
  set_freeptr-size p low high =
      last_size_small (record l.top { freeptr = p }) s.small_block low
        (omega (arith, v.own_chunks.0.small, s.low))

-- What has become of the last allocation: the amount asked for, rounded down, is given back, or the
-- pool is as it was.
pub data Shrunk (l : Lifo) (decr : ℕ) (l' : Lifo) : Type 0 where
  shortened :
      l.top.last_alloc ≢ null
      → is_big_block l.top ≡ false
      → round_down decr ≤ last_size l.top
      → l' ≡ set_freeptr (l.top.freeptr - round_down decr) l
      → last_size l'.top ≡ last_size l.top - round_down decr
      → Shrunk l decr l'
  no_alloc : l.top.last_alloc ≡ null → l' ≡ l → Shrunk l decr l'
  unmoved : is_big_block l.top ≡ true → l' ≡ l → Shrunk l decr l'
  too_much : last_size l.top < round_down decr → l' ≡ l → Shrunk l decr l'

pub record ShrinkPost (f : Blocks) (l : Lifo) (decr : ℕ) (p : Ptr) (l' : Lifo) : Type 0 where
  pub valid : IsValid f l'
  pub kept : Kept l l'
  pub pointer : p ≡ l.top.last_alloc
  pub same_alloc : l'.top.last_alloc ≡ l.top.last_alloc
  pub shrunk : Shrunk l decr l'

module _ (f : Blocks) (l : Lifo) (decr : ℕ) (v : IsValid f l) where
  unchanged-ShrinkPost :
      (p : Ptr) → p ≡ l.top.last_alloc → Shrunk l decr l → ShrinkPost f l decr p l
  unchanged-ShrinkPost p e s = record {
    valid = v;
    kept = (refl, refl, refl);
    pointer = e;
    same_alloc = refl;
    shrunk = s;
  }

  -- The free pointer goes back by an even number of bytes, at most the size of the allocation.
  pub back-ShrinkPost :
      (d : ℕ)
      → IsInChunk l.top
      → l.top.last_alloc ≢ null
      → d ≡ round_down decr
      → d ≤ last_size l.top
      → ShrinkPost f l decr l.top.last_alloc (set_freeptr (sub_ptr l.top.freeptr d) l)
        × (last_size (set_freeptr (sub_ptr l.top.freeptr d) l).top ≡ last_size l.top - d)
  unfolding set_freeptr
  back-ShrinkPost d s ne rounded fits =
      let size = small_size f l v s in
      let to : sub_ptr l.top.freeptr d ≡ l.top.freeptr - d =
        omega (arith, v.own_chunks.0.addressable, v.placed.high) in
      let size' =
        set_freeptr-size f l v s (sub_ptr l.top.freeptr d) (omega (arith, s.high))
          (omega (arith, v.placed.high)) in
      (
        record {
          valid =
              set_freeptr-IsValid f l v s (sub_ptr l.top.freeptr d) (omega (arith, s.high))
                (omega (arith, v.placed.high)) (omega (arith, v.placed.even));
          kept = (refl, refl, refl);
          pointer = refl;
          same_alloc = refl;
          shrunk =
              shortened ne s.small_block (omega arith)
                (ap (λ q. set_freeptr q l) (omega (arith, to))) (omega (arith, s.high));
        },
        omega (arith, s.high),
      )

  -- `MemLifoShrinkLast` on a valid pool always returns the last allocation, `NULL` if there is none,
  -- and never panics. The pool stays valid, with its lower marks. If the last allocation is in the
  -- chunk and has at least the amount asked for, rounded down to a multiple of 8, then exactly that
  -- amount is given back by the free pointer, and nothing else changes. Otherwise, for a big block,
  -- too large an amount or no allocation, the pool is as it was.
  pub shrink_last_shrinks :
      (l' : Lifo) × (shrink_last decr l ≡ returned l.top.last_alloc l')
      × ShrinkPost f l decr l.top.last_alloc l'
  unfolding shrink_last
  shrink_last_shrinks = elim (Bool-cases (l.top.last_alloc == null)) [
    | inl gone ↦
        let none_yet : l.top.last_alloc ≡ null = ground (arith, gone) in
        (
          l,
          rw gone (ap (λ p. returned p l) (sym none_yet)),
          unchanged-ShrinkPost l.top.last_alloc refl (no_alloc none_yet refl),
        )
    | inr there ↦
        elim (Bool-cases (not (is_big_block l.top) && leb (round_down decr) (last_size l.top))) [
          | inl fits ↦ (
            set_freeptr (sub_ptr l.top.freeptr (round_down decr)) l,
            rw (there, fits) refl,
            (back-ShrinkPost (round_down decr)
                (IsInChunk-small l.top v.placed (ground arith) (ground arith)) (ground arith) refl
                (ground arith)).0,
          )
          | inr keep ↦
              (l, rw (there, keep) refl, unchanged-ShrinkPost l.top.last_alloc refl (kept keep))
        ]
  ]
    where
      kept :
          (not (is_big_block l.top) && leb (round_down decr) (last_size l.top)) ≡ false
          → Shrunk l decr l
      kept h = elim (Bool-cases (is_big_block l.top)) [
        | inl big ↦ unmoved big refl
        | inr small ↦ too_much (ground (arith, h, small)) refl
      ]

  pub shrink_last-Settles : Settles false (ShrinkPost f l decr) (shrink_last decr l)
  shrink_last-Settles =
      let (l', e, post) = shrink_last_shrinks in
      subst (Settles false (ShrinkPost f l decr)) (sym e) post
