-- ===== src/MemLifo/ExpandValid.antt =====
-- `MemLifoExpandLast` of twapi/base/memlifo.c.
use twapi.Base.{
  ℕ, ◌+◌, ◌-◌, ◌%◌, ◌^◌, ◌≤◌, ◌<◌, ◌≡◌, refl, ap, subst, ◌≢◌, inl, inr, Bool, true, false, Option,
  ◌&&◌, not, arith, ◌==◌, ltb, leb, Bool-cases, if◌then◌else◌,
}
use twapi.MemLifo.Word.{round_up, add_ptr, dword, ptr_diff32, int_ge, max_alloc}
use twapi.MemLifo.Heap.{Ptr, null, Blocks, AllocFn, IsAllocator}
use twapi.MemLifo.State.{chunks, Lifo, Outcome, returned, panicked, faulted}
use twapi.MemLifo.Alloc.{Allotted, alloc}
use twapi.MemLifo.Last.{
  pointer, is_big_block, last_size, set_freeptr, replace_big_block, move_last, expand_last,
}
use twapi.MemLifo.LastSize.{last_size_big}
use twapi.MemLifo.Blocks.{overlay, IsOwned}
use twapi.MemLifo.Invariant.{IsValid}
use twapi.MemLifo.Settles.{Settles, Settles-mono}
use twapi.MemLifo.Served.{AllocPost}
use twapi.MemLifo.AllocValid.{alloc_serves}
use twapi.MemLifo.ShrinkValid.{IsInChunk-small, small_size, set_freeptr-IsValid, set_freeptr-size}
use twapi.MemLifo.Replaced.{newest_big, ResizePost, kept_null, replace_big_block-ResizePost}

-- Only a call that may move an allocation within a chunk panics, and only if the pool was opened so.
abbrev panics : Bool → Bool → Bool → Bool
panics true big panic = false
panics false true panic = false
panics false false panic = panic

unfoldable pub may_panic : Bool → Lifo → Bool
may_panic fix l = panics fix (is_big_block l.top) l.panic_on_fail

-- Whether the last allocation grew in place by `incr` bytes: it does if it is in the chunk, and the
-- chunk has room, but less than 2^31 bytes of it.
pub data Growth (l : Lifo) (incr : ℕ) (p : Ptr) (l' : Lifo) : Type 0 where
  in_place :
      is_big_block l.top ≡ false
      → l.top.freeptr + incr ≤ l.top.chunk.end
      → p ≡ l.top.last_alloc
      → l' ≡ set_freeptr (l.top.freeptr + incr) l
      → Growth l incr p l'
  no_room : is_big_block l.top ≡ false → l.top.chunk.end < l.top.freeptr + incr → Growth l incr p l'
  much_room :
      is_big_block l.top ≡ false → l.top.freeptr + 2 ^ 31 ≤ l.top.chunk.end → Growth l incr p l'
  big_block : is_big_block l.top ≡ true → Growth l incr p l'

-- What an expansion to at least `need` bytes by `incr` bytes has done.
abbrev pub Grown : Blocks → Lifo → ℕ → ℕ → Bool → Ptr → Lifo → Type 0
Grown f l need incr fix p l' = ResizePost f l need fix p l' × Growth l incr p l'

module _ (f : Blocks) (l : Lifo) (v : IsValid f l) (alloc_fn : AllocFn)
    (ok : IsAllocator alloc_fn) where
  pub last_size_even : l.top.last_alloc ≢ null → last_size l.top % 8 ≡ 0
  last_size_even ne = elim (Bool-cases (is_big_block l.top)) [
    | inl big ↦
        let (b, bs, e) = newest_big l.top v.placed ne big in
        let (a, _) = subst (λ cs. IsOwned cs (overlay (chunks l.top) f)) e v.own_bigs in
        omega
          (arith, last_size_big l.top b bs big e a.header a.small, a.aligned, a.rounded, a.header)
    | inr small ↦
        let s = IsInChunk-small l.top v.placed ne small in
        omega (arith, small_size f l v s, s.even, s.high, v.placed.even)
  ]

  pub pointer-Settles :
      (panic : Bool) (P : Allotted → Lifo → Type 0) (o : Outcome Allotted)
      → Settles panic P o
      → Settles panic (λ p l'. (a : Option ℕ) × P (p, a) l') (pointer o)
  unfolding pointer
  pointer-Settles panic P (returned (p, a) l') h = (a, h)
  pointer-Settles panic P panicked h = h
  pointer-Settles panic P faulted h = h

  pub ResizePost-weaken :
      (need need' : ℕ) (fix : Bool) (p : Ptr) (l' : Lifo)
      → need' ≤ need
      → ResizePost f l need fix p l'
      → ResizePost f l need' fix p l'
  ResizePost-weaken need need' fix p l' le r = record {
    valid = r.valid;
    kept = r.kept;
    resized = elim r.resized [
      | inl (ne, last, size) ↦ inl (ne, last, omega arith)
      | inr same ↦ inr same
    ];
    fixed = r.fixed;
  }

  allocated-ResizePost :
      (sz need : ℕ) (p : Ptr) (l' : Lifo) (actual : Option ℕ)
      → need ≤ sz
      → AllocPost f l sz false (p, actual) l'
      → ResizePost f l need false p l'
  allocated-ResizePost sz need p l' actual le post = record {
    valid = post.valid;
    kept = post.kept;
    resized = elim post.served [
      | inl s ↦ inl (s.nonnull, s.last, omega (arith, s.measured))
      | inr (er, et) ↦ inr (ap (λ (q : Allotted). q.0) er, et)
    ];
    fixed = λ q. cc;
  }

  move_last-ResizePost :
      (incr : ℕ)
      → last_size l.top + incr < 2 ^ 32
      → incr % 8 ≡ 0
      → l.top.last_alloc ≢ null
      → Settles
          (may_panic false l)
          (ResizePost f l (last_size l.top + incr) false)
          (move_last alloc_fn incr l)
  unfolding move_last may_panic
  move_last-ResizePost incr small even ne =
      elim (Bool-cases (ltb max_alloc (dword (last_size l.top + incr)))) [
        | inl large ↦ rw large (kept_null f l v alloc_fn ok (last_size l.top + incr) false l.heap v)
        | inr fits ↦ rw fits (elim (Bool-cases (is_big_block l.top)) [
          | inl big ↦ rw big (
              Settles-mono false (ResizePost f l sz false)
                (ResizePost f l (last_size l.top + incr) false) (replace_big_block alloc_fn sz l)
                (λ p l'. ResizePost-weaken sz (last_size l.top + incr) false p l' (omega arith))
                (replace_big_block-ResizePost f l v alloc_fn ok sz (ground arith)
                  (omega (arith, size_even)) ne big))
          | inr not_big ↦ rw not_big (
              Settles-mono l.panic_on_fail
                (λ p l'. (a : Option ℕ) × AllocPost f l (dword (round_up sz)) false (p, a) l')
                (ResizePost f l (last_size l.top + incr) false)
                (pointer (alloc alloc_fn sz false l))
                (λ p l' h.
                  allocated-ResizePost (dword (round_up sz)) (last_size l.top + incr) p l' h.0
                    (rounded_room (ground arith) (omega arith)) h.1)
                (pointer-Settles l.panic_on_fail (AllocPost f l (dword (round_up sz)) false)
                  (alloc alloc_fn sz false l) (alloc_serves f l alloc_fn sz false ok v)))
        ])
      ]
    where
      sz : ℕ
      sz = dword (last_size l.top + incr)

      size_even : last_size l.top % 8 ≡ 0
      size_even = last_size_even ne

      rounded_room :
          sz ≤ max_alloc
          → sz ≡ last_size l.top + incr
          → last_size l.top + incr ≤ dword (round_up sz)
      rounded_room le e = omega arith

  in_place-ResizePost :
      (incr : ℕ) (fix : Bool)
      → incr % 8 ≡ 0
      → incr < 2 ^ 31
      → l.top.last_alloc ≢ null
      → is_big_block l.top ≡ false
      → int_ge (ptr_diff32 l.top.chunk.end l.top.freeptr) incr ≡ true
      → ResizePost f l
          (last_size l.top + incr)
          fix
          l.top.last_alloc
          (set_freeptr (add_ptr l.top.freeptr incr) l)
        × Growth l incr l.top.last_alloc (set_freeptr (add_ptr l.top.freeptr incr) l)
  unfolding set_freeptr
  in_place-ResizePost incr fix even small ne not_big room =
      let s = IsInChunk-small l.top v.placed ne not_big in
      let free : incr ≤ l.top.chunk.end - l.top.freeptr =
        ground
          (arith, v.own_chunks.0.small, v.own_chunks.0.addressable, v.placed.low, v.placed.high) in
      let to : add_ptr l.top.freeptr incr ≡ l.top.freeptr + incr =
        omega (arith, v.own_chunks.0.addressable, v.placed.high) in
      let after =
        set_freeptr-size f l v s (add_ptr l.top.freeptr incr) (omega (arith, s.high))
          (omega (arith, v.placed.high)) in
      (
        record {
          valid =
              set_freeptr-IsValid f l v s (add_ptr l.top.freeptr incr) (omega (arith, s.high))
                (omega (arith, v.placed.high)) (omega (arith, v.placed.even));
          kept = (refl, refl, refl);
          resized = inl (ne, refl, omega (arith, small_size f l v s, s.high));
          fixed = λ _. inr refl;
        },
        in_place not_big (omega (arith, v.placed.high)) refl (ap (λ q. set_freeptr q l) to),
      )

  full-Growth :
      (incr : ℕ) (p : Ptr) (l' : Lifo)
      → incr < 2 ^ 31
      → (not (is_big_block l.top) && int_ge (ptr_diff32 l.top.chunk.end l.top.freeptr) incr) ≡ false
      → Growth l incr p l'
  full-Growth incr p l' small full = elim (Bool-cases (is_big_block l.top)) [
    | inl big ↦ big_block big
    | inr not_big ↦ elim (Bool-cases (leb (l.top.freeptr + 2 ^ 31) l.top.chunk.end)) [
      | inl much ↦ much_room not_big (ground arith)
      | inr little ↦ no_room not_big (ground (arith, v.own_chunks.0.addressable, v.placed.high))
    ]
  ]

  expand_slow-ResizePost :
      (incr : ℕ) (fix : Bool)
      → last_size l.top + incr < 2 ^ 32
      → incr % 8 ≡ 0
      → l.top.last_alloc ≢ null
      → Settles
          (may_panic fix l)
          (ResizePost f l (last_size l.top + incr) fix)
          (if fix then returned null l else move_last alloc_fn incr l)
  expand_slow-ResizePost incr true small even ne =
      kept_null f l v alloc_fn ok (last_size l.top + incr) true l.heap v
  expand_slow-ResizePost incr false small even ne = move_last-ResizePost incr small even ne

  expand_rounded-ResizePost :
      (incr : ℕ) (fix : Bool)
      → incr % 8 ≡ 0
      → incr < 2 ^ 31
      → l.top.last_alloc ≢ null
      → last_size l.top + incr < 2 ^ 32
      → Settles (may_panic fix l) (Grown f l (last_size l.top + incr) incr fix) (
          if not (is_big_block l.top) && int_ge (ptr_diff32 l.top.chunk.end l.top.freeptr) incr
          then returned l.top.last_alloc (set_freeptr (add_ptr l.top.freeptr incr) l)
          else if fix
          then returned null l
          else move_last alloc_fn incr l)
  expand_rounded-ResizePost incr fix even small ne fits =
      elim (Bool-cases
        (not (is_big_block l.top) && int_ge (ptr_diff32 l.top.chunk.end l.top.freeptr) incr)) [
          | inl room ↦
              rw room (in_place-ResizePost incr fix even small ne (ground arith) (ground arith))
          | inr full ↦ rw full (
              Settles-mono (may_panic fix l) (ResizePost f l (last_size l.top + incr) fix)
                (Grown f l (last_size l.top + incr) incr fix)
                (if fix then returned null l else move_last alloc_fn incr l)
                (λ p l' r. (r, full-Growth incr p l' small full))
                (expand_slow-ResizePost incr fix fits even ne))
        ]

  -- `MemLifoExpandLast` on a valid pool whose allocator does what is relied on, where there is a last
  -- allocation, the increment is below 2^31 - 7 and the sum of the sizes, and 7, fits a `DWORD`. It
  -- panics, which memlifo.h rules out, only if the pool was opened so, `fix` is not set and the last
  -- allocation is no big block, where it may. When it returns, the pool is valid, with its lower marks. The last allocation has at least `incr` bytes more than before, perhaps at
  -- another address, but not if `fix` is set; or `NULL` is returned and the topmost mark is as it
  -- was. If the last allocation is no big block and its chunk has room for the increment, rounded
  -- up, but less than 2^31 bytes free, the allocation grows in place.
  pub expand_last_grows :
      (incr : ℕ) (fix : Bool)
      → l.top.last_alloc ≢ null
      → incr + 7 < 2 ^ 31
      → last_size l.top + incr + 7 < 2 ^ 32
      → Settles
          (may_panic fix l)
          (Grown f l (last_size l.top + incr) (dword (round_up incr)) fix)
          (expand_last alloc_fn incr fix l)
  unfolding expand_last
  expand_last_grows incr fix ne small fits =
      let incr' = dword (round_up incr) in
      let there : (l.top.last_alloc == null) ≡ false = ground arith in
      rw there (
        Settles-mono (may_panic fix l) (Grown f l (last_size l.top + incr') incr' fix)
          (Grown f l (last_size l.top + incr) incr' fix)
          (if not (is_big_block l.top) && int_ge (ptr_diff32 l.top.chunk.end l.top.freeptr) incr'
            then returned l.top.last_alloc (set_freeptr (add_ptr l.top.freeptr incr') l)
            else if fix
            then returned null l
            else move_last alloc_fn incr' l)
          (λ p l' g. (
            ResizePost-weaken (last_size l.top + incr') (last_size l.top + incr) fix p l'
                (omega arith) g.0,
            g.1,
          ))
          (expand_rounded-ResizePost incr' fix (omega arith) (omega arith) ne (omega arith)))
