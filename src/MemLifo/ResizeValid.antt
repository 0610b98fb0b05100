-- ===== src/MemLifo/ResizeValid.antt =====
-- `MemLifoResizeLast` of twapi/base/memlifo.c.
use twapi.Base.{
  subst, ℕ, ◌+◌, ◌-◌, ◌%◌, ◌^◌, ◌≤◌, ◌<◌, ◌≡◌, sym, ◌∙◌, ◌≢◌, inl, inr, Bool, false, ◌⊎◌, arith,
  ◌==◌, leb, Bool-cases,
}
use twapi.MemLifo.Word.{round_up, sub_ptr, dword}
use twapi.MemLifo.Heap.{Ptr, null, Blocks, AllocFn, IsAllocator}
use twapi.MemLifo.State.{Lifo}
use twapi.MemLifo.Last.{is_big_block, last_size, set_freeptr, expand_last, shrink_last, resize_last}
use twapi.MemLifo.Invariant.{IsValid}
use twapi.MemLifo.Settles.{Settles, Settles-quiet, Settles-mono}
use twapi.MemLifo.ShrinkValid.{
  IsInChunk-small, Shrunk, shortened, no_alloc, unmoved, too_much, ShrinkPost, back-ShrinkPost,
  shrink_last-Settles,
}
use twapi.MemLifo.Replaced.{ResizePost, and_false}
use twapi.MemLifo.ExpandValid.{
  may_panic, Growth, Grown, last_size_even, ResizePost-weaken, expand_last_grows,
}

-- To a size that is not larger than the old one the last allocation shrinks where it is; to a larger
-- size it grows, in place if it can.
abbrev pub Resized : Blocks → Lifo → ℕ → Bool → Ptr → Lifo → Type 0
Resized f l new_sz fix p l' =
    let sz = dword (round_up new_sz) in
    ResizePost f l new_sz fix p l'
    × (((sz ≤ last_size l.top) × (p ≡ l.top.last_alloc) × Shrunk l (last_size l.top - sz) l')
        ⊎ ((last_size l.top < sz) × Growth l (sz - last_size l.top) p l'))

module _ (f : Blocks) (l : Lifo) (v : IsValid f l) (alloc_fn : AllocFn)
    (ok : IsAllocator alloc_fn) where
  Shrunk-at_most :
      (decr : ℕ) (l' : Lifo) → Shrunk l decr l' → last_size l.top ≤ last_size l'.top + decr
  Shrunk-at_most decr l' (shortened _ _ fits _ size) = omega (arith, size, fits)
  Shrunk-at_most decr l' (no_alloc _ e) = rw e (omega arith)
  Shrunk-at_most decr l' (unmoved _ e) = rw e (omega arith)
  Shrunk-at_most decr l' (too_much _ e) = rw e (omega arith)

  shrunk-Resized :
      (new_sz : ℕ) (fix : Bool) (p : Ptr) (l' : Lifo)
      → l.top.last_alloc ≢ null
      → new_sz + 7 < 2 ^ 31
      → dword (round_up new_sz) ≤ last_size l.top
      → ShrinkPost f l (last_size l.top - dword (round_up new_sz)) p l'
      → Resized f l new_sz fix p l'
  shrunk-Resized new_sz fix p l' ne small less post = (
    record {
      valid = post.valid;
      kept = post.kept;
      resized = inl (
        λ q. ne (sym post.pointer ∙ q),
        post.same_alloc ∙ sym post.pointer,
        omega (arith, Shrunk-at_most (last_size l.top - dword (round_up new_sz)) l' post.shrunk),
      );
      fixed = λ _. inr post.pointer;
    },
    inl (less, post.pointer, post.shrunk),
  )

  -- `MemLifoResizeLast` on a valid pool whose allocator does what is relied on, where there is a last
  -- allocation of at most 2^31 bytes and the new size is below 2^31 - 7. It panics, which memlifo.h
  -- rules out, only if the pool was opened so, `fix` is not set and the last allocation is no big
  -- block, where it may. When it returns, the pool is valid, with its lower marks. The last allocation
  -- has at least `new_sz` bytes, perhaps at another address, but not if `fix` is set; or `NULL` is
  -- returned and the topmost mark is as it was. If the new size, rounded up, is not larger than the
  -- old one, the allocation is returned where it is, and gives back the difference, if it is no big
  -- block. If it is larger, the allocation grows in place, if it is no big block and its chunk has
  -- room, but less than 2^31 bytes free.
  pub resize_last_fits :
      (new_sz : ℕ) (fix : Bool)
      → l.top.last_alloc ≢ null
      → new_sz + 7 < 2 ^ 31
      → last_size l.top ≤ 2 ^ 31
      → Settles (may_panic fix l) (Resized f l new_sz fix) (resize_last alloc_fn new_sz fix l)
  unfolding resize_last
  resize_last_fits new_sz fix ne small fits =
      let sz = dword (round_up new_sz) in
      let there : (l.top.last_alloc == null) ≡ false = ground arith in
      let even : last_size l.top % 8 ≡ 0 = last_size_even f l v alloc_fn ok ne in
      let rounded : last_size l.top < sz
          → dword (round_up (sz - last_size l.top)) ≡ sz - last_size l.top =
        λ more. omega (arith, even, more) in
      rw there (elim (Bool-cases (leb sz (last_size l.top))) [
        | inl less ↦ elim (Bool-cases (is_big_block l.top)) [
          | inl big ↦
              rw (big, less)
                (Settles-quiet (may_panic fix l) (Resized f l new_sz fix)
                  (shrink_last (last_size l.top - sz) l)
                  (Settles-mono false (ShrinkPost f l (last_size l.top - sz))
                    (Resized f l new_sz fix) (shrink_last (last_size l.top - sz) l)
                    (λ p l' post. shrunk-Resized new_sz fix p l' ne small (ground arith) post)
                    (shrink_last-Settles f l (last_size l.top - sz) v)))
          | inr not_big ↦
              let s = IsInChunk-small l.top v.placed ne not_big in
              rw (not_big, less)
                (shrunk-Resized new_sz fix l.top.last_alloc
                  (set_freeptr (sub_ptr l.top.freeptr (last_size l.top - sz)) l) ne small
                  (ground arith)
                  (back-ShrinkPost f l (last_size l.top - sz) v (last_size l.top - sz) s ne
                    (omega arith) (omega arith)).0)
        ]
        | inr more ↦
            rw (more, and_false (is_big_block l.top))
              (Settles-mono (may_panic fix l)
                (Grown f l (last_size l.top + (sz - last_size l.top))
                  (dword (round_up (sz - last_size l.top))) fix)
                (Resized f l new_sz fix) (expand_last alloc_fn (sz - last_size l.top) fix l)
                (λ p l' g. (
                  ResizePost-weaken f l v alloc_fn ok (last_size l.top + (sz - last_size l.top))
                      new_sz fix p l' (omega arith) g.0,
                  inr (ground arith, subst (λ d. Growth l d p l') (rounded (ground arith)) g.1),
                ))
                (expand_last_grows f l v alloc_fn ok (sz - last_size l.top) fix ne (omega arith)
                  (omega arith)))
      ])
