-- ===== src/MemLifo/Restore.antt =====
-- Runs of a pool of twapi/base/memlifo.c: any sequence of calls between a mark and its release.
use twapi.Base.{
  ℕ, ◌+◌, ◌^◌, ◌≤◌, ◌<◌, ◌≡◌, refl, sym, ap, subst, ◌∙◌, ◌≢◌, Bool, true, false, Option, some, List,
  [], ◌∷◌, arith, ◌==◌,
}
use twapi.MemLifo.Word.{round_up, dword}
use twapi.MemLifo.Heap.{Ptr, null, Blocks, Heap, AllocFn, IsAllocator}
use twapi.MemLifo.State.{Mark, Lifo, returned, head_ptr}
use twapi.MemLifo.Alloc.{Allotted, alloc}
use twapi.MemLifo.Marks.{push_mark, push_frame, free_between, pop_to, pop_mark, pop_frame}
use twapi.MemLifo.Last.{pointer, last_size, expand_last, shrink_last, resize_last}
use twapi.MemLifo.Invariant.{owned, IsValid}
use twapi.MemLifo.Settles.{Settles, Settles-returned}
use twapi.MemLifo.Served.{AllocPost}
use twapi.MemLifo.AllocValid.{alloc_serves}
use twapi.MemLifo.MarksValid.{MarkPost, push_mark_stands}
use twapi.MemLifo.FramesValid.{FramePost, framed, unframed, push_frame_serves}
use twapi.MemLifo.ShrinkValid.{ShrinkPost, shrink_last-Settles}
use twapi.MemLifo.ExpandValid.{may_panic, Grown, pointer-Settles, expand_last_grows}
use twapi.MemLifo.ResizeValid.{Resized, resize_last_fits}
use twapi.MemLifo.PopRestores.{==_refl, pop_frame_restores}

-- One call that returns: an allocation, a mark or a frame that is pushed, the topmost mark popped, or
-- the last allocation expanded, shrunk or resized. Where there is a last allocation, it is expanded
-- by less than 2^31 - 7 bytes, to a size that, with 7 more, fits a `DWORD`, and resized from at most
-- 2^31 bytes to less than 2^31 - 7. Popping a mark that is not the topmost one is no such call.
pub data Step (alloc_fn : AllocFn) (l : Lifo) : Lifo → Type 0 where
  allocated :
      {l' : Lifo} (sz : ℕ) (want : Bool) (r : Allotted)
      → alloc alloc_fn sz want l ≡ returned r l'
      → Step alloc_fn l l'
  marked : {l' : Lifo} (n : Ptr) → push_mark alloc_fn l ≡ returned n l' → Step alloc_fn l l'
  framed_call :
      {l' : Lifo} (sz : ℕ) (want : Bool) (r : Allotted)
      → push_frame alloc_fn sz want l ≡ returned r l'
      → Step alloc_fn l l'
  popped : {l' : Lifo} → pop_frame l ≡ returned tt l' → Step alloc_fn l l'
  expanded :
      {l' : Lifo} (incr : ℕ) (fix : Bool) (p : Ptr)
      → l.top.last_alloc ≢ null
      → incr + 7 < 2 ^ 31
      → last_size l.top + incr + 7 < 2 ^ 32
      → expand_last alloc_fn incr fix l ≡ returned p l'
      → Step alloc_fn l l'
  expanded_first :
      {l' : Lifo} (incr : ℕ) (fix : Bool) (p : Ptr)
      → l.top.last_alloc ≡ null
      → expand_last alloc_fn incr fix l ≡ returned p l'
      → Step alloc_fn l l'
  shrunk :
      {l' : Lifo} (decr : ℕ) (p : Ptr) → shrink_last decr l ≡ returned p l' → Step alloc_fn l l'
  resized :
      {l' : Lifo} (new_sz : ℕ) (fix : Bool) (p : Ptr)
      → l.top.last_alloc ≢ null
      → new_sz + 7 < 2 ^ 31
      → last_size l.top ≤ 2 ^ 31
      → resize_last alloc_fn new_sz fix l ≡ returned p l'
      → Step alloc_fn l l'
  resized_none :
      {l' : Lifo} (new_sz : ℕ) (fix : Bool) (p : Ptr)
      → l.top.last_alloc ≡ null
      → resize_last alloc_fn new_sz fix l ≡ returned p l'
      → Step alloc_fn l l'

pub data Reach (alloc_fn : AllocFn) (l : Lifo) : Lifo → Type 0 where
  here : Reach alloc_fn l l
  next : {l1 l2 : Lifo} → Reach alloc_fn l l1 → Step alloc_fn l1 l2 → Reach alloc_fn l l2

-- A valid pool, opened as before.
abbrev Sound : Blocks → Lifo → Lifo → Type 0
Sound f l l' = IsValid f l' × (l'.chunk_size ≡ l.chunk_size) × (l'.panic_on_fail ≡ l.panic_on_fail)

free_between_self : (m : Mark) (h : Heap) → free_between m m h ≡ some h
unfolding free_between
free_between_self m h = rw (==_refl (head_ptr m.big_blocks), ==_refl m.chunk.base)

pub pop_to-bottom :
    (l : Lifo) (m : Mark) → pop_to m [] l ≡ returned tt (record l { top = m; below = [] })
unfolding pop_to
pop_to-bottom l m = rw (free_between_self m l.heap, pop_to)

-- Popping the bottom mark leaves the pool alone.
pub pop_frame-bottom : (l : Lifo) → l.below ≡ [] → pop_frame l ≡ returned tt l
unfolding pop_frame
pop_frame-bottom l e =
    ap (λ (bs : List Mark). pop_mark l.top.addr (record l { below = bs })) e
    ∙ rw (==_refl l.top.addr, pop_mark) (pop_to-bottom (record l { below = [] }) l.top)
    ∙ ap (λ (bs : List Mark). returned tt (record l { below = bs })) (sym e)

popped-Sound :
    (f : Blocks) (l l' : Lifo) (ms : List Mark)
    → IsValid f l
    → l.below ≡ ms
    → pop_frame l ≡ returned tt l'
    → Sound f l l'
popped-Sound f l l' [] v e h =
    Settles-returned l.panic_on_fail (λ _ k. Sound f l k) (pop_frame l) tt l'
      (subst (Settles l.panic_on_fail (λ _ k. Sound f l k)) (sym (pop_frame-bottom l e))
        (v, refl, refl))
      h
popped-Sound f l l' (n ∷ ms) v e h =
    let (to, v') = pop_frame_restores f l n ms v e in
    Settles-returned l.panic_on_fail (λ _ k. Sound f l k) (pop_frame l) tt l'
      (subst (Settles l.panic_on_fail (λ _ k. Sound f l k)) (sym to) (v', refl, refl)) h

resize_none :
    (P : Lifo → Type 0) (l : Lifo) (alloc_fn : AllocFn) (new_sz : ℕ) (fix : Bool)
    → l.top.last_alloc ≡ null
    → P l
    → Settles false (λ _ k. P k) (resize_last alloc_fn new_sz fix l)
unfolding resize_last
resize_none P l alloc_fn new_sz fix none_yet h =
    let there : (l.top.last_alloc == null) ≡ true = ground arith in rw there h

module _ (f : Blocks) (alloc_fn : AllocFn) (ok : IsAllocator alloc_fn) where
  expanded_first-Sound :
      (l l' : Lifo) (incr : ℕ) (fix : Bool) (p : Ptr)
      → IsValid f l
      → l.top.last_alloc ≡ null
      → expand_last alloc_fn incr fix l ≡ returned p l'
      → Sound f l l'
  unfolding expand_last
  expanded_first-Sound l l' incr fix p v e h =
      let there : (l.top.last_alloc == null) ≡ true = ground arith in
      let (actual, post) =
        Settles-returned l.panic_on_fail
          (λ q k. (a : Option ℕ) × AllocPost f l (dword (round_up incr)) false (q, a) k)
          (pointer (alloc alloc_fn incr false l)) p l'
          (pointer-Settles f l v alloc_fn ok l.panic_on_fail
            (AllocPost f l (dword (round_up incr)) false) (alloc alloc_fn incr false l)
            (alloc_serves f l alloc_fn incr false ok v))
          (rw there at h) in
      (post.valid, post.kept.1, post.kept.2)

  Step-Sound : (l l' : Lifo) → IsValid f l → Step alloc_fn l l' → Sound f l l'
  Step-Sound l l' v (allocated sz want r e) =
      let post =
        Settles-returned l.panic_on_fail (AllocPost f l (dword (round_up sz)) want)
          (alloc alloc_fn sz want l) r l' (alloc_serves f l alloc_fn sz want ok v) e in
      (post.valid, post.kept.1, post.kept.2)
  Step-Sound l l' v (marked n e) =
      let post =
        Settles-returned l.panic_on_fail (MarkPost f l) (push_mark alloc_fn l) n l'
          (push_mark_stands f l alloc_fn ok v) e in
      (post.valid, post.opened_so.0, post.opened_so.1)
  Step-Sound l l' v (framed_call sz want r e) = go (
      Settles-returned l.panic_on_fail (FramePost f l (dword (round_up sz)) want)
        (push_frame alloc_fn sz want l) r l' (push_frame_serves f l alloc_fn sz want ok v) e)
    where
      go : FramePost f l (dword (round_up sz)) want r l' → Sound f l l'
      go (framed n m _ _ _ v' es ep) = (v', es, ep)
      go (unframed _ _ _ v' k) = (v', k.1, k.2)
  Step-Sound l l' v (popped e) = popped-Sound f l l' l.below v refl e
  Step-Sound l l' v (expanded incr fix p ne small fits e) =
      let post =
        Settles-returned (may_panic fix l)
          (Grown f l (last_size l.top + incr) (dword (round_up incr)) fix)
          (expand_last alloc_fn incr fix l) p l'
          (expand_last_grows f l v alloc_fn ok incr fix ne small fits) e in
      (post.0.valid, post.0.kept.1, post.0.kept.2)
  Step-Sound l l' v (expanded_first incr fix p ne e) = expanded_first-Sound l l' incr fix p v ne e
  Step-Sound l l' v (shrunk decr p e) =
      let post =
        Settles-returned false (ShrinkPost f l decr) (shrink_last decr l) p l'
          (shrink_last-Settles f l decr v) e in
      (post.valid, post.kept.1, post.kept.2)
  Step-Sound l l' v (resized new_sz fix p ne small fits e) =
      let post =
        Settles-returned (may_panic fix l) (Resized f l new_sz fix)
          (resize_last alloc_fn new_sz fix l) p l'
          (resize_last_fits f l v alloc_fn ok new_sz fix ne small fits) e in
      (post.0.valid, post.0.kept.1, post.0.kept.2)
  Step-Sound l l' v (resized_none new_sz fix p none_yet e) =
      Settles-returned false (λ _ k. Sound f l k) (resize_last alloc_fn new_sz fix l) p l'
        (resize_none (Sound f l) l alloc_fn new_sz fix none_yet (v, refl, refl)) e

  Reach-Sound : {l l' : Lifo} → IsValid f l → Reach alloc_fn l l' → Sound f l l'
  Reach-Sound v here = (v, refl, refl)
  Reach-Sound v (next {l1} {l2} r s) =
      let (v1, size1, panic1) = Reach-Sound v r in
      let (v2, size2, panic2) = Step-Sound l1 l2 v1 s in (v2, size2 ∙ size1, panic2 ∙ panic1)

-- The pool after the release is the pool before the mark: marks, blocks in use, and how it was
-- opened.
pub record IsRestored (f : Blocks) (before after : Lifo) : Type 0 where
  pub valid : IsValid f after
  pub top : after.top ≡ before.top
  pub below : after.below ≡ before.below
  pub blocks : after.heap.live ≡ before.heap.live
  pub chunk_size : after.chunk_size ≡ before.chunk_size
  pub panic_on_fail : after.panic_on_fail ≡ before.panic_on_fail

-- A mark is pushed on a valid pool whose allocator does what is relied on, and the push returns; then
-- come, in any number and order, calls that return, each of them `MemLifoAlloc`, `MemLifoPushMark`, `MemLifoPushFrame`, `MemLifoPopMark` of the topmost mark,
-- `MemLifoExpandLast`, `MemLifoShrinkLast` or `MemLifoResizeLast`. Where there is a last allocation,
-- it is expanded only by less than 2^31 - 7 bytes to a size that, with 7 more, fits a `DWORD`, and
-- resized only from at most 2^31 bytes to less than 2^31 - 7. If the calls end with the marks of the
-- pool before the push below the topmost mark, popping that one returns, and leaves exactly the
-- marks and the blocks in use of the pool before the push.
pub pop_frame_undoes :
    (f : Blocks) (alloc_fn : AllocFn) (l l1 l2 : Lifo) (n : Ptr)
    → IsAllocator alloc_fn
    → IsValid f l
    → push_mark alloc_fn l ≡ returned n l1
    → Reach alloc_fn l1 l2
    → l2.below ≡ l.top ∷ l.below
    → (l3 : Lifo) × (pop_frame l2 ≡ returned tt l3) × IsRestored f l l3
pop_frame_undoes f alloc_fn l l1 l2 n ok v pushed run e =
    let (v1, size1, panic1) = Step-Sound f alloc_fn ok l l1 v (marked n pushed) in
    let (v2, size2, panic2) = Reach-Sound f alloc_fn ok v1 run in
    let (to, v3) = pop_frame_restores f l2 l.top l.below v2 e in
    (
      record l2 {
        top = l.top;
        below = l.below;
        heap = record { live = owned l.top f; clock = l2.heap.clock };
      },
      to,
      record {
        valid = v3;
        top = refl;
        below = refl;
        blocks = sym v.accounted;
        chunk_size = size2 ∙ size1;
        panic_on_fail = panic2 ∙ panic1;
      },
    )
