-- ===== src/MemLifo/FramesValid.antt =====
-- `MemLifoPushFrame` of twapi/base/memlifo.c and the invariant.
use twapi.Base.{
  ℕ, ◌+◌, ◌%◌, ◌^◌, ◌≤◌, ◌≡◌, refl, sym, ap, ◌∙◌, ◌≢◌, inl, inr, Bool, true, false, none, ◌∷◌,
  arith, ◌==◌, ltb, Bool-cases, subst, if◌then◌else◌,
}
use twapi.MemLifo.Word.{round_up, add_ptr, align_ptr, dword, max_alloc}
use twapi.MemLifo.Heap.{Ptr, null, Blocks, AllocFn, IsAllocator}
use twapi.MemLifo.State.{Mark, Lifo, Outcome, returned, panicked, faulted}
use twapi.MemLifo.Alloc.{Allotted, fits, no_memory, take_space, alloc}
use twapi.MemLifo.Marks.{
  pop_mark, pop_frame, mark_here, frame_here, push_mark, fill_frame, push_frame_slow, push_frame,
}
use twapi.MemLifo.Invariant.{owned, IsValid}
use twapi.MemLifo.Settles.{Settles, fail-Settles, Settles-mono}
use twapi.MemLifo.Enter.{align_ptr_lem, add_ptr_lem}
use twapi.MemLifo.Served.{IsServed, Kept, ServedPost, AllocPost, fits_lem, take_space-ServedPost}
use twapi.MemLifo.AllocValid.{alloc_serves}
use twapi.MemLifo.MarksValid.{IsMarked, MarkPost, mark_here-MarkPost, push_mark_stands}
use twapi.MemLifo.PopRestores.{pop_frame_restores}

-- The frame is what a pushed mark and an allocation in it give; or the pool is as it was, with the
-- same blocks in use, and `NULL` is returned.
pub data FramePost (f : Blocks) (l : Lifo) (sz : ℕ) (want : Bool) (r : Allotted) (l' : Lifo)
    : Type 0 where
  framed :
      (n : Ptr) (marked : Lifo)
      → IsMarked l marked n
      → Kept marked l'
      → IsServed marked l' sz want r
      → IsValid f l'
      → l'.chunk_size ≡ l.chunk_size
      → l'.panic_on_fail ≡ l.panic_on_fail
      → FramePost f l sz want r l'
  unframed :
      r ≡ (null, none)
      → l'.top ≡ l.top
      → l'.heap.live ≡ l.heap.live
      → IsValid f l'
      → Kept l l'
      → FramePost f l sz want r l'

module _ (f : Blocks) (l : Lifo) (v : IsValid f l) where
  abbrev marked_here : Ptr → Lifo
  marked_here q = record l {
    top = record l.top { addr = l.top.freeptr; last_alloc = null; freeptr = q };
    below = l.top ∷ l.below;
  }

  no_memory-FramePost :
      (sz : ℕ) (want : Bool) (l' : Lifo)
      → l'.top ≡ l.top
      → l'.heap.live ≡ l.heap.live
      → IsValid f l'
      → Kept l l'
      → Settles l'.panic_on_fail (FramePost f l sz want) (no_memory l')
  unfolding no_memory
  no_memory-FramePost sz want l' et el v' k =
      fail-Settles l'.panic_on_fail (FramePost f l sz want) (null, none) l'
        (unframed refl et el v' k)

  frame_here-take_space :
      (sz : ℕ) (want : Bool) (q : Ptr)
      → align_ptr l.top.freeptr 56 ≡ q
      → frame_here sz want (add_ptr q sz) l ≡ take_space want (add_ptr q sz) (marked_here q)
  unfolding frame_here take_space
  frame_here-take_space sz true q e = cc
  frame_here-take_space sz false q e = cc

  fits_there :
      (sz : ℕ) (q : Ptr)
      → add_ptr l.top.freeptr (dword (sz + 56)) ≡ add_ptr q sz
      → fits l.top (add_ptr l.top.freeptr (dword (sz + 56))) ≡ true
      → fits (marked_here q).top (add_ptr q sz) ≡ true
  unfolding fits
  fits_there sz q e h = rw (← e) h

  marked_here-IsValid :
      fits l.top (add_ptr l.top.freeptr 56) ≡ true
      → IsValid f (marked_here (add_ptr l.top.freeptr 56))
  unfolding mark_here
  marked_here-IsValid h =
      let post : MarkPost f l l.top.freeptr (marked_here (add_ptr l.top.freeptr 56)) =
        mark_here-MarkPost f l v h in
      post.valid

  fits_mark :
      add_ptr l.top.freeptr 56 ≡ l.top.freeptr + 56
      → l.top.freeptr + 56 ≤ l.top.chunk.end
      → fits l.top (add_ptr l.top.freeptr 56) ≡ true
  unfolding fits
  fits_mark e room = rw e (ground (arith, v.placed.low))

  frame_here-FramePost :
      (sz : ℕ) (want : Bool)
      → sz ≤ 2 ^ 31
      → sz % 8 ≡ 0
      → fits l.top (add_ptr l.top.freeptr (dword (sz + 56))) ≡ true
      → Settles l.panic_on_fail
          (FramePost f l sz want)
          (frame_here sz want (add_ptr l.top.freeptr (dword (sz + 56))) l)
  frame_here-FramePost sz want small even h =
      let (e, room) = fits_lem f l v (dword (sz + 56)) (omega arith) h in
      let q = add_ptr l.top.freeptr 56 in
      let l1 = marked_here q in
      let eq : q ≡ l.top.freeptr + 56 =
        add_ptr_lem l.top.freeptr 56 (omega (arith, v.own_chunks.0.addressable)) in
      let v1 = marked_here-IsValid (fits_mark eq (omega arith)) in
      let there : add_ptr l.top.freeptr (dword (sz + 56)) ≡ add_ptr q sz =
        e ∙ omega (arith, eq, v.own_chunks.0.addressable) in
      rw
        (
          there,
          frame_here-take_space sz want q (
              align_ptr_lem l.top.freeptr 56 v.placed.even refl
                (omega (arith, v.own_chunks.0.addressable))
              ∙ sym eq),
        )
        (Settles-mono l.panic_on_fail (ServedPost f l1 sz want) (FramePost f l sz want)
          (take_space want (add_ptr q sz) l1)
          (λ r l' post.
            framed l.top.freeptr l1
              (record {
                nonnull = omega (arith, v.placed.low);
                at = refl;
                fresh = refl;
                below = refl;
              })
              post.kept post.served post.valid post.kept.1 post.kept.2)
          (take_space-ServedPost f l1 v1 sz want small even (fits_there sz q there h)))

round_up_even : (sz : ℕ) → sz ≤ 2 ^ 31 → sz % 8 ≡ 0 → dword (round_up sz) ≡ sz
round_up_even sz small even = omega arith

ne_null : (p : Ptr) → p ≢ null → (p == null) ≡ false
ne_null p h = ground arith

module _ (f : Blocks) (l : Lifo) (v : IsValid f l) (alloc_fn : AllocFn)
    (ok : IsAllocator alloc_fn) where
  fill_frame-FramePost :
      (sz : ℕ) (want : Bool) (n : Ptr) (l1 : Lifo)
      → sz ≤ 2 ^ 31
      → sz % 8 ≡ 0
      → IsValid f l1
      → IsMarked l l1 n
      → l1.chunk_size ≡ l.chunk_size
      → l1.panic_on_fail ≡ l.panic_on_fail
      → Settles l.panic_on_fail (FramePost f l sz want) (fill_frame alloc_fn sz want n l1)
  unfolding fill_frame pop_frame
  fill_frame-FramePost sz want n l1 small even v1 m es ep = go (alloc alloc_fn sz want l1) (
      subst (λ b. Settles b (AllocPost f l1 sz want) (alloc alloc_fn sz want l1)) ep
        (subst (λ s. Settles l1.panic_on_fail (AllocPost f l1 s want) (alloc alloc_fn sz want l1))
          (round_up_even sz small even) (alloc_serves f l1 alloc_fn sz want ok v1)))
    where
      restored : Lifo → Lifo
      restored l2 = record l2 {
        top = l.top;
        below = l.below;
        heap = record { live = owned l.top f; clock = l2.heap.clock };
      }

      popped :
          (l2 : Lifo) {r : Allotted}
          → AllocPost f l1 sz want r l2
          → l2.top ≡ l1.top
          → pop_mark n l2 ≡ returned tt (restored l2)
      popped l2 post et =
          rw (← m.at)
            (rw (← et) (pop_frame_restores f l2 l.top l.below post.valid (post.kept.0 ∙ m.below)).0)

      go :
          (o : Outcome Allotted)
          → Settles l.panic_on_fail (AllocPost f l1 sz want) o
          → Settles l.panic_on_fail (FramePost f l sz want) (elim o [
            | returned (p, actual) l' ↦
                if p == null
                then elim (pop_mark n l') [
                  | returned _ l'' ↦ no_memory l''
                  | panicked ↦ panicked
                  | faulted ↦ faulted
                ]
                else returned (p, actual) l'
            | panicked ↦ panicked
            | faulted ↦ faulted
          ])
      go (returned r l2) post = elim post.served [
        | inl s ↦
            rw (ne_null r.0 s.nonnull)
              (framed n l1 m post.kept s post.valid (post.kept.1 ∙ es) (post.kept.2 ∙ ep))
        | inr (er, et) ↦
            rw (ap (λ (q : Allotted). q.0 == null) er, popped l2 post et)
              (subst (λ b. Settles b (FramePost f l sz want) (no_memory (restored l2)))
                (post.kept.2 ∙ ep)
                (no_memory-FramePost f l v sz want (restored l2) refl (sym v.accounted)
                  (pop_frame_restores f l2 l.top l.below post.valid (post.kept.0 ∙ m.below)).1
                  (refl, post.kept.1 ∙ es, post.kept.2 ∙ ep)))
      ]
      go panicked h = h
      go faulted h = h

  push_frame_slow-FramePost :
      (sz : ℕ) (want : Bool)
      → sz ≤ 2 ^ 31
      → sz % 8 ≡ 0
      → Settles l.panic_on_fail (FramePost f l sz want) (push_frame_slow alloc_fn sz want l)
  unfolding push_frame_slow
  push_frame_slow-FramePost sz want small even =
      go (push_mark alloc_fn l) (push_mark_stands f l alloc_fn ok v)
    where
      go :
          (o : Outcome Ptr)
          → Settles l.panic_on_fail (MarkPost f l) o
          → Settles l.panic_on_fail (FramePost f l sz want) (elim o [
            | returned n l' ↦ if n == null then no_memory l' else fill_frame alloc_fn sz want n l'
            | panicked ↦ panicked
            | faulted ↦ faulted
          ])
      go (returned n l1) post = elim post.marked [
        | inl m ↦ rw (ne_null n m.nonnull) (
            fill_frame-FramePost sz want n l1 small even post.valid m post.opened_so.0
              post.opened_so.1)
        | inr (en, et, eb) ↦ rw (ap (λ (p : Ptr). p == null) en) (
            subst (λ b. Settles b (FramePost f l sz want) (no_memory l1)) post.opened_so.1
              (no_memory-FramePost f l v sz want l1 et
                (post.valid.accounted ∙ ap (λ (m : Mark). owned m f) et ∙ sym v.accounted)
                post.valid (eb, post.opened_so.0, post.opened_so.1)))
      ]
      go panicked h = h
      go faulted h = h

-- `MemLifoPushFrame` on a valid pool never faults, and panics only if the pool asks for it. Either
-- it comes to pushing a mark and then allocating the requested bytes, rounded up, in it; or it
-- returns `NULL`, with the marks and the blocks in use as they were. The pool stays valid.
pub push_frame_serves :
    (f : Blocks) (l : Lifo) (alloc_fn : AllocFn) (sz : ℕ) (want : Bool)
    → IsAllocator alloc_fn
    → IsValid f l
    → Settles l.panic_on_fail
        (FramePost f l (dword (round_up sz)) want)
        (push_frame alloc_fn sz want l)
unfolding push_frame
push_frame_serves f l alloc_fn sz want ok v = elim (Bool-cases (ltb max_alloc sz)) [
  | inl large ↦
      rw large
        (no_memory-FramePost f l v (dword (round_up sz)) want l refl refl v (refl, refl, refl))
  | inr small ↦
      rw small
        (elim (Bool-cases (fits l.top (add_ptr l.top.freeptr (dword (dword (round_up sz) + 56))))) [
          | inl room ↦ rw room (
              frame_here-FramePost f l v (dword (round_up sz)) want (ground arith) (omega arith)
                room)
          | inr full ↦ rw full (
              push_frame_slow-FramePost f l v alloc_fn ok (dword (round_up sz)) want (ground arith)
                (omega arith))
        ])
]
