-- ===== src/MemLifo/PopRestores.antt =====
-- `MemLifoPopFrame` of twapi/base/memlifo.c and the mark below.
use twapi.Base.{
  ◌≡◌, refl, sym, ap, subst, ◌∙◌, inl, inr, true, some, List, [], ◌∷◌, ◌++◌, arith, ◌==◌,
  Bool-cases,
}
use twapi.MemLifo.Heap.{Ptr, Chunk, Blocks, Heap}
use twapi.MemLifo.State.{Mark, chunks, Lifo, returned, head_ptr}
use twapi.MemLifo.Marks.{free_until, free_between, pop_to, pop_mark, pop_frame}
use twapi.MemLifo.Blocks.{overlay, IsOwned, IsOwned-drop, IsOwned-Within, overlay-drop}
use twapi.MemLifo.Invariant.{Extends, IsStacked, owned, IsValid}
use twapi.MemLifo.Release.{base-ne-head_ptr, free_until-append}

-- A list that begins like its end has nothing in front of it.
nil_of_head :
    (f : Blocks) (xs ys : List Chunk)
    → IsOwned (xs ++ ys) f
    → (head_ptr (xs ++ ys) == head_ptr ys) ≡ true
    → xs ≡ []
nil_of_head f [] ys o h = refl
nil_of_head f (x ∷ xs) ys o h = cc (base-ne-head_ptr f x xs ys o)

module _ (f : Blocks) (m n : Mark) (h : Heap) (e : Extends m n) (oc : IsOwned (chunks m) f)
    (ob : IsOwned m.big_blocks (overlay (chunks m) f)) (live : h.live ≡ owned m f) where
  open e use {new_big, new_chunks, bigs, chunk_list}

  IsOwned-list : IsOwned (new_chunks ++ chunks n) f
  IsOwned-list = subst (λ cs. IsOwned cs f) chunk_list oc

  pub own_chunks-below : IsOwned (chunks n) f
  own_chunks-below = IsOwned-drop new_chunks (chunks n) f IsOwned-list

  bigs_over_all : IsOwned n.big_blocks (overlay (chunks m) f)
  bigs_over_all = IsOwned-drop new_big n.big_blocks (overlay (chunks m) f) (rw bigs at ob)

  pub own_bigs-below : IsOwned n.big_blocks (overlay (chunks n) f)
  own_bigs-below =
      IsOwned-Within n.big_blocks (overlay (chunks n) f) (overlay (new_chunks ++ chunks n) f)
        (overlay-drop new_chunks (chunks n) f IsOwned-list)
        (subst (λ cs. IsOwned n.big_blocks (overlay cs f)) chunk_list bigs_over_all)

  freed_bigs :
      free_until (head_ptr n.big_blocks) m.big_blocks h
      ≡ some (record { live = overlay n.big_blocks (overlay (chunks m) f); clock = h.clock })
  freed_bigs = rw bigs (
      free_until-append [] new_big n.big_blocks (overlay (chunks m) f) h (rw bigs at ob) tt
        (live ∙ ap (λ (bs : List Chunk). overlay bs (overlay (chunks m) f)) bigs))

  freed_chunks :
      free_until n.chunk.base
        (chunks m)
        (record { live = overlay n.big_blocks (overlay (chunks m) f); clock = h.clock })
      ≡ some (record { live = owned n f; clock = h.clock })
  freed_chunks =
      subst
        (λ cs.
          free_until n.chunk.base cs
            (record { live = overlay n.big_blocks (overlay cs f); clock = h.clock })
          ≡ some (record { live = owned n f; clock = h.clock }))
        (sym chunk_list)
        (free_until-append n.big_blocks new_chunks (chunks n) f
          (record {
            live = overlay n.big_blocks (overlay (new_chunks ++ chunks n) f);
            clock = h.clock;
          })
          IsOwned-list (subst (λ cs. IsOwned n.big_blocks (overlay cs f)) chunk_list bigs_over_all)
          refl)

  same_when_nothing_new :
      (head_ptr m.big_blocks == head_ptr n.big_blocks) ≡ true
      → (m.chunk.base == n.chunk.base) ≡ true
      → owned m f ≡ owned n f
  same_when_nothing_new eb ec =
      let no_bigs =
        nil_of_head (overlay (chunks m) f) new_big n.big_blocks (rw bigs at ob) (rw bigs at eb) in
      let no_chunks =
        nil_of_head f new_chunks (chunks n) IsOwned-list
          (subst (λ cs. (head_ptr cs == n.chunk.base) ≡ true) chunk_list ec) in
      let same_bigs = bigs ∙ ap (λ (xs : List Chunk). xs ++ n.big_blocks) no_bigs in
      let same_chunks = chunk_list ∙ ap (λ (xs : List Chunk). xs ++ chunks n) no_chunks in
      ap (λ (bs : List Chunk). overlay bs (overlay (chunks m) f)) same_bigs
      ∙ ap (λ (cs : List Chunk). overlay n.big_blocks (overlay cs f)) same_chunks

  pub free_between-owned : free_between m n h ≡ some (record { live = owned n f; clock = h.clock })
  unfolding free_between
  free_between-owned = elim (Bool-cases (head_ptr m.big_blocks == head_ptr n.big_blocks)) [
    | inl eb ↦ rw eb (elim (Bool-cases (m.chunk.base == n.chunk.base)) [
      | inl ec ↦ rw ec (
          ap (λ (g : Blocks). some (record { live = g; clock = h.clock }))
            (live ∙ same_when_nothing_new eb ec))
      | inr ec ↦ rw ec (rw freed_bigs freed_chunks)
    ])
    | inr eb ↦ rw eb (rw freed_bigs freed_chunks)
  ]

pub ==_refl : (p : Ptr) → (p == p) ≡ true
==_refl p = ground arith

pop_frame-pop_to :
    (l : Lifo) (n : Mark) (ms : List Mark)
    → l.below ≡ n ∷ ms
    → pop_frame l ≡ pop_to l.top (n ∷ ms) l
unfolding pop_frame
pop_frame-pop_to l n ms e =
    ap (λ (bs : List Mark). pop_mark l.top.addr (record l { below = bs })) e
    ∙ rw (==_refl l.top.addr, pop_mark)

pop_to_returned :
    (l : Lifo) (m n : Mark) (ms : List Mark) (h : Heap)
    → free_between m n l.heap ≡ some h
    → pop_to m (n ∷ ms) l ≡ returned tt (record l { top = n; below = ms; heap = h })
unfolding pop_to
pop_to_returned l m n ms h e = rw (e, pop_to)

-- Popping the topmost mark of a valid pool never faults. It restores the mark below, exactly as it
-- was when it was last the topmost one, with exactly the blocks in use that this mark owned beside
-- those of others, and leaves a valid pool.
pub pop_frame_restores :
    (f : Blocks) (l : Lifo) (n : Mark) (ms : List Mark)
    → IsValid f l
    → l.below ≡ n ∷ ms
    → let l' = record l {
      top = n;
      below = ms;
      heap = record { live = owned n f; clock = l.heap.clock };
    } in
      (pop_frame l ≡ returned tt l') × IsValid f l'
pop_frame_restores f l n ms v e =
    let (ext, placed, stacked) = subst (IsStacked l.top) e v.stacked in
    (
      pop_frame-pop_to l n ms e
          ∙ pop_to_returned l l.top n ms (record { live = owned n f; clock = l.heap.clock })
              (free_between-owned f l.top n l.heap ext v.own_chunks v.own_bigs v.accounted),
      record {
        placed = placed;
        stacked = stacked;
        own_chunks = own_chunks-below f l.top n l.heap ext v.own_chunks v.own_bigs v.accounted;
        own_bigs = own_bigs-below f l.top n l.heap ext v.own_chunks v.own_bigs v.accounted;
        accounted = refl;
        size_low = v.size_low;
        size_high = v.size_high;
        size_even = v.size_even;
      },
    )
