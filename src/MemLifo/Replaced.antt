-- ===== src/MemLifo/Replaced.antt =====
-- `MemLifoExpandLast` of twapi/base/memlifo.c for a big block: a new block in place of the last one.
use twapi.Base.{
  ℕ, ◌+◌, ◌%◌, ◌≤◌, ◌≡◌, refl, sym, ap, subst, fun_ext, ◌∙◌, ◌≢◌, ◌⊎◌, inl, inr, Bool, true, false,
  Option, none, some, List, [], ◌∷◌, ◌++◌, ◌&&◌, not, arith,
}
use twapi.MemLifo.Word.{add_ptr, dword, max_alloc}
use twapi.MemLifo.Heap.{
  Ptr, null, Chunk, Blocks, Heap, AllocFn, IsAllocator, write, claim, tick, release,
}
use twapi.MemLifo.State.{Mark, chunks, Lifo, returned, faulted}
use twapi.MemLifo.Last.{is_big_block, last_size, replace_big_block}
use twapi.MemLifo.LastSize.{last_size_big, newest-is_big_block}
use twapi.MemLifo.Blocks.{overlay, IsAdded, IsOwned, IsAdded-Within, overlay-drop}
use twapi.MemLifo.Invariant.{
  LastAlloc, nowhere, in_chunk, in_big_block, Extends, IsPlaced, IsStacked, owned, IsValid,
}
use twapi.MemLifo.Settles.{Settles}
use twapi.MemLifo.Enter.{add_ptr_lem, IsAdded-granted}
use twapi.MemLifo.Served.{Kept, tick-IsValid}
use twapi.MemLifo.ShrinkValid.{true-ne-false}

-- A big block that was allocated last is the first of its mark's list.
pub newest_big :
    (m : Mark)
    → IsPlaced m
    → m.last_alloc ≢ null
    → is_big_block m ≡ true
    → (b : Chunk) × (bs : List Chunk) × (m.big_blocks ≡ b ∷ bs)
newest_big m p ne big = go p.last
  where
    cons_of : (cs : List Chunk) → cs ≢ [] → (b : Chunk) × (bs : List Chunk) × (cs ≡ b ∷ bs)
    cons_of [] h = absurd (h refl)
    cons_of (b ∷ bs) h = (b, bs, refl)

    go : LastAlloc m → (b : Chunk) × (bs : List Chunk) × (m.big_blocks ≡ b ∷ bs)
    go (nowhere e) = absurd (ne e)
    go (in_chunk s) = absurd (true-ne-false big s.small_block)
    go (in_big_block _ some_big) = cons_of m.big_blocks some_big

-- What a call that is to leave at least `need` bytes has done: the last allocation, perhaps
-- moved, has them; or `NULL` is returned and the marks are as they were.
pub record ResizePost (f : Blocks) (l : Lifo) (need : ℕ) (fix : Bool) (p : Ptr) (l' : Lifo)
    : Type 0 where
  pub valid : IsValid f l'
  pub kept : Kept l l'
  pub resized :
      ((p ≢ null) × (l'.top.last_alloc ≡ p) × (need ≤ last_size l'.top))
      ⊎ ((p ≡ null) × (l'.top ≡ l.top))
  pub fixed : fix ≡ true → (p ≡ null) ⊎ (p ≡ l.top.last_alloc)

-- The marks below stay in order when the newest big block of the topmost mark is replaced.
IsStacked-replace :
    (m m' : Mark) (ms : List Mark) (b c : Chunk) (bs : List Chunk)
    → IsStacked m ms
    → is_big_block m ≡ true
    → m.big_blocks ≡ b ∷ bs
    → m'.big_blocks ≡ c ∷ bs
    → chunks m' ≡ chunks m
    → IsStacked m' ms
IsStacked-replace m m' [] b c bs s big e e' ec = tt
IsStacked-replace m m' (n ∷ ms) b c bs (x, p, s) big e e' ec =
    (go x.new_big (x.unshared big) (sym e ∙ x.bigs), p, s)
  where
    go : (xs : List Chunk) → xs ≢ [] → b ∷ bs ≡ xs ++ n.big_blocks → Extends m' n
    go [] h q = absurd (h refl)
    go (y ∷ ys) h q = record {
      new_big = c ∷ ys;
      new_chunks = x.new_chunks;
      bigs = e' ∙ cc;
      chunk_list = ec ∙ x.chunk_list;
      unshared = λ _ e. cc;
    }

pub and_false : (b : Bool) → (not b && false) ≡ false
and_false true = refl
and_false false = refl

module _ (f : Blocks) (l : Lifo) (v : IsValid f l) (alloc_fn : AllocFn)
    (ok : IsAllocator alloc_fn) where
  -- The pool with the block `c` in place of its newest big block `b`.
  abbrev replaced : Chunk → Chunk → List Chunk → Lifo
  replaced b c bs = record l {
    top = record l.top { last_alloc = c.base + 16; big_blocks = c ∷ bs };
    heap = release (claim l.heap c) b.base;
  }

  replaced_accounted :
      (b c : Chunk) (bs : List Chunk) (g : Blocks)
      → IsOwned (b ∷ bs) g
      → IsAdded (overlay (b ∷ bs) g) c
      → write (write (overlay (b ∷ bs) g) c.base (some c.end)) b.base none ≡ overlay (c ∷ bs) g
  replaced_accounted b c bs g o a = fun_ext λ q. ground (arith, a.unused, o.0.unused)

  replaced-IsValid :
      (b c : Chunk) (bs : List Chunk)
      → is_big_block l.top ≡ true
      → l.top.big_blocks ≡ b ∷ bs
      → IsAdded (owned l.top f) c
      → IsValid f (replaced b c bs)
  replaced-IsValid b c bs big e a =
      let g = overlay (chunks l.top) f in
      let o : IsOwned (b ∷ bs) g = subst (λ cs. IsOwned cs g) e v.own_bigs in
      let a' : IsAdded (overlay (b ∷ bs) g) c = subst (λ cs. IsAdded (overlay cs g) c) e a in
      record {
        placed = record {
          low = v.placed.low;
          high = v.placed.high;
          even = v.placed.even;
          last =
              in_big_block
                (newest-is_big_block (replaced b c bs).top c bs refl refl
                  (omega (arith, a.header, a.addressable)))
                (λ q. cc);
        };
        stacked =
            IsStacked-replace l.top (replaced b c bs).top l.below b c bs v.stacked big e refl refl;
        own_chunks = v.own_chunks;
        own_bigs = (
          IsAdded-Within (overlay bs g) (overlay (b ∷ bs) g) c (overlay-drop (b ∷ []) bs g o) a',
          o.1,
        );
        accounted =
            ap (λ (w : Blocks). write (write w c.base (some c.end)) b.base none)
              (v.accounted ∙ ap (λ (cs : List Chunk). overlay cs g) e)
            ∙ replaced_accounted b c bs g o a';
        size_low = v.size_low;
        size_high = v.size_high;
        size_even = v.size_even;
      }

  pub kept_null :
      (need : ℕ) (fix : Bool) (h : Heap)
      → IsValid f (record l { heap = h })
      → ResizePost f l need fix null (record l { heap = h })
  kept_null need fix h v' = record {
    valid = v';
    kept = (refl, refl, refl);
    resized = inr (refl, refl);
    fixed = λ _. inl refl;
  }

  replaced-ResizePost :
      (b c : Chunk) (bs : List Chunk) (sz : ℕ)
      → is_big_block l.top ≡ true
      → l.top.big_blocks ≡ b ∷ bs
      → IsAdded (owned l.top f) c
      → c.base + 16 + sz ≤ c.end
      → ResizePost f l sz false (c.base + 16) (replaced b c bs)
  replaced-ResizePost b c bs sz big e a room =
      let l' = replaced b c bs in
      let newest =
        newest-is_big_block l'.top c bs refl refl (omega (arith, a.addressable, a.header)) in
      record {
        valid = replaced-IsValid b c bs big e a;
        kept = (refl, refl, refl);
        resized = inl (
          omega arith,
          refl,
          omega (arith, last_size_big l'.top c bs newest refl a.header a.small),
        );
        fixed = λ q. cc;
      }

  pub replace_big_block-ResizePost :
      (sz : ℕ)
      → sz ≤ max_alloc
      → sz % 8 ≡ 0
      → l.top.last_alloc ≢ null
      → is_big_block l.top ≡ true
      → Settles false (ResizePost f l sz false) (replace_big_block alloc_fn sz l)
  unfolding replace_big_block
  replace_big_block-ResizePost sz small even ne big = go l.top.big_blocks refl
    where
      grant :
          (b : Chunk) (bs : List Chunk) (o : Option Chunk)
          → l.top.big_blocks ≡ b ∷ bs
          → alloc_fn l.heap.clock l.heap.live (dword (sz + 16)) ≡ o
          → Settles false (ResizePost f l sz false) (elim o [
            | none ↦ returned null (record l { heap = tick l.heap })
            | some c ↦ returned (add_ptr c.base 16) (record l {
              top = record l.top { last_alloc = add_ptr c.base 16; big_blocks = c ∷ bs };
              heap = release (claim l.heap c) b.base;
            })
          ])
      grant b bs none e q = kept_null sz false (tick l.heap) (tick-IsValid f l v)
      grant b bs (some c) e q =
          let g = ok.grants l.heap.clock l.heap.live (dword (sz + 16)) c q in
          let a = IsAdded-granted f l v (dword (sz + 16)) c g (omega arith) (omega arith) in
          rw (add_ptr_lem c.base 16 (omega (arith, a.addressable, a.header)))
            (replaced-ResizePost b c bs sz big e a (omega (arith, g.large)))

      go :
          (cs : List Chunk)
          → l.top.big_blocks ≡ cs
          → Settles false (ResizePost f l sz false) (elim cs [
            | [] ↦ faulted
            | b ∷ bs ↦ elim (alloc_fn l.heap.clock l.heap.live (dword (sz + 16))) [
              | none ↦ returned null (record l { heap = tick l.heap })
              | some c ↦ returned (add_ptr c.base 16) (record l {
                top = record l.top { last_alloc = add_ptr c.base 16; big_blocks = c ∷ bs };
                heap = release (claim l.heap c) b.base;
              })
            ]
          ])
      go [] e = let (b, bs, e') = newest_big l.top v.placed ne big in cc
      go (b ∷ bs) e = grant b bs (alloc_fn l.heap.clock l.heap.live (dword (sz + 16))) e refl
