-- ===== src/MemLifo/Enter.antt =====
-- A block that the allocator of twapi/base/memlifo.c grants becomes one of the pool's.
use twapi.Base.{
  ℕ, ◌+◌, ◌%◌, ◌^◌, ◌≤◌, ◌<◌, ◌≡◌, refl, sym, ◌∙◌, ◌≢◌, ◌⊎◌, inl, inr, false, some, List, [], ◌∷◌,
  ◌++◌, arith, ◌==◌,
}
use mathlib.Core.List.{append_assoc}
use twapi.MemLifo.Word.{add_ptr, align_ptr}
use twapi.MemLifo.Heap.{null, Chunk, Blocks, write, IsGranted}
use twapi.MemLifo.State.{Mark, chunks, Lifo, head_ptr}
use twapi.MemLifo.Last.{is_big_block}
use twapi.MemLifo.Blocks.{
  overlay, IsAdded, IsOwned, IsGranted-IsAdded, IsAdded-Within, IsOwned-write, overlay-write,
  overlay-under,
}
use twapi.MemLifo.Invariant.{IsStacked, owned, IsValid}

pub align_ptr_lem : (p n : ℕ) → p % 8 ≡ 0 → n % 8 ≡ 0 → p + n < 2 ^ 64 → align_ptr p n ≡ p + n
align_ptr_lem p n hp hn small = omega arith

pub add_ptr_lem : (p n : ℕ) → p + n < 2 ^ 64 → add_ptr p n ≡ p + n
add_ptr_lem p n small = omega arith

module _ (f : Blocks) (l : Lifo) (v : IsValid f l) where
  open v use {own_chunks, own_bigs, accounted}

  pub IsAdded-granted :
      (sz : ℕ) (c : Chunk)
      → IsGranted l.heap.live sz c
      → 16 ≤ sz
      → sz % 8 ≡ 0
      → IsAdded (owned l.top f) c
  IsAdded-granted sz c g big even = IsGranted-IsAdded sz (rw accounted at g) big even

  module _ (c : Chunk) (a : IsAdded (owned l.top f) c) where
    pub IsAdded-to_chunks : IsAdded (overlay (chunks l.top) f) c
    IsAdded-to_chunks =
        IsAdded-Within (overlay (chunks l.top) f) (owned l.top f) c
          (λ p e h. overlay-under l.top.big_blocks (overlay (chunks l.top) f) p e own_bigs h) a

    pub own_chunks-cons : IsOwned (c ∷ chunks l.top) f
    own_chunks-cons = (IsAdded-to_chunks, own_chunks)

    pub own_bigs-write : IsOwned l.top.big_blocks (overlay (c ∷ chunks l.top) f)
    own_bigs-write = IsOwned-write l.top.big_blocks (overlay (chunks l.top) f) c own_bigs a

    pub accounted-chunk :
        write l.heap.live c.base (some c.end)
        ≡ overlay l.top.big_blocks (overlay (c ∷ chunks l.top) f)
    accounted-chunk = rw accounted (
        sym
          (overlay-write l.top.big_blocks (overlay (chunks l.top) f) c.base (some c.end) a.unused))

    pub accounted-big :
        write l.heap.live c.base (some c.end)
        ≡ overlay (c ∷ l.top.big_blocks) (overlay (chunks l.top) f)
    accounted-big = rw accounted refl

-- What lies in the chunk of a mark is not its newest big block.
pub not_big_in_chunk :
    (f : Blocks) (m : Mark)
    → IsOwned (chunks m) f
    → IsOwned m.big_blocks (overlay (chunks m) f)
    → m.chunk.base + 16 ≤ m.last_alloc
    → m.last_alloc ≤ m.chunk.end
    → is_big_block m ≡ false
unfolding is_big_block
not_big_in_chunk f m oc ob low high = go m.big_blocks ob
  where
    go :
        (bs : List Chunk)
        → IsOwned bs (overlay (chunks m) f)
        → (m.last_alloc == add_ptr (head_ptr bs) 16) ≡ false
    go [] o = ground (arith, oc.0.nonnull)
    go (b ∷ bs) (added, o) =
        let under =
          overlay-under bs (overlay (chunks m) f) m.chunk.base m.chunk.end o (ground arith) in
        ground (arith, added.apart m.chunk.base m.chunk.end under, added.header, added.addressable)

-- Nor is nothing at all.
pub not_big_null :
    (f : Blocks) (m : Mark) → IsOwned m.big_blocks f → m.last_alloc ≡ null → is_big_block m ≡ false
unfolding is_big_block
not_big_null f m ob e = rw e (go m.big_blocks ob)
  where
    go : (bs : List Chunk) → IsOwned bs f → (null == add_ptr (head_ptr bs) 16) ≡ false
    go [] o = refl
    go (b ∷ bs) (added, o) = ground (arith, added.header, added.addressable)

append-ne-nil_left : (xs ys : List Chunk) → xs ≢ [] → xs ++ ys ≢ []
append-ne-nil_left [] ys h e = h refl
append-ne-nil_left (x ∷ xs) ys h e = cc

append-ne-nil_right : (xs ys : List Chunk) → ys ≢ [] → xs ++ ys ≢ []
append-ne-nil_right [] ys h e = h e
append-ne-nil_right (x ∷ xs) ys h e = cc

-- The marks below stay in order when the topmost one gains blocks, if the last allocation is not
-- a shared big block.
pub IsStacked-grow :
    (m m' : Mark) (ms : List Mark) (xs ys : List Chunk)
    → IsStacked m ms
    → m'.big_blocks ≡ xs ++ m.big_blocks
    → chunks m' ≡ ys ++ chunks m
    → (is_big_block m' ≡ false) ⊎ ((xs ≢ []) ⊎ (is_big_block m' ≡ is_big_block m))
    → IsStacked m' ms
IsStacked-grow m m' [] xs ys s eb ec u = tt
IsStacked-grow m m' (n ∷ ms) xs ys (e, p, s) eb ec u = (
  record {
    new_big = xs ++ e.new_big;
    new_chunks = ys ++ e.new_chunks;
    bigs = rw (eb, e.bigs) (sym (append_assoc xs e.new_big n.big_blocks));
    chunk_list = rw (ec, e.chunk_list) (sym (append_assoc ys e.new_chunks (chunks n)));
    unshared = λ h. elim u [
      | inl small ↦ cc
      | inr (inl own) ↦ append-ne-nil_left xs e.new_big own
      | inr (inr same) ↦ append-ne-nil_right xs e.new_big (e.unshared (sym same ∙ h))
    ];
  },
  p,
  s,
)
