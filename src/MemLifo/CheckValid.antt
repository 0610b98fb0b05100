-- ===== src/MemLifo/CheckValid.antt =====
-- What `MemLifoValidate` of twapi/base/memlifo.c says of a valid pool.
use twapi.Base.{◌+◌, ◌≤◌, ◌<◌, ◌≡◌, refl, ap, subst, ◌≢◌, true, false, List, [], ◌∷◌, arith}
use twapi.MemLifo.Heap.{null, Chunk, Blocks, Heap}
use twapi.MemLifo.State.{Mark, chunks, Lifo, head_ptr}
use twapi.MemLifo.Last.{is_big_block}
use twapi.MemLifo.Check.{fine, alloc_below_chunk, check_mark, check_marks, validate}
use twapi.MemLifo.Blocks.{overlay, IsOwned}
use twapi.MemLifo.Invariant.{
  LastAlloc, nowhere, in_chunk, in_big_block, IsPlaced, IsStacked, owned, IsValid,
}
use twapi.MemLifo.PopRestores.{own_chunks-below, own_bigs-below}

-- The last allocation is in the current chunk, but not at its very end, or it is a big block that
-- lies above the chunk's base; or there is none.
pub data IsPlain (m : Mark) : Type 0 where
  none_yet : m.last_alloc ≡ null → IsPlain m
  before_end : is_big_block m ≡ false → m.last_alloc < m.chunk.end → IsPlain m
  high_block : is_big_block m ≡ true → m.chunk.base ≤ m.last_alloc → IsPlain m

unfoldable pub AllPlain : Mark → List Mark → Type 0
AllPlain m [] = IsPlain m
AllPlain m (n ∷ ms) = IsPlain m × AllPlain n ms

head_ptr-ne-null : (bs : List Chunk) (f : Blocks) → bs ≢ [] → IsOwned bs f → head_ptr bs ≢ null
head_ptr-ne-null [] f ne o = λ _. ne refl
head_ptr-ne-null (b ∷ bs) f ne o = o.0.nonnull

big_block-fine :
    (f : Blocks) (m : Mark)
    → IsPlaced m
    → IsOwned m.big_blocks f
    → is_big_block m ≡ true
    → m.chunk.base ≤ m.last_alloc
    → m.big_blocks ≢ []
    → check_mark m ≡ fine
unfolding check_mark is_big_block
big_block-fine f m p o big low some_big =
    ground (arith, head_ptr-ne-null m.big_blocks f some_big o, p.high)

check_mark-fine :
    (f : Blocks) (m : Mark) → IsPlaced m → IsOwned m.big_blocks f → IsPlain m → check_mark m ≡ fine
unfolding check_mark
check_mark-fine f m p o (none_yet e) = rw e (ground (arith, p.high))
check_mark-fine f m p o (before_end small low) = go p.last
  where
    go : LastAlloc m → check_mark m ≡ fine
    go (nowhere e) = rw e (ground (arith, p.high))
    go (in_chunk s) = ground (arith, s.low, p.high)
    go (in_big_block big _) = cc
check_mark-fine f m p o (high_block big low) = go p.last
  where
    go : LastAlloc m → check_mark m ≡ fine
    go (nowhere e) = rw e (ground (arith, p.high))
    go (in_chunk s) = cc (s.small_block)
    go (in_big_block _ some_big) = big_block-fine f m p o big low some_big

check_marks-fine :
    (f : Blocks) (m : Mark) (ms : List Mark)
    → IsPlaced m
    → IsStacked m ms
    → IsOwned (chunks m) f
    → IsOwned m.big_blocks (overlay (chunks m) f)
    → AllPlain m ms
    → check_marks m ms ≡ fine
unfolding check_marks AllPlain
check_marks-fine f m [] p s oc ob plain = check_mark-fine (overlay (chunks m) f) m p ob plain
check_marks-fine f m (n ∷ ms) p (e, pn, s) oc ob (plain, rest) =
    let h : Heap = record { live = owned m f; clock = 0 } in
    rw (check_mark-fine (overlay (chunks m) f) m p ob plain, check_marks)
      (check_marks-fine f n ms pn s (own_chunks-below f m n h e oc ob refl)
        (own_bigs-below f m n h e oc ob refl) rest)

-- `MemLifoValidate` returns 0 for a valid pool in which the last allocation of every mark is none,
-- or in its chunk and not at the chunk's end, or a big block that lies above the chunk's base.
pub validate_accepts :
    (f : Blocks) (l : Lifo) → IsValid f l → AllPlain l.top l.below → validate l ≡ fine
unfolding validate
validate_accepts f l v plain =
    check_marks-fine f l.top l.below v.placed v.stacked v.own_chunks v.own_bigs plain

check_marks-low :
    (m : Mark) (ms : List Mark)
    → m.last_alloc ≢ null
    → m.last_alloc < m.chunk.base
    → check_marks m ms ≡ alloc_below_chunk
unfolding check_marks check_mark
check_marks-low m [] ne low = ground arith
check_marks-low m (n ∷ ms) ne low = ground arith

-- `MemLifoValidate` returns -8 for every valid pool whose last allocation is the newest big block of
-- the topmost mark and lies at a lower address than the current chunk.
pub validate_misjudges :
    (f : Blocks) (l : Lifo) (b : Chunk) (bs : List Chunk)
    → IsValid f l
    → is_big_block l.top ≡ true
    → l.top.big_blocks ≡ b ∷ bs
    → b.base + 16 < l.top.chunk.base
    → validate l ≡ alloc_below_chunk
unfolding validate is_big_block
validate_misjudges f l b bs v big e low =
    let (a, o) = subst (λ cs. IsOwned cs (overlay (chunks l.top) f)) e v.own_bigs in
    let head : head_ptr l.top.big_blocks ≡ b.base = ap head_ptr e in
    let last : l.top.last_alloc ≡ b.base + 16 = ground (arith, a.header, a.addressable) in
    check_marks-low l.top l.below (omega arith) (omega arith)
