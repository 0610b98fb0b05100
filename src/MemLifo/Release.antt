-- ===== src/MemLifo/Release.antt =====
-- The loops of `MemLifoPopMark` of twapi/base/memlifo.c free the blocks in front of a list, and
-- end at its address.
use twapi.Base.{◌≡◌, refl, ap, ◌∙◌, false, none, some, List, [], ◌∷◌, ◌++◌, arith, ◌==◌}
use twapi.MemLifo.Heap.{Chunk, Blocks, Heap, write, release}
use twapi.MemLifo.State.{head_ptr}
use twapi.MemLifo.Marks.{free_until}
use twapi.MemLifo.Blocks.{
  overlay, IsOwned, overlay-drop, overlay-under, overlay-release, write-added, IsOwned-Within,
}

-- An added block is not the one that the list behind it begins with.
pub base-ne-head_ptr :
    (f : Blocks) (c : Chunk) (xs ys : List Chunk)
    → IsOwned (c ∷ (xs ++ ys)) f
    → (c.base == head_ptr ys) ≡ false
base-ne-head_ptr f c xs [] (a, o) = ground (arith, a.nonnull)
base-ne-head_ptr f c xs (y ∷ ys) (a, o) =
    let found : overlay (xs ++ (y ∷ ys)) f y.base ≡ some y.end =
      overlay-drop xs (y ∷ ys) f o y.base y.end (ground arith) in
    ground (arith, a.unused, found)

free_until-stop : (ys : List Chunk) (h : Heap) → free_until (head_ptr ys) ys h ≡ some h
unfolding free_until
free_until-stop [] h = refl
free_until-stop (y ∷ ys) h = ground arith

-- Under the blocks `bs`, the loop frees the front `xs` of the list `xs ++ ys`.
pub free_until-append :
    (bs xs ys : List Chunk) (f : Blocks) (h : Heap)
    → IsOwned (xs ++ ys) f
    → IsOwned bs (overlay (xs ++ ys) f)
    → h.live ≡ overlay bs (overlay (xs ++ ys) f)
    → free_until (head_ptr ys) (xs ++ ys) h
      ≡ some (record { live = overlay bs (overlay ys f); clock = h.clock })
unfolding free_until
free_until-append bs [] ys f h o ob e =
    free_until-stop ys h ∙ ap (λ (g : Blocks). some (record { live = g; clock = h.clock })) e
free_until-append bs (x ∷ xs) ys f h (a, o) ob e =
    let under = overlay (xs ++ ys) f in
    let found : overlay bs (overlay (x ∷ (xs ++ ys)) f) x.base ≡ some x.end =
      overlay-under bs (overlay (x ∷ (xs ++ ys)) f) x.base x.end ob (ground arith) in
    let freed : write h.live x.base none ≡ overlay bs under = rw e (
      overlay-release bs (overlay (x ∷ (xs ++ ys)) f) x.base x.end ob (ground arith)
      ∙ ap (overlay bs) (write-added under x a.unused)) in
    let below =
      IsOwned-Within bs under (overlay (x ∷ (xs ++ ys)) f)
        (overlay-drop (x ∷ []) (xs ++ ys) f (a, o)) ob in
    let rest = free_until-append bs xs ys f (release h x.base) o below freed in
    rw (base-ne-head_ptr f x xs ys (a, o), e, found) rest
