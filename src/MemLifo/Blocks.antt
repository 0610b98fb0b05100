-- ===== src/MemLifo/Blocks.antt =====
-- The blocks that the lists of chunks of twapi/base/memlifo.c own, laid over the other blocks of
-- the heap.
use twapi.Base.{
  ℕ, ◌+◌, ◌%◌, ◌^◌, ◌≤◌, ◌<◌, ◌≡◌, refl, fun_ext, ◌≢◌, ◌⊎◌, inl, inr, Option, none, some, List, [],
  ◌∷◌, ◌++◌, arith, ◌==◌, if◌then◌else◌, Bool-cases,
}
use twapi.MemLifo.Heap.{Ptr, null, Chunk, Blocks, write, IsGranted}

-- The blocks `f` with those of a list in front.
abbrev pub overlay : List Chunk → Blocks → Blocks
overlay [] f p = f p
overlay (c ∷ cs) f p = if p == c.base then some c.end else overlay cs f p

-- A block that was added to the blocks `live`: well formed, and clear of each of them.
pub record IsAdded (live : Blocks) (c : Chunk) : Type 0 where
  pub nonnull : c.base ≢ null
  pub header : c.base + 16 ≤ c.end
  pub small : c.end < c.base + 2 ^ 32
  pub addressable : c.end < 2 ^ 64
  pub aligned : c.base % 8 ≡ 0
  pub rounded : c.end % 8 ≡ 0
  pub unused : live c.base ≡ none
  pub apart : (p e : Ptr) → live p ≡ some e → (e ≤ c.base) ⊎ (c.end ≤ p)

-- Each block of the list was added to those behind it and the blocks `f`.
abbrev pub IsOwned : List Chunk → Blocks → Type 0
IsOwned [] f = Unit
IsOwned (c ∷ cs) f = IsAdded (overlay cs f) c × IsOwned cs f

pub IsGranted-IsAdded :
    {live : Blocks} (sz : ℕ) {c : Chunk}
    → IsGranted live sz c
    → 16 ≤ sz
    → sz % 8 ≡ 0
    → IsAdded live c
IsGranted-IsAdded sz g big even = record {
  nonnull = g.nonnull;
  header = omega (arith, g.large);
  small = g.small;
  addressable = g.addressable;
  aligned = g.aligned;
  rounded = g.rounded even;
  unused = g.unused;
  apart = g.apart;
}

-- Fewer blocks.
abbrev pub Within : Blocks → Blocks → Type 0
Within f g = (p e : Ptr) → f p ≡ some e → g p ≡ some e

none_of_Within : (f g : Blocks) (p : Ptr) → Within f g → g p ≡ none → f p ≡ none
none_of_Within f g p sub h = go (f p) refl
  where
    go : (o : Option Ptr) → f p ≡ o → f p ≡ none
    go none e = e
    go (some v) e = cc (sub p v e)

overlay-Within :
    (bs : List Chunk) (f g : Blocks) → Within f g → Within (overlay bs f) (overlay bs g)
overlay-Within [] f g sub p e h = sub p e h
overlay-Within (b ∷ bs) f g sub p e h = ground (arith, overlay-Within bs f g sub p e)

pub IsAdded-Within : (f g : Blocks) (c : Chunk) → Within f g → IsAdded g c → IsAdded f c
IsAdded-Within f g c sub a = record {
  nonnull = a.nonnull;
  header = a.header;
  small = a.small;
  addressable = a.addressable;
  aligned = a.aligned;
  rounded = a.rounded;
  unused = none_of_Within f g c.base sub a.unused;
  apart = λ p e h. a.apart p e (sub p e h);
}

pub IsOwned-Within : (bs : List Chunk) (f g : Blocks) → Within f g → IsOwned bs g → IsOwned bs f
IsOwned-Within [] f g sub o = tt
IsOwned-Within (b ∷ bs) f g sub o = (
  IsAdded-Within (overlay bs f) (overlay bs g) b (overlay-Within bs f g sub) o.0,
  IsOwned-Within bs f g sub o.1,
)

pub IsOwned-drop : (xs bs : List Chunk) (f : Blocks) → IsOwned (xs ++ bs) f → IsOwned bs f
IsOwned-drop [] bs f o = o
IsOwned-drop (a ∷ xs) bs f o = IsOwned-drop xs bs f o.1

pub overlay-drop :
    (xs bs : List Chunk) (f : Blocks)
    → IsOwned (xs ++ bs) f
    → Within (overlay bs f) (overlay (xs ++ bs) f)
overlay-drop [] bs f o p e h = h
overlay-drop (a ∷ xs) bs f (added, o) p e h =
    ground (arith, overlay-drop xs bs f o p e h, added.unused)

-- A block in use is not among those laid over it.
pub overlay-under :
    (bs : List Chunk) (f : Blocks) (p e : Ptr)
    → IsOwned bs f
    → f p ≡ some e
    → overlay bs f p ≡ some e
overlay-under [] f p e o h = h
overlay-under (b ∷ bs) f p e (added, o) h = ground (arith, overlay-under bs f p e o h, added.unused)

-- A free address may be written under the blocks laid over it.
overlay-write_at :
    (bs : List Chunk) (f : Blocks) (p : Ptr) (v : Option Ptr) (q : Ptr)
    → overlay bs f p ≡ none
    → overlay bs (write f p v) q ≡ write (overlay bs f) p v q
overlay-write_at [] f p v q h = refl
overlay-write_at (b ∷ bs) f p v q h = ground (arith, overlay-write_at bs f p v q)

pub overlay-write :
    (bs : List Chunk) (f : Blocks) (p : Ptr) (v : Option Ptr)
    → overlay bs f p ≡ none
    → overlay bs (write f p v) ≡ write (overlay bs f) p v
overlay-write bs f p v h = fun_ext λ q. overlay-write_at bs f p v q h

overlay-release_at :
    (bs : List Chunk) (f : Blocks) (p e q : Ptr)
    → IsOwned bs f
    → f p ≡ some e
    → write (overlay bs f) p none q ≡ overlay bs (write f p none) q
overlay-release_at [] f p e q o h = refl
overlay-release_at (b ∷ bs) f p e q (added, o) h =
    ground (arith, overlay-release_at bs f p e q o h, overlay-under bs f p e o h, added.unused)

pub overlay-release :
    (bs : List Chunk) (f : Blocks) (p e : Ptr)
    → IsOwned bs f
    → f p ≡ some e
    → write (overlay bs f) p none ≡ overlay bs (write f p none)
overlay-release bs f p e o h = fun_ext λ q. overlay-release_at bs f p e q o h

-- Giving back the block added last.
pub write-added :
    (f : Blocks) (c : Chunk) → f c.base ≡ none → write (write f c.base (some c.end)) c.base none ≡ f
write-added f c h = fun_ext λ q. ground arith

-- Two added blocks are clear of each other, whichever came first.
IsAdded-swap :
    (f : Blocks) (b c : Chunk)
    → IsAdded f b
    → IsAdded (write f b.base (some b.end)) c
    → IsAdded (write f c.base (some c.end)) b
IsAdded-swap f b c ab ac = record {
  nonnull = ab.nonnull;
  header = ab.header;
  small = ab.small;
  addressable = ab.addressable;
  aligned = ab.aligned;
  rounded = ab.rounded;
  unused = ground (arith, ac.unused, ab.unused);
  apart = λ p e h. elim (Bool-cases (p == c.base)) [
    | inl hit ↦ ground (arith, ac.apart b.base b.end)
    | inr miss ↦ ab.apart p e (rw miss at h)
  ];
}

pub IsOwned-write :
    (bs : List Chunk) (f : Blocks) (c : Chunk)
    → IsOwned bs f
    → IsAdded (overlay bs f) c
    → IsOwned bs (write f c.base (some c.end))
IsOwned-write [] f c o a = tt
IsOwned-write (b ∷ bs) f c (added, o) a =
    let below =
      IsAdded-Within (overlay bs f) (overlay (b ∷ bs) f) c (overlay-drop (b ∷ []) bs f (added, o))
        a in
    (
      rw (overlay-write bs f c.base (some c.end) below.unused)
          (IsAdded-swap (overlay bs f) b c added a),
      IsOwned-write bs f c o below,
    )
