-- ===== src/MemLifo/Scan.antt =====
-- An allocator that meets the assumptions on `allocFunc` of twapi/base/memlifo.c: the n-th call
-- looks at the n-th stretch of 2^32 bytes, and gives a block there if none of those in use is near.
use twapi.Base.{
  ℕ, zero, suc, ◌+◌, ◌*◌, ◌^◌, ◌≤◌, ◌<◌, ◌≡◌, subst, ◌⊎◌, inl, inr, Bool, true, false, ◌&&◌, ◌||◌,
  Option, none, some, arith, ltb, leb, if◌then◌else◌, Bool-cases,
}
use twapi.MemLifo.Heap.{Ptr, Chunk, Blocks, AllocFn, IsGranted, IsAllocator}

abbrev is_clear : Chunk → Option Ptr → Ptr → Bool
is_clear c none p = true
is_clear c (some e) p = leb e c.base || leb c.end p

-- No block in use at an address under `bound` meets the stretch.
sweep : Chunk → Blocks → ℕ → Bool
sweep c live zero = true
sweep c live (suc bound) = sweep c live bound && is_clear c (live bound) bound

sweep-clear :
    (c : Chunk) (live : Blocks) (bound p : ℕ)
    → sweep c live bound ≡ true
    → p < bound
    → is_clear c (live p) p ≡ true
unfolding sweep
sweep-clear c live zero p swept under = absurd (omega arith)
sweep-clear c live (suc bound) p swept under = ground (arith, sweep-clear c live bound p)

abbrev is_none : Option Ptr → Bool
is_none none = true
is_none (some e) = false

abbrev pub stretch : ℕ → ℕ → Chunk
stretch n sz = record { base = 2 ^ 32 * (n + 1); end = 2 ^ 32 * (n + 1) + sz }

and_right : (a b : Bool) → (a && b) ≡ true → b ≡ true
and_right true b h = h
and_right false b h = cc

is_free : Blocks → Chunk → Bool
is_free live c = is_none (live c.base) && sweep c live (2 ^ 64)

pub scan : AllocFn
scan n live sz =
    let c = stretch n sz in
    if ltb sz (2 ^ 32) && (ltb c.end (2 ^ 64) && is_free live c) then some c else none

clear_apart :
    (c : Chunk) (o : Option Ptr) (p e : Ptr)
    → is_clear c o p ≡ true
    → o ≡ some e
    → (e ≤ c.base) ⊎ (c.end ≤ p)
clear_apart c none p e h q = cc
clear_apart c (some e') p e h q = ground arith

is_free-unused : (live : Blocks) (c : Chunk) → is_free live c ≡ true → live c.base ≡ none
unfolding is_free
is_free-unused live c h = ground arith

is_free-apart :
    (live : Blocks) (c : Chunk) (p e : Ptr)
    → is_free live c ≡ true
    → c.end < 2 ^ 64
    → live p ≡ some e
    → (e ≤ c.base) ⊎ (c.end ≤ p)
unfolding is_free
is_free-apart live c p e h small q = elim (Bool-cases (ltb p (2 ^ 64))) [
  | inl low ↦
      clear_apart c (live p) p e
        (sweep-clear c live (2 ^ 64) p (and_right (is_none (live c.base)) (sweep c live (2 ^ 64)) h)
          (ground arith))
        q
  | inr far ↦ inr (ground arith)
]

scan-IsGranted :
    (n : ℕ) (live : Blocks) (sz : ℕ)
    → sz < 2 ^ 32
    → (stretch n sz).end < 2 ^ 64
    → is_free live (stretch n sz) ≡ true
    → IsGranted live sz (stretch n sz)
scan-IsGranted n live sz small low free = record {
  nonnull = omega arith;
  large = omega arith;
  small = omega arith;
  addressable = low;
  aligned = omega arith;
  rounded = λ even. omega arith;
  unused = is_free-unused live (stretch n sz) free;
  apart = λ p e q. is_free-apart live (stretch n sz) p e free low q;
}

some-eq : (a b : Chunk) → some a ≡ some b → a ≡ b
some-eq a b h = cc

scan-grants :
    (n : ℕ) (live : Blocks) (sz : ℕ) (c : Chunk) → scan n live sz ≡ some c → IsGranted live sz c
unfolding scan
scan-grants n live sz c h = elim (Bool-cases (ltb sz (2 ^ 32))) [
  | inl small ↦ elim (Bool-cases (ltb (stretch n sz).end (2 ^ 64))) [
    | inl low ↦ elim (Bool-cases (is_free live (stretch n sz))) [
      | inl free ↦
          subst (IsGranted live sz) (some-eq (stretch n sz) c (rw (small, low, free) at h))
            (scan-IsGranted n live sz (ground arith) (ground arith) free)
      | inr taken ↦ absurd (none-ne-some (rw (small, low, taken) at h))
    ]
    | inr high ↦ absurd (none-ne-some (rw (small, high) at h))
  ]
  | inr large ↦ absurd (none-ne-some (rw large at h))
]
  where
    none-ne-some : none ≡ some c → ⊥
    none-ne-some e = cc

pub scan-IsAllocator : IsAllocator scan
scan-IsAllocator = record { grants = scan-grants }
