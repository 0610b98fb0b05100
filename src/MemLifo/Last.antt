-- ===== src/MemLifo/Last.antt =====
-- `MemLifoExpandLast`, `MemLifoShrinkLast` and `MemLifoResizeLast` of twapi/base/memlifo.c. The
-- bytes that a block holds are not modelled, so that `CopyMemory` has no counterpart.
use twapi.Base.{
  ℕ, ◌+◌, ◌-◌, ◌^◌, Bool, ◌&&◌, not, none, some, [], ◌∷◌, ltb, leb, ◌==◌, if◌then◌else◌,
}
use twapi.MemLifo.Word.{
  round_up, round_down, add_ptr, sub_ptr, dword, ptr_diff32, int_ge, max_alloc, chunk_header,
}
use twapi.MemLifo.Heap.{Ptr, null, AllocFn, claim, tick, release}
use twapi.MemLifo.State.{Mark, Lifo, Outcome, returned, panicked, faulted, head_ptr}
use twapi.MemLifo.Alloc.{Allotted, alloc}

-- The pointer that `MemLifoAlloc` returned.
unfoldable pub pointer : Outcome Allotted → Outcome Ptr
pointer (returned (p, _) l) = returned p l
pointer panicked = panicked
pointer faulted = faulted

unfoldable pub is_big_block : Mark → Bool
is_big_block m = m.last_alloc == add_ptr (head_ptr m.big_blocks) chunk_header

-- The size of the last allocation of a mark. A big block is measured by its chunk, less the header.
unfoldable pub last_size : Mark → ℕ
unfolding is_big_block
last_size m = elim m.big_blocks [
  | [] ↦ ptr_diff32 m.freeptr m.last_alloc
  | b ∷ _ ↦
      if is_big_block m
      then dword (ptr_diff32 b.end b.base + 2 ^ 32 - chunk_header)
      else ptr_diff32 m.freeptr m.last_alloc
]

unfoldable pub set_freeptr : Ptr → Lifo → Lifo
set_freeptr p l = record l { top = record l.top { freeptr = p } }

module _ (alloc_fn : AllocFn) where
  -- A new big block takes the place of the last one, which is freed.
  unfoldable pub replace_big_block : ℕ → Lifo → Outcome Ptr
  replace_big_block sz l = elim l.top.big_blocks [
    | [] ↦ faulted
    | b ∷ bs ↦ elim (alloc_fn l.heap.clock l.heap.live (dword (sz + chunk_header))) [
      | none ↦ returned null (record l { heap = tick l.heap })
      | some c ↦ returned (add_ptr c.base chunk_header) (record l {
        top = record l.top { last_alloc = add_ptr c.base chunk_header; big_blocks = c ∷ bs };
        heap = release (claim l.heap c) b.base;
      })
    ]
  ]

  -- The last allocation moves to a place `incr` bytes larger.
  unfoldable pub move_last : ℕ → Lifo → Outcome Ptr
  move_last incr l =
      let sz = dword (last_size l.top + incr) in
      if ltb max_alloc sz
      then returned null l
      else if is_big_block l.top
      then replace_big_block sz l
      else pointer (alloc alloc_fn sz Bool.false l)

  unfoldable pub expand_last : ℕ → Bool → Lifo → Outcome Ptr
  expand_last incr fix l =
      let m = l.top in
      let incr' = dword (round_up incr) in
      if m.last_alloc == null
      then pointer (alloc alloc_fn incr Bool.false l)
      else if not (is_big_block m) && int_ge (ptr_diff32 m.chunk.end m.freeptr) incr'
      then returned m.last_alloc (set_freeptr (add_ptr m.freeptr incr') l)
      else if fix
      then returned null l
      else move_last incr' l

unfoldable pub shrink_last : ℕ → Lifo → Outcome Ptr
shrink_last decr l =
    let m = l.top in
    if m.last_alloc == null
    then returned null l
    else if not (is_big_block m) && leb (round_down decr) (last_size m)
    then returned m.last_alloc (set_freeptr (sub_ptr m.freeptr (round_down decr)) l)
    else returned m.last_alloc l

module _ (alloc_fn : AllocFn) where
  unfoldable pub resize_last : ℕ → Bool → Lifo → Outcome Ptr
  resize_last new_sz fix l =
      let m = l.top in
      let sz = dword (round_up new_sz) in
      let old_sz = last_size m in
      if m.last_alloc == null
      then returned null l
      else if not (is_big_block m) && leb sz old_sz
      then returned m.last_alloc (set_freeptr (sub_ptr m.freeptr (old_sz - sz)) l)
      else if leb sz old_sz
      then shrink_last (old_sz - sz) l
      else expand_last alloc_fn (sz - old_sz) fix l
