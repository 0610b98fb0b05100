-- ===== src/MemLifo/Marks.antt =====
-- `MemLifoPushMark`, `MemLifoPopMark` and `MemLifoPushFrame` of twapi/base/memlifo.c, and the
-- macro `MemLifoPopFrame` of twapi/include/memlifo.h.
use twapi.Base.{
  ℕ, ◌+◌, Bool, ◌||◌, not, Option, none, some, List, [], ◌∷◌, ltb, ◌==◌, if◌then◌else◌,
}
use twapi.MemLifo.Word.{
  round_up, add_ptr, align_ptr, dword, ptr_diff32, max_alloc, chunk_header, mark_size,
}
use twapi.MemLifo.Heap.{Ptr, null, Chunk, Heap, AllocFn, claim, tick, release}
use twapi.MemLifo.State.{Mark, chunks, Lifo, Outcome, returned, panicked, faulted, head_ptr}
use twapi.MemLifo.Alloc.{Allotted, fits, fail, no_memory, alloc}

-- The new mark stands in the space that it takes from the current chunk.
unfoldable pub mark_here : Ptr → Lifo → Outcome Ptr
mark_here p l =
    let m = l.top in
    returned m.freeptr (record l {
      top = record m { addr = m.freeptr; last_alloc = null; freeptr = p };
      below = m ∷ l.below;
    })

-- The new mark heads a chunk of its own. The previous mark keeps its list of chunks.
unfoldable pub mark_in_chunk : Chunk → Lifo → Outcome Ptr
mark_in_chunk c l =
    let m = l.top in
    let n = align_ptr c.base chunk_header in
    returned n (record l {
      top = record {
        addr = n;
        last_alloc = null;
        big_blocks = m.big_blocks;
        chunk = c;
        older_chunks = chunks m;
        freeptr = align_ptr n mark_size;
      };
      below = m ∷ l.below;
      heap = claim l.heap c;
    })

-- `while (c1 != end)`: frees the blocks of a list up to the one at `end`. `none` is a walk past
-- the list's end, or a block that is not in use.
unfoldable pub free_until : Ptr → List Chunk → Heap → Option Heap
free_until end [] h = if null == end then some h else none
free_until end (c ∷ cs) h =
    let rest = free_until end cs (release h c.base) in
    if c.base == end then some h else elim (h.live c.base) [ none ↦ none | some _ ↦ rest ]

-- Frees what the mark `m` holds beyond the mark `n`.
unfoldable pub free_between : Mark → Mark → Heap → Option Heap
unfolding free_until
free_between m n h =
    if not (head_ptr m.big_blocks == head_ptr n.big_blocks) || not (m.chunk.base == n.chunk.base)
    then elim (free_until (head_ptr n.big_blocks) m.big_blocks h) [
      | none ↦ none
      | some h' ↦ free_until n.chunk.base (chunks m) h'
    ]
    else some h

-- The mark at an address and the marks under it, from `lm_prev` on.
unfoldable pub find_mark : Ptr → Mark → List Mark → Option (Mark × List Mark)
find_mark p m [] = if m.addr == p then some (m, []) else none
find_mark p m (n ∷ ms) = if m.addr == p then some (m, n ∷ ms) else find_mark p n ms

-- The bottom mark's `lm_prev` is itself, so that popping it frees nothing.
unfoldable pub pop_to : Mark → List Mark → Lifo → Outcome (Unit {0})
unfolding free_between
pop_to m [] l = elim (free_between m m l.heap) [
  | none ↦ faulted
  | some h ↦ returned tt (record l { top = m; below = []; heap = h })
]
pop_to m (n ∷ ms) l = elim (free_between m n l.heap) [
  | none ↦ faulted
  | some h ↦ returned tt (record l { top = n; below = ms; heap = h })
]

unfoldable pub pop_mark : Ptr → Lifo → Outcome (Unit {0})
unfolding find_mark pop_to
pop_mark p l = elim (find_mark p l.top l.below) [ none ↦ faulted | some (m, ms) ↦ pop_to m ms l ]

unfoldable pub pop_frame : Lifo → Outcome (Unit {0})
unfolding pop_mark
pop_frame l = pop_mark l.top.addr l

-- The mark and the memory behind it, both from the current chunk.
unfoldable pub frame_here : ℕ → Bool → Ptr → Lifo → Outcome Allotted
frame_here sz want p l =
    let m = l.top in
    let last = align_ptr m.freeptr mark_size in
    returned (last, if want then some (ptr_diff32 m.chunk.end last) else none)
      (record l {
        top = record m {
          addr = m.freeptr;
          last_alloc = last;
          freeptr = if want then m.chunk.end else p;
        };
        below = m ∷ l.below;
      })

module _ (alloc_fn : AllocFn) where
  unfoldable pub push_mark : Lifo → Outcome Ptr
  unfolding fits fail mark_here mark_in_chunk
  push_mark l =
      let p = add_ptr l.top.freeptr mark_size in
      if fits l.top p
      then mark_here p l
      else elim (alloc_fn l.heap.clock l.heap.live l.chunk_size) [
        | none ↦ fail l.panic_on_fail panicked (returned null (record l { heap = tick l.heap }))
        | some c ↦ mark_in_chunk c l
      ]

  -- What `MemLifoPushFrame` does once its mark is pushed: allocate, or pop the mark again.
  unfoldable pub fill_frame : ℕ → Bool → Ptr → Lifo → Outcome Allotted
  fill_frame sz want n l = elim (alloc alloc_fn sz want l) [
    | returned (p, actual) l' ↦
        if p == null
        then elim (pop_mark n l') [
          | returned _ l'' ↦ no_memory l''
          | panicked ↦ panicked
          | faulted ↦ faulted
        ]
        else returned (p, actual) l'
    | panicked ↦ panicked
    | faulted ↦ faulted
  ]

  unfoldable pub push_frame_slow : ℕ → Bool → Lifo → Outcome Allotted
  push_frame_slow sz want l = elim (push_mark l) [
    | returned n l' ↦ if n == null then no_memory l' else fill_frame sz want n l'
    | panicked ↦ panicked
    | faulted ↦ faulted
  ]

  unfoldable pub push_frame : ℕ → Bool → Lifo → Outcome Allotted
  push_frame sz want l =
      if ltb max_alloc sz
      then no_memory l
      else let sz' = dword (round_up sz) in
        let p = add_ptr l.top.freeptr (dword (sz' + mark_size)) in
        if fits l.top p then frame_here sz' want p l else push_frame_slow sz' want l
