-- ===== src/MemLifo/Alloc.antt =====
-- `MemLifoAlloc` of twapi/base/memlifo.c, one function for each of its three ways to serve a
-- request. `want` says that `actual_szP` is not `NULL`; what is written there is the second result.
use twapi.Base.{ℕ, ◌+◌, ◌/◌, Bool, ◌&&◌, Option, none, some, ◌∷◌, ltb, leb, if◌then◌else◌}
use twapi.MemLifo.Word.{
  round_up, add_ptr, align_ptr, dword, ptr_diff32, int_lt, int_div8, max_alloc, chunk_header,
}
use twapi.MemLifo.Heap.{Ptr, null, Chunk, AllocFn, claim, tick}
use twapi.MemLifo.State.{Mark, chunks, Lifo, Outcome, returned, panicked}

abbrev pub Allotted : Type 0
Allotted = Ptr × Option ℕ

-- The new end of the used space is in the current chunk, and did not wrap around.
unfoldable pub fits : Mark → Ptr → Bool
fits m p = ltb m.chunk.base p && leb p m.chunk.end

-- `NULL`, or a panic if the pool was opened so.
unfoldable pub fail {ℓ} : {A : Type ℓ} → Bool → A → A → A
fail panic panics quiet = if panic then panics else quiet

unfoldable pub no_memory : Lifo → Outcome Allotted
unfolding fail
no_memory l = fail l.panic_on_fail panicked (returned (null, none) l)

unfoldable pub take_space : Bool → Ptr → Lifo → Outcome Allotted
take_space want p l =
    let m = l.top in
    if want
    then returned (m.freeptr, some (ptr_diff32 m.chunk.end m.freeptr))
        (record l { top = record m { last_alloc = m.freeptr; freeptr = m.chunk.end } })
    else returned (m.freeptr, none)
        (record l { top = record m { last_alloc = m.freeptr; freeptr = p } })

-- Less than an eighth of the chunk size is left in the current chunk.
unfoldable pub is_little : Lifo → Bool
is_little l = int_lt (ptr_diff32 l.top.chunk.end l.top.freeptr) (int_div8 l.chunk_size)

unfoldable pub chunk_request : ℕ → Lifo → ℕ
chunk_request sz l =
    dword (
      (if ltb (l.chunk_size / 2) sz then dword (sz + l.chunk_size) else l.chunk_size)
      + chunk_header)

unfoldable pub enter_chunk : ℕ → Bool → Chunk → Lifo → Outcome Allotted
enter_chunk sz want c l =
    let m = l.top in
    let last = align_ptr c.base chunk_header in
    let free = align_ptr last sz in
    returned (last, if want then some (ptr_diff32 free last) else none)
      (record l {
        top = record m { last_alloc = last; chunk = c; older_chunks = chunks m; freeptr = free };
        heap = claim l.heap c;
      })

unfoldable pub enter_big_block : Bool → Chunk → Lifo → Outcome Allotted
enter_big_block want c l =
    let m = l.top in
    let last = align_ptr c.base chunk_header in
    returned (last, if want then some (ptr_diff32 c.end last) else none)
      (record l {
        top = record m { last_alloc = last; big_blocks = c ∷ m.big_blocks };
        heap = claim l.heap c;
      })

module _ (alloc_fn : AllocFn) where
  unfoldable pub grow : ℕ → Bool → Lifo → Outcome Allotted
  unfolding chunk_request enter_chunk no_memory
  grow sz want l = elim (alloc_fn l.heap.clock l.heap.live (chunk_request sz l)) [
    | none ↦ no_memory (record l { heap = tick l.heap })
    | some c ↦ enter_chunk sz want c l
  ]

  unfoldable pub add_big_block : ℕ → Bool → Lifo → Outcome Allotted
  unfolding enter_big_block no_memory
  add_big_block sz want l = elim (alloc_fn l.heap.clock l.heap.live (dword (sz + chunk_header))) [
    | none ↦ no_memory (record l { heap = tick l.heap })
    | some c ↦ enter_big_block want c l
  ]

  unfoldable pub alloc_rounded : ℕ → Bool → Lifo → Outcome Allotted
  unfolding fits take_space is_little grow add_big_block
  alloc_rounded sz want l =
      let p = add_ptr l.top.freeptr sz in
      if fits l.top p
      then take_space want p l
      else if is_little l
      then grow sz want l
      else add_big_block sz want l

  unfoldable pub alloc : ℕ → Bool → Lifo → Outcome Allotted
  unfolding alloc_rounded no_memory
  alloc sz want l =
      if ltb max_alloc sz then no_memory l else alloc_rounded (dword (round_up sz)) want l
