-- ===== src/MemLifo/Check.antt =====
-- `MemLifoValidate` of twapi/base/memlifo.c. The magic number, the heap's own check, the null
-- tests of the two mark pointers and `lm_lifo` concern parts that the model leaves out.
use twapi.Base.{◌&&◌, ◌||◌, not, List, [], ◌∷◌, ltb, leb, ◌==◌, if◌then◌else◌}
use twapi.MemLifo.Word.{add_ptr, chunk_header}
use twapi.MemLifo.Heap.{null}
use twapi.MemLifo.State.{Mark, Lifo, head_ptr}

-- What the call returns: 0 is `fine`, the others are the negative codes.
pub data Verdict : Type 0 where
  fine alloc_below_chunk alloc_nowhere free_beyond_chunk : Verdict

-- The tests of one mark: -8, -9 and -10.
unfoldable pub check_mark : Mark → Verdict
check_mark m =
    if not (m.last_alloc == null) && ltb m.last_alloc m.chunk.base
    then alloc_below_chunk
    else if not (m.last_alloc == null)
        && (leb m.chunk.end m.last_alloc
            && (head_ptr m.big_blocks == null
                || not (m.last_alloc == add_ptr (head_ptr m.big_blocks) chunk_header)))
    then alloc_nowhere
    else if ltb m.chunk.end m.freeptr
    then free_beyond_chunk
    else fine

unfoldable pub check_marks : Mark → List Mark → Verdict
unfolding check_mark
check_marks m [] = check_mark m
check_marks m (n ∷ ms) =
    let rest = check_marks n ms in
    elim (check_mark m) [
      | fine ↦ rest
      | alloc_below_chunk ↦ alloc_below_chunk
      | alloc_nowhere ↦ alloc_nowhere
      | free_beyond_chunk ↦ free_beyond_chunk
    ]

unfoldable pub validate : Lifo → Verdict
unfolding check_marks
validate l = check_marks l.top l.below
