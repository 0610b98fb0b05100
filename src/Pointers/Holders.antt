-- ===== src/Pointers/Holders.antt =====
-- What the pointer registry of twapi/base/twapi.c promises: every pointer is free, held by one
-- owner, or held by a number of owners that share it under one tag.
use twapi.Base.{ℕ, zero, suc, ◌≤◌, ◌||◌, Option, none, some, ◌==◌, if◌then◌else◌}
use twapi.Pointers.Registry.{
  Ptr, null, Code, no_error, exists, tag_mismatch, not_found, null_pointer, is_not_counted,
  RegisteredPointer, Pointers, put, uncounted, Call, verify, register, register_counted, unregister,
}

-- `shared tag n` has `n + 1` owners.
pub data Holding : Type 0 where
  free : Holding
  sole : Ptr → Holding
  shared : Ptr → ℕ → Holding

abbrev pub may_use : Ptr → Ptr → Code
may_use tag typetag =
    if typetag == null || (tag == null || tag == typetag) then no_error else tag_mismatch

-- What is answered to a call about a pointer that is not null, and how it is held then.
abbrev pub settle : Call → Holding → Code × Holding
settle (verify _ typetag) free = (not_found, free)
settle (verify _ typetag) (sole tag) = (may_use tag typetag, sole tag)
settle (verify _ typetag) (shared tag n) = (may_use tag typetag, shared tag n)
settle (register _ typetag) free = (no_error, sole typetag)
settle (register _ typetag) (sole tag) = (exists, sole tag)
settle (register _ typetag) (shared tag n) = (exists, shared tag n)
settle (register_counted _ typetag) free = (no_error, shared typetag 0)
settle (register_counted _ typetag) (sole tag) = (is_not_counted, sole tag)
settle (register_counted _ typetag) (shared tag n) =
    if tag == typetag then (no_error, shared tag (suc n)) else (tag_mismatch, shared tag n)
settle (unregister _ typetag) free = (not_found, free)
settle (unregister _ typetag) (sole tag) =
    if tag == typetag then (no_error, free) else (tag_mismatch, sole tag)
settle (unregister _ typetag) (shared tag zero) =
    if tag == typetag then (no_error, free) else (tag_mismatch, shared tag 0)
settle (unregister _ typetag) (shared tag (suc n)) =
    if tag == typetag then (no_error, shared tag n) else (tag_mismatch, shared tag (suc n))

abbrev pub Holdings : Type 0
Holdings = Ptr → Holding

abbrev pub subject : Call → Ptr
subject (verify p _) = p
subject (register p _) = p
subject (register_counted p _) = p
subject (unregister p _) = p

unfoldable pub spec_step : Call → Holdings → Code × Holdings
spec_step c s =
    if subject c == null
    then (null_pointer, s)
    else let (code, h) = settle c (s (subject c)) in (code, put s (subject c) h)

-- The entry of the table for a pointer that is held so.
abbrev pub entry : Holding → Option RegisteredPointer
entry free = none
entry (sole t) = some (record { tag = t; nrefs = uncounted })
entry (shared t n) = some (record { tag = t; nrefs = suc n })

abbrev pub entries : Holdings → Pointers
entries s p = entry (s p)

-- No pointer has more than `m` owners, and null has none.
abbrev pub IsCounted : ℕ → Holding → Type 0
IsCounted m free = Unit
IsCounted m (sole _) = Unit
IsCounted m (shared _ n) = suc n ≤ m
