-- ===== src/Pointers/Registry.antt =====
-- The pointer registry of twapi/base/twapi.c: the hash table `pointers` of the base context, as a
-- map from addresses. `typetag` is an address too, and null for no tag.
use twapi.Base.{
  ℕ, ◌+◌, ◌-◌, ◌%◌, ◌^◌, Bool, ◌&&◌, not, Option, none, some, List, [], ◌∷◌, leb, ◌==◌,
  if◌then◌else◌,
}

abbrev pub Ptr : Type 0
Ptr = ℕ

abbrev pub null : Ptr
null = 0

-- The error codes that the calls give, `TWAPI_NO_ERROR` and `TCL_OK` being `no_error`.
pub data Code : Type 0 where
  no_error exists tag_mismatch not_found null_pointer is_not_counted : Code

-- `TwapiRegisteredPointer`; `nrefs` is given by the 32 bits of the `int`.
pub record RegisteredPointer : Type 0 where
  pub tag : Ptr
  pub nrefs : ℕ

abbrev pub Pointers : Type 0
Pointers = Ptr → Option RegisteredPointer

-- A map with one value changed.
abbrev pub put {ℓ} : {A : Type ℓ} → (Ptr → A) → Ptr → A → Ptr → A
put t p v q = if q == p then v else t q

-- `(int) x < 0`
abbrev pub is_negative : ℕ → Bool
is_negative x = leb (2 ^ 31) x

abbrev pub int_inc : ℕ → ℕ
int_inc x = (x + 1) % 2 ^ 32

abbrev pub int_dec : ℕ → ℕ
int_dec x = (x + (2 ^ 32 - 1)) % 2 ^ 32

abbrev pub uncounted : ℕ
uncounted = 2 ^ 32 - 1

-- The tags of a registered pointer that is found.
unfoldable pub check_tag : Ptr → RegisteredPointer → Code
check_tag typetag r =
    if not (typetag == null) && (not (r.tag == null) && not (r.tag == typetag))
    then tag_mismatch
    else no_error

unfoldable pub verify_pointer : Pointers → Ptr → Ptr → Code
unfolding check_tag
verify_pointer t p typetag = elim (t p) [
  | some r ↦ check_tag typetag r
  | none ↦ if p == null then null_pointer else not_found
]

unfoldable pub register_pointer : Ptr → Ptr → Pointers → Code × Pointers
register_pointer p typetag t = if p == null then (null_pointer, t) else elim (t p) [
  | none ↦ (no_error, put t p (some (record { tag = typetag; nrefs = uncounted })))
  | some _ ↦ (exists, t)
]

-- A registered pointer gets one more reference.
unfoldable pub add_reference : Ptr → Ptr → RegisteredPointer → Pointers → Code × Pointers
add_reference p typetag r t =
    if is_negative r.nrefs
    then (is_not_counted, t)
    else if not (r.tag == typetag)
    then (tag_mismatch, t)
    else (no_error, put t p (some (record r { nrefs = int_inc r.nrefs })))

unfoldable pub register_counted_pointer : Ptr → Ptr → Pointers → Code × Pointers
unfolding add_reference
register_counted_pointer p typetag t = if p == null then (null_pointer, t) else elim (t p) [
  | none ↦ (no_error, put t p (some (record { tag = typetag; nrefs = 1 })))
  | some r ↦ add_reference p typetag r t
]

-- `--(rP->nrefs) <= 0` removes the pointer.
unfoldable pub drop_reference : Ptr → RegisteredPointer → Pointers → Pointers
drop_reference p r t =
    let n = int_dec r.nrefs in
    if is_negative n
    then put t p none
    else if n == 0
    then put t p none
    else put t p (some (record r { nrefs = n }))

unfoldable pub unregister_pointer : Ptr → Ptr → Pointers → Code × Pointers
unfolding drop_reference
unregister_pointer p typetag t = if p == null then (null_pointer, t) else elim (t p) [
  | none ↦ (not_found, t)
  | some r ↦ if not (r.tag == typetag) then (tag_mismatch, t) else (no_error, drop_reference p r t)
]

-- The calls that scripts and commands make.
pub data Call : Type 0 where
  verify register register_counted unregister : Ptr → Ptr → Call

unfoldable pub step : Call → Pointers → Code × Pointers
unfolding verify_pointer register_pointer register_counted_pointer unregister_pointer
step (verify p typetag) t = (verify_pointer t p typetag, t)
step (register p typetag) t = register_pointer p typetag t
step (register_counted p typetag) t = register_counted_pointer p typetag t
step (unregister p typetag) t = unregister_pointer p typetag t

-- What the calls of a sequence answer, and the state after them.
unfoldable pub run : {S : Type 0} → (Call → S → Code × S) → List Call → S → List Code × S
run act [] s = ([], s)
run act (c ∷ cs) s =
    let (code, s') = act c s in let (codes, s'') = run act cs s' in (code ∷ codes, s'')
