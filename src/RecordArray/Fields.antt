-- ===== src/RecordArray/Fields.antt =====
-- The commands of `Twapi_RecordObjCmd` in twapi/base/recordarray.c, one against another, and against
-- `Twapi_KlGetObjCmd` of twapi/base/keylist.c.
use twapi.Base.{
  ℕ, zero, suc, ◌≡◌, refl, sym, ap, subst, ◌∙◌, inl, inr, ◌<◌, Bool, true, false, Option, some,
  List, [], ◌∷◌, length, get_elem?, set_elem, arith, leb, ◌==◌, Bool-cases, if◌then◌else◌,
}
use twapi.Parseargs.Tcl.{Tcl}
use twapi.RecordArray.Reply.{
  invalid_args, invalid_data, Reply, reply, refused, null_pointer, expect, Lists, IsLists,
  bind-reply, reply-eq, refused-ne-reply,
}
use twapi.RecordArray.Twine.{to_enum}
use twapi.RecordArray.Instance.{cmds, get_field, set_fields, is_pairs, subcommand, record_instance}

module _ {A : Type 0} where
  length-set_elem : (xs : List A) (n : ℕ) (y : A) → length (set_elem xs n y) ≡ length xs
  length-set_elem [] n y = refl
  length-set_elem (x ∷ xs) zero y = refl
  length-set_elem (x ∷ xs) (suc n) y = ap suc (length-set_elem xs n y)

  get_elem?-set_elem :
      (xs : List A) (n k : ℕ) (y : A)
      → n < length xs
      → get_elem? (set_elem xs n y) k ≡ (if n == k then some y else get_elem? xs k)
  get_elem?-set_elem [] n k y lt = absurd (omega (arith, lt))
  get_elem?-set_elem (x ∷ xs) zero zero y lt = refl
  get_elem?-set_elem (x ∷ xs) zero (suc k) y lt =
      let ne : (0 == suc k) ≡ false = ground arith in rw ne refl
  get_elem?-set_elem (x ∷ xs) (suc n) zero y lt =
      let ne : (suc n == 0) ≡ false = ground arith in rw ne refl
  get_elem?-set_elem (x ∷ xs) (suc n) (suc k) y lt =
      let same : (suc n == suc k) ≡ (n == k) = ground arith in
      rw same (get_elem?-set_elem xs n k y (omega (arith, lt)))

module _ {Obj Vars : Type 0} (tcl : Tcl Obj Vars) (lists : Lists Obj) where
  abbrev pub assign : Reply ℕ → ℕ → Obj → Reply Obj → Reply Obj
  assign (reply j) k v d = if j == k then reply v else d
  assign (refused e) k v d = d
  assign null_pointer k v d = d

  -- The value of the field at a position after `set`, where it was `d` before: the last one given.
  abbrev pub assigned : Obj → ℕ → List Obj → Reply Obj → Reply Obj
  assigned fields k [] d = d
  assigned fields k (f ∷ []) d = d
  assigned fields k (f ∷ v ∷ more) d =
      assigned fields k more (assign (to_enum tcl lists fields f) k v d)

  get_field-at :
      (laws : IsLists tcl lists) (fields o g : Obj) (k : ℕ) (es : List Obj)
      → to_enum tcl lists fields g ≡ reply k
      → tcl.to_elements o ≡ some es
      → get_field tcl lists fields o g ≡ expect (get_elem? es k) invalid_data
  unfolding get_field
  get_field-at laws fields o g k es eg eo = rw (get_field, eg, laws.index o k es eo) refl

  expect-if :
      (b : Bool) (v : Obj) (o : Option Obj)
      → expect (if b then some v else o) invalid_data
        ≡ (if b then reply v else expect o invalid_data)
  expect-if true v o = refl
  expect-if false v o = refl

  set_fields-get_field :
      (laws : IsLists tcl lists) (fields rec : Obj) (es0 : List Obj) (g : Obj) (k : ℕ)
      (args : List Obj) (o o' : Obj) (es : List Obj)
      → tcl.to_elements rec ≡ some es0
      → to_enum tcl lists fields g ≡ reply k
      → tcl.to_elements o ≡ some es
      → length es ≡ length es0
      → set_fields tcl lists fields rec o args ≡ reply o'
      → get_field tcl lists fields o' g ≡ assigned fields k args (get_field tcl lists fields o g)
  unfolding set_fields
  set_fields-get_field laws fields rec es0 g k [] o o' es er eg eo el h =
      ap (λ x. get_field tcl lists fields x g) (sym (reply-eq h))
  set_fields-get_field laws fields rec es0 g k (f ∷ []) o o' es er eg eo el h =
      ap (λ x. get_field tcl lists fields x g) (sym (reply-eq h))
  set_fields-get_field laws fields rec es0 g k (f ∷ v ∷ more) o o' es er eg eo el h =
      let (j, e1, h1) = bind-reply (to_enum tcl lists fields f) _ h in
      elim (Bool-cases (leb (length es0) j)) [
        | inl short ↦ absurd (refused-ne-reply invalid_data o' (rw (er, short) at h1))
        | inr enough ↦
            let lt : j < length es = ground (arith, enough, el) in
            let eo1 = laws.replace o v j es eo lt in
            let now : get_field tcl lists fields (lists.list_replace o j v) g
                ≡ assign (to_enum tcl lists fields f) k v (get_field tcl lists fields o g) =
              rw
                (
                  e1,
                  get_field-at laws fields o g k es eg eo,
                  get_field-at laws fields (lists.list_replace o j v) g k (set_elem es j v) eg eo1,
                  get_elem?-set_elem es j k v lt,
                )
                (expect-if (j == k) v (get_elem? es k)) in
            subst (λ d. get_field tcl lists fields o' g ≡ assigned fields k more d) now
              (set_fields-get_field laws fields rec es0 g k more (lists.list_replace o j v) o'
                (set_elem es j v) er eg eo1 (length-set_elem es j v ∙ el) (rw (er, enough) at h1))
      ]

  subcommand-get :
      (fields rec g : Obj)
      → subcommand tcl lists 0 fields rec (g ∷ []) ≡ get_field tcl lists fields rec g
  unfolding subcommand
  subcommand-get fields rec g = refl

  subcommand-set :
      (fields rec o' : Obj) (args : List Obj)
      → subcommand tcl lists 1 fields rec args ≡ reply o'
      → set_fields tcl lists fields rec rec args ≡ reply o'
  unfolding subcommand
  subcommand-set fields rec o' args h = elim (Bool-cases (is_pairs tcl lists args)) [
    | inl p ↦ rw (subcommand, p) at h
    | inr p ↦ absurd (refused-ne-reply invalid_args o' (rw (subcommand, p) at h))
  ]

-- After a `set` that succeeds, on a record that is a list, `get` returns for each field of the
-- definition the last value that was assigned to it, and what it returned before for a field that was
-- not assigned to.
pub record_instance-set-get :
    {Obj Vars : Type 0} (tcl : Tcl Obj Vars) (lists : Lists Obj) (laws : IsLists tcl lists)
    (fields rec o' set get g a : Obj) (bs es : List Obj) (k : ℕ)
    → lists.get_index cmds set ≡ some 1
    → lists.get_index cmds get ≡ some 0
    → tcl.to_elements rec ≡ some es
    → to_enum tcl lists fields g ≡ reply k
    → record_instance tcl lists fields (set ∷ rec ∷ a ∷ bs) ≡ reply o'
    → record_instance tcl lists fields (get ∷ o' ∷ g ∷ [])
      ≡ assigned tcl lists fields k (a ∷ bs) (record_instance tcl lists fields (get ∷ rec ∷ g ∷ []))
unfolding record_instance
record_instance-set-get tcl lists laws fields rec o' set get g a bs es k e1 e0 er eg h =
    rw (e0, subcommand-get tcl lists fields o' g, subcommand-get tcl lists fields rec g)
      (set_fields-get_field tcl lists laws fields rec es g k (a ∷ bs) rec o' es er eg er refl
        (subcommand-set tcl lists fields rec o' (a ∷ bs) (rw e1 at h)))
