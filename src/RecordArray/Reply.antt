-- ===== src/RecordArray/Reply.antt =====
-- How the commands of twapi/base/recordarray.c end, and what they call besides the conversions of
-- Parseargs.Tcl.
use twapi.Base.{
  ℕ, ◌≡◌, refl, ◌⊎◌, inl, inr, ◌<◌, Bool, Option, none, some, List, ◌++◌, length, get_elem?,
  set_elem, ◌≢◌,
}
use twapi.Parseargs.Tcl.{Str, Tcl}

-- Why a command returns `TCL_ERROR`: its words, its data, or an object that cannot be converted.
pub data Reason : Type 0 where
  invalid_args invalid_data bad_object : Reason

-- A command sets a result, returns an error, or dereferences a null pointer.
pub data Reply (A : Type 0) : Type 0 where
  reply : A → Reply A
  refused : Reason → Reply A
  null_pointer : Reply A

infixl 5 ◌>>=◌
abbrev pub ◌>>=◌ : {A B : Type 0} → Reply A → (A → Reply B) → Reply B
reply a >>= f = f a
refused e >>= f = refused e
null_pointer >>= f = null_pointer

-- A value, or the error of a call that returned none.
abbrev pub expect : {A : Type 0} → Option A → Reason → Reply A
expect none e = refused e
expect (some a) e = reply a

pub Reply-cases :
    {A : Type 0} (r : Reply A)
    → ((a : A) × (r ≡ reply a)) ⊎ (((e : Reason) × (r ≡ refused e)) ⊎ (r ≡ null_pointer))
Reply-cases (reply a) = inl (a, refl)
Reply-cases (refused e) = inr (inl (e, refl))
Reply-cases null_pointer = inr (inr refl)

-- The rest of the Tcl library and Windows: `Tcl_ListObjIndex`, `Tcl_ListObjReplace` of one element,
-- `Tcl_ListObjAppendList`, `Tcl_GetIndexFromObj` with `TCL_EXACT`, `lstrcmpiA` and
-- `Tcl_StringCaseMatch`, and an empty object.
pub record Lists (Obj : Type 0) : Type 0 where
  pub list_index : Obj → ℕ → Option (Option Obj)
  pub list_replace : Obj → ℕ → Obj → Obj
  pub append_list : Obj → Obj → Obj
  pub get_index : List Str → Obj → Option ℕ
  pub lstri_equal : Str → Str → Bool
  pub string_match : Str → Str → Bool → Bool
  pub empty : Obj

-- What is relied on: the calls on lists agree with the elements of the object.
pub record IsLists {Obj Vars : Type 0} (tcl : Tcl Obj Vars) (lists : Lists Obj) : Type 0 where
  pub index :
      (o : Obj) (n : ℕ) (es : List Obj)
      → tcl.to_elements o ≡ some es
      → lists.list_index o n ≡ some (get_elem? es n)
  pub replace :
      (o v : Obj) (n : ℕ) (es : List Obj)
      → tcl.to_elements o ≡ some es
      → n < length es
      → tcl.to_elements (lists.list_replace o n v) ≡ some (set_elem es n v)
  pub append :
      (l o : Obj) (xs ys : List Obj)
      → tcl.to_elements l ≡ some xs
      → tcl.to_elements o ≡ some ys
      → tcl.to_elements (lists.append_list l o) ≡ some (xs ++ ys)

-- The parts of a chain of calls that succeeds.
pub bind-reply :
    {A B : Type 0} (m : Reply A) (f : A → Reply B) {b : B}
    → (m >>= f) ≡ reply b
    → (a : A) × (m ≡ reply a) × (f a ≡ reply b)
bind-reply (reply a) f h = (a, refl, h)
bind-reply (refused e) f h = cc
bind-reply null_pointer f h = cc

pub expect-reply :
    {A : Type 0} (o : Option A) (e : Reason) {a : A} → expect o e ≡ reply a → o ≡ some a
expect-reply none e h = cc
expect-reply (some x) e h = cc

pub reply-eq : {A : Type 0} {a b : A} → reply a ≡ reply b → a ≡ b
reply-eq h = cc

-- A call that does not dereference a null pointer, and whose result has a property.
pub data Ends {A : Type 0} (P : A → Type 0) : Reply A → Type 0 where
  ends : {a : A} → P a → Ends P (reply a)
  stops : {e : Reason} → Ends P (refused e)

abbrev pub Always : {A : Type 0} → A → Type 0
Always a = Unit

pub bind-Ends :
    {A B : Type 0} {P : A → Type 0} {Q : B → Type 0} (m : Reply A) (f : A → Reply B)
    → Ends P m
    → ((a : A) → m ≡ reply a → P a → Ends Q (f a))
    → Ends Q (m >>= f)
bind-Ends (reply a) f (ends p) k = k a refl p
bind-Ends (refused e) f h k = stops
bind-Ends null_pointer f h k = elim h [ ]

pub expect-Ends : {A : Type 0} (o : Option A) (e : Reason) → Ends Always (expect o e)
expect-Ends none e = stops
expect-Ends (some a) e = ends tt

pub Ends-ne-null : {A : Type 0} {P : A → Type 0} (r : Reply A) → Ends P r → r ≢ null_pointer
Ends-ne-null (reply a) h q = cc
Ends-ne-null (refused e) h q = cc
Ends-ne-null null_pointer h q = elim h [ ]

pub refused-ne-reply : {A : Type 0} (e : Reason) (a : A) → refused e ≢ reply a
refused-ne-reply e a = λ q. cc
