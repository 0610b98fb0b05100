-- ===== src/Pointers/Refines.antt =====
-- The calls on the pointer registry of twapi/base/twapi.c, compared with the owners of pointers.
use twapi.Base.{
  ℕ, zero, suc, ◌+◌, ◌<◌, ◌^◌, ◌≡◌, refl, sym, ap, fun_ext, ◌∙◌, inl, inr, ◌⊎◌, Bool, true, false,
  List, [], ◌∷◌, arith, length, ◌==◌, if◌then◌else◌, Bool-cases,
}
use twapi.Pointers.Registry.{
  Ptr, null, Code, null_pointer, is_negative, int_inc, int_dec, put, Call, verify, register,
  register_counted, unregister, check_tag, verify_pointer, register_pointer, add_reference,
  register_counted_pointer, drop_reference, unregister_pointer, step, run,
}
use twapi.Pointers.Holders.{
  Holding, free, sole, shared, settle, Holdings, subject, spec_step, entry, entries, IsCounted,
}

entries-put :
    (s : Holdings) (p : Ptr) (h : Holding) → entries (put s p h) ≡ put (entries s) p (entry h)
entries-put s p h = fun_ext λ q. ground arith

put_same : (s : Holdings) (p : Ptr) (h : Holding) → s p ≡ h → put s p h ≡ s
put_same s p h e =
    fun_ext λ q. elim (Bool-cases (q == p)) [ inl hit ↦ ground arith | inr miss ↦ rw miss refl ]

module _ (s : Holdings) (p typetag : Ptr) (there : (p == null) ≡ false) where
  verify-settle :
      (h : Holding)
      → s p ≡ h
      → verify_pointer (entries s) p typetag ≡ (settle (verify p typetag) h).0
  unfolding verify_pointer check_tag
  verify-settle free e = rw (verify_pointer, e, there) refl
  verify-settle (sole t) e = rw (verify_pointer, e) (ground arith)
  verify-settle (shared t n) e = rw (verify_pointer, e) (ground arith)

  register-settle :
      (h : Holding)
      → s p ≡ h
      → register_pointer p typetag (entries s)
        ≡ ((settle (register p typetag) h).0, entries (put s p (settle (register p typetag) h).1))
  unfolding register_pointer
  register-settle free e = rw (there, e, entries-put s p (sole typetag)) refl
  register-settle (sole t) e = rw (there, e, put_same s p (sole t) e) refl
  register-settle (shared t n) e = rw (there, e, put_same s p (shared t n) e) refl

  module _ (m : ℕ) (small : m + 1 < 2 ^ 31) where
    retain-settle :
        (h : Holding)
        → IsCounted m h
        → s p ≡ h
        → register_counted_pointer p typetag (entries s) ≡ (
          (settle (register_counted p typetag) h).0,
          entries (put s p (settle (register_counted p typetag) h).1),
        )
    unfolding register_counted_pointer add_reference
    retain-settle free k e = rw (there, e, entries-put s p (shared typetag 0)) refl
    retain-settle (sole t) k e = rw (there, e, put_same s p (sole t) e) refl
    retain-settle (shared t n) k e = elim (Bool-cases (t == typetag)) [
      | inl same ↦ rw (there, e, positive, same, next, entries-put s p (shared t (suc n))) refl
      | inr other ↦ rw (there, e, positive, other, put_same s p (shared t n) e) refl
    ]
      where
        positive : is_negative (suc n) ≡ false
        positive = ground arith

        next : int_inc (suc n) ≡ suc (suc n)
        next = omega arith

    release-settle :
        (h : Holding)
        → IsCounted m h
        → s p ≡ h
        → unregister_pointer p typetag (entries s) ≡ (
          (settle (unregister p typetag) h).0,
          entries (put s p (settle (unregister p typetag) h).1),
        )
    unfolding unregister_pointer drop_reference
    release-settle free k e = rw (there, e, put_same s p free e) refl
    release-settle (sole t) k e = elim (Bool-cases (t == typetag)) [
      | inl same ↦ rw (there, e, same, entries-put s p free) refl
      | inr other ↦ rw (there, e, other, put_same s p (sole t) e) refl
    ]
    release-settle (shared t zero) k e = elim (Bool-cases (t == typetag)) [
      | inl same ↦ rw (there, e, same, entries-put s p free) refl
      | inr other ↦ rw (there, e, other, put_same s p (shared t zero) e) refl
    ]
    release-settle (shared t (suc n)) k e = elim (Bool-cases (t == typetag)) [
      | inl same ↦ rw (there, e, same, last, positive, nonzero, entries-put s p (shared t n)) refl
      | inr other ↦ rw (there, e, other, put_same s p (shared t (suc n)) e) refl
    ]
      where
        last : int_dec (suc (suc n)) ≡ suc n
        last = omega arith

        positive : is_negative (suc n) ≡ false
        positive = ground arith

        nonzero : (suc n == 0) ≡ false
        nonzero = ground arith

null-verify :
    (s : Holdings) (p typetag : Ptr)
    → s null ≡ free
    → (p == null) ≡ true
    → verify_pointer (entries s) p typetag ≡ null_pointer
unfolding verify_pointer
null-verify s p typetag empty e =
    let at : p ≡ null = ground arith in
    let gone : s p ≡ free = ap s at ∙ empty in rw (verify_pointer, gone, e) refl

step-null :
    (c : Call) (s : Holdings)
    → s null ≡ free
    → (subject c == null) ≡ true
    → step c (entries s) ≡ (null_pointer, entries s)
unfolding step register_pointer register_counted_pointer unregister_pointer
step-null (verify p typetag) s empty e = ap (λ x. (x, entries s)) (null-verify s p typetag empty e)
step-null (register p typetag) s empty e = rw e refl
step-null (register_counted p typetag) s empty e = rw e refl
step-null (unregister p typetag) s empty e = rw e refl

-- Null is free, and no pointer has more than `m` owners.
pub record IsOrderly (m : ℕ) (s : Holdings) : Type 0 where
  pub null_free : s null ≡ free
  pub counted : (p : Ptr) → IsCounted m (s p)

verify-keeps : (p typetag : Ptr) (h : Holding) → (settle (verify p typetag) h).1 ≡ h
verify-keeps p typetag free = refl
verify-keeps p typetag (sole t) = refl
verify-keeps p typetag (shared t n) = refl

step-settle :
    (c : Call) (s : Holdings) (m : ℕ)
    → IsOrderly m s
    → m + 1 < 2 ^ 31
    → (subject c == null) ≡ false
    → step c (entries s)
      ≡ ((settle c (s (subject c))).0, entries (put s (subject c) (settle c (s (subject c))).1))
unfolding step
step-settle (verify p typetag) s m o small e =
    rw (verify-settle s p typetag e (s p) refl, put_same s p _ (sym (verify-keeps p typetag (s p))))
      refl
step-settle (register p typetag) s m o small e = register-settle s p typetag e (s p) refl
step-settle (register_counted p typetag) s m o small e =
    retain-settle s p typetag e m small (s p) (o.counted p) refl
step-settle (unregister p typetag) s m o small e =
    release-settle s p typetag e m small (s p) (o.counted p) refl

step-refines :
    (c : Call) (s : Holdings) (m : ℕ)
    → IsOrderly m s
    → m + 1 < 2 ^ 31
    → step c (entries s) ≡ ((spec_step c s).0, entries (spec_step c s).1)
unfolding spec_step
step-refines c s m o small = elim (Bool-cases (subject c == null)) [
  | inl null_subject ↦ rw (step-null c s o.null_free null_subject, null_subject) refl
  | inr other ↦ rw (step-settle c s m o small other, other) refl
]

if-IsCounted :
    (m : ℕ) (b : Bool) (x y : Code × Holding)
    → IsCounted m x.1
    → IsCounted m y.1
    → IsCounted m (if b then x else y).1
if-IsCounted m true x y hx hy = hx
if-IsCounted m false x y hx hy = hy

settle-IsCounted :
    (c : Call) (m : ℕ) (h : Holding) → IsCounted m h → IsCounted (suc m) (settle c h).1
settle-IsCounted (verify p typetag) m free k = tt
settle-IsCounted (verify p typetag) m (sole t) k = tt
settle-IsCounted (verify p typetag) m (shared t n) k = omega (arith, k)
settle-IsCounted (register p typetag) m free k = tt
settle-IsCounted (register p typetag) m (sole t) k = tt
settle-IsCounted (register p typetag) m (shared t n) k = omega (arith, k)
settle-IsCounted (register_counted p typetag) m free k = omega arith
settle-IsCounted (register_counted p typetag) m (sole t) k = tt
settle-IsCounted (register_counted p typetag) m (shared t n) k =
    if-IsCounted (suc m) (t == typetag) _ _ (omega (arith, k)) (omega (arith, k))
settle-IsCounted (unregister p typetag) m free k = tt
settle-IsCounted (unregister p typetag) m (sole t) k = if-IsCounted (suc m) (t == typetag) _ _ tt tt
settle-IsCounted (unregister p typetag) m (shared t zero) k =
    if-IsCounted (suc m) (t == typetag) _ _ tt (omega (arith, k))
settle-IsCounted (unregister p typetag) m (shared t (suc n)) k =
    if-IsCounted (suc m) (t == typetag) _ _ (omega (arith, k)) (omega (arith, k))

IsCounted-suc : (m : ℕ) (h : Holding) → IsCounted m h → IsCounted (suc m) h
IsCounted-suc m free k = tt
IsCounted-suc m (sole t) k = tt
IsCounted-suc m (shared t n) k = omega (arith, k)

spec_step-IsOrderly :
    (c : Call) (s : Holdings) (m : ℕ) → IsOrderly m s → IsOrderly (suc m) (spec_step c s).1
unfolding spec_step
spec_step-IsOrderly c s m o = elim (Bool-cases (subject c == null)) [
  | inl null_subject ↦
      rw null_subject
        (record { null_free = o.null_free; counted = λ p. IsCounted-suc m (s p) (o.counted p) })
  | inr other ↦ rw other (record {
    null_free = ground (arith, o.null_free);
    counted = λ p. put-IsCounted p (Bool-cases (p == subject c));
  })
]
  where
    h : Holding
    h = (settle c (s (subject c))).1

    put-IsCounted :
        (p : Ptr)
        → ((p == subject c) ≡ true) ⊎ ((p == subject c) ≡ false)
        → IsCounted (suc m) (put s (subject c) h p)
    put-IsCounted p (inl hit) =
        rw hit (settle-IsCounted c m (s (subject c)) (o.counted (subject c)))
    put-IsCounted p (inr miss) = rw miss (IsCounted-suc m (s p) (o.counted p))

-- From a table that shows how pointers are held, none of them by more than `m` owners and null by
-- none, a sequence of calls answers what the owners are promised and leaves the table that
-- shows how pointers are held then. The calls and `m` together are fewer than 2^31.
pub calls_refine :
    (cs : List Call) (s : Holdings) (m : ℕ)
    → IsOrderly m s
    → m + length cs < 2 ^ 31
    → run step cs (entries s) ≡ ((run spec_step cs s).0, entries (run spec_step cs s).1)
unfolding run
calls_refine [] s m o small = refl
calls_refine (c ∷ cs) s m o small =
    rw
      (
        step-refines c s m o (omega arith),
        calls_refine cs (spec_step c s).1 (suc m) (spec_step-IsOrderly c s m o) (omega arith),
      )
      refl
