-- ===== src/Pointers/Balance.antt =====
-- `TwapiRegisterCountedPointer` and `TwapiUnregisterPointer` of twapi/base/twapi.c, as often called.
use twapi.Base.{
  ℕ, zero, suc, ◌+◌, ◌<◌, ◌^◌, ◌≡◌, refl, ap, fun_ext, ◌∙◌, ◌≢◌, inl, inr, true, false, Option,
  none, some, List, [], ◌∷◌, ◌++◌, arith, replicate, ◌==◌, Bool-cases,
}
use twapi.Pointers.Registry.{
  Ptr, null, Code, no_error, RegisteredPointer, Pointers, is_negative, int_inc, int_dec, put, Call,
  register_counted, unregister, add_reference, register_counted_pointer, drop_reference,
  unregister_pointer, step, run,
}

abbrev held : Ptr → ℕ → RegisteredPointer
held typetag n = record { tag = typetag; nrefs = n }

put_twice :
    (t : Pointers) (p : Ptr) (a b : Option RegisteredPointer) → put (put t p a) p b ≡ put t p b
put_twice t p a b = fun_ext λ q. ground arith

put-none : (t : Pointers) (p : Ptr) → t p ≡ none → put t p none ≡ t
put-none t p e =
    fun_ext λ q. elim (Bool-cases (q == p)) [ inl hit ↦ ground arith | inr miss ↦ rw miss refl ]

run-append :
    (xs ys : List Call) (t : Pointers)
    → run step (xs ++ ys) t
      ≡ ((run step xs t).0 ++ (run step ys (run step xs t).1).0, (run step ys (run step xs t).1).1)
unfolding run
run-append [] ys t = refl
run-append (x ∷ xs) ys t = rw (run-append xs ys (step x t).1) refl

run_cons :
    (c : Call) (cs : List Call) (t t' : Pointers) (code : Code)
    → step c t ≡ (code, t')
    → run step (c ∷ cs) t ≡ (code ∷ (run step cs t').0, (run step cs t').1)
unfolding run
run_cons c cs t t' code e = rw e refl

module _ (t : Pointers) (p typetag : Ptr) (there : p ≢ null) where
  not_null : (p == null) ≡ false
  not_null = ground arith

  same_pointer : (p == p) ≡ true
  same_pointer = ground arith

  same_tag : (typetag == typetag) ≡ true
  same_tag = ground arith

  step-first :
      t p ≡ none → step (register_counted p typetag) t ≡ (no_error, put t p (some (held typetag 1)))
  unfolding step register_counted_pointer
  step-first e = rw (not_null, e) refl

  step-again :
      (n : ℕ)
      → n + 1 < 2 ^ 31
      → step (register_counted p typetag) (put t p (some (held typetag n)))
        ≡ (no_error, put t p (some (held typetag (suc n))))
  unfolding step register_counted_pointer add_reference
  step-again n small =
      let positive : is_negative n ≡ false = ground arith in
      let next : int_inc n ≡ suc n = omega arith in
      rw
        (
          not_null,
          same_pointer,
          positive,
          same_tag,
          next,
          put_twice t p (some (held typetag n)) (some (held typetag (suc n))),
        )
        refl

  step-back :
      (n : ℕ)
      → n + 2 < 2 ^ 31
      → step (unregister p typetag) (put t p (some (held typetag (suc (suc n)))))
        ≡ (no_error, put t p (some (held typetag (suc n))))
  unfolding step unregister_pointer drop_reference
  step-back n small =
      let last : int_dec (suc (suc n)) ≡ suc n = omega arith in
      let positive : is_negative (suc n) ≡ false = ground arith in
      let nonzero : (suc n == 0) ≡ false = ground arith in
      rw
        (
          not_null,
          same_pointer,
          same_tag,
          last,
          positive,
          nonzero,
          put_twice t p (some (held typetag (suc (suc n)))) (some (held typetag (suc n))),
        )
        refl

  step-last :
      step (unregister p typetag) (put t p (some (held typetag 1))) ≡ (no_error, put t p none)
  unfolding step unregister_pointer drop_reference
  step-last = rw (not_null, same_pointer, same_tag, put_twice t p (some (held typetag 1)) none) refl

  retains :
      (n k m : ℕ)
      → k + n ≡ m
      → m < 2 ^ 31
      → run step (replicate n (register_counted p typetag)) (put t p (some (held typetag k)))
        ≡ (replicate n no_error, put t p (some (held typetag m)))
  unfolding run
  retains zero k m sum small = let same : k ≡ m = omega arith in rw same refl
  retains (suc n) k m sum small =
      rw (step-again k (omega arith), retains n (suc k) m (omega arith) small) refl

  releases :
      (n : ℕ)
      → n + 1 < 2 ^ 31
      → run step (replicate (suc n) (unregister p typetag)) (put t p (some (held typetag (suc n))))
        ≡ (replicate (suc n) no_error, put t p none)
  unfolding run
  releases zero small = rw step-last refl
  releases (suc n) small =
      run_cons (unregister p typetag) (replicate (suc n) (unregister p typetag)) _ _ no_error
        (step-back n (omega arith))
      ∙ ap (λ r. (no_error ∷ r.0, r.1)) (releases n (omega arith))

  registered :
      (n : ℕ)
      → t p ≡ none
      → n + 1 < 2 ^ 31
      → run step (replicate (suc n) (register_counted p typetag)) t
        ≡ (replicate (suc n) no_error, put t p (some (held typetag (suc n))))
  unfolding run
  registered n e small = rw (step-first e, retains n 1 (suc n) (omega arith) (omega arith)) refl

-- A pointer that is not null and not registered is registered `n + 1` times, counted, and then
-- unregistered as often, under one tag, with `n + 1 < 2^31`: every call succeeds, and the table is
-- then as it was before.
pub register_counted_unregister :
    (t : Pointers) (p typetag : Ptr) (n : ℕ)
    → p ≢ null
    → t p ≡ none
    → n + 1 < 2 ^ 31
    → run step
        (replicate (suc n) (register_counted p typetag) ++ replicate (suc n) (unregister p typetag))
        t
      ≡ (replicate (suc n) no_error ++ replicate (suc n) no_error, t)
register_counted_unregister t p typetag n there e small =
    rw
      (
        run-append (replicate (suc n) (register_counted p typetag))
            (replicate (suc n) (unregister p typetag)) t,
        registered t p typetag there n e small,
        releases t p typetag there n small,
        put-none t p e,
      )
      refl
