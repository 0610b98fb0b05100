-- ===== src/MemLifo/Settles.antt =====
-- How a call of twapi/base/memlifo.c may end.
use twapi.Base.{◌≡◌, refl, subst, Bool, true, false}
use twapi.MemLifo.State.{Lifo, Outcome, returned, panicked, faulted}
use twapi.MemLifo.Alloc.{fail}

-- The call ends without a fault, by a panic only if the pool was opened so, and what it returns
-- is as `P` says.
abbrev pub Settles : {A : Type 0} → Bool → (A → Lifo → Type 0) → Outcome A → Type 0
Settles panic P (returned a l) = P a l
Settles panic P panicked = panic ≡ true
Settles panic P faulted = ⊥

-- A call that never panics.
pub Settles-quiet :
    {A : Type 0} (panic : Bool) (P : A → Lifo → Type 0) (o : Outcome A)
    → Settles false P o
    → Settles panic P o
Settles-quiet panic P (returned a l) h = h
Settles-quiet panic P panicked h = cc
Settles-quiet panic P faulted h = h

pub fail-Settles :
    {A : Type 0} (panic : Bool) (P : A → Lifo → Type 0) (a : A) (l : Lifo)
    → P a l
    → Settles panic P (fail panic panicked (returned a l))
unfolding fail
fail-Settles true P a l h = refl
fail-Settles false P a l h = h

pub Settles-mono :
    {A : Type 0} (panic : Bool) (P Q : A → Lifo → Type 0) (o : Outcome A)
    → ((a : A) (l : Lifo) → P a l → Q a l)
    → Settles panic P o
    → Settles panic Q o
Settles-mono panic P Q (returned a l) weaken h = weaken a l h
Settles-mono panic P Q panicked weaken h = h
Settles-mono panic P Q faulted weaken h = h

pub Settles-returned :
    {A : Type 0} (panic : Bool) (P : A → Lifo → Type 0) (o : Outcome A) (a : A) (l : Lifo)
    → Settles panic P o
    → o ≡ returned a l
    → P a l
Settles-returned panic P o a l h e = subst (Settles panic P) e h
