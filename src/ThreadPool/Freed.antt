-- ===== src/ThreadPool/Freed.antt =====
-- What becomes of the registrations of twapi/base/threadpool.c, and of their references to the context.
use twapi.Base.{
  ℕ, zero, suc, ◌+◌, ◌^◌, ◌≤◌, ◌<◌, ◌≡◌, refl, ap, ◌∙◌, Bool, true, some, List, [], ◌∷◌, length,
  arith, ltb, ◌==◌, one_if,
}
use twapi.ThreadPool.Registrations.{
  Registration, Context, locate_registration, shutdown, cleanup, Operation, operate_all,
  new_context,
}
use twapi.ThreadPool.Balance.{
  count, IsBalanced, locate_registration-IsRemoved, shutdown-IsShutDown, shutdown-IsBalanced,
  operate_all-IsBalanced, new_context-IsBalanced,
}

-- What the loop leaves.
record IsClean (base : ℕ) (c c' : Context) : Type 0 where
  empty : c'.threadpool_registrations ≡ []
  kept : IsBalanced base c'
  same_id : c'.next_id ≡ c.next_id

cleanup-IsClean :
    (fuel base : ℕ) (has_handler : Bool) (c : Context) (rs : List Registration)
    → c.threadpool_registrations ≡ rs
    → length rs ≤ fuel
    → IsBalanced base c
    → IsClean base c (cleanup fuel has_handler c)
unfolding cleanup locate_registration
cleanup-IsClean zero base has_handler c [] e le v = record { empty = e; kept = v; same_id = refl }
cleanup-IsClean zero base has_handler c (r ∷ rs) e le v = absurd (omega (arith, le))
cleanup-IsClean (suc fuel) base has_handler c [] e le v =
    rw (cleanup, e) (record { empty = e; kept = v; same_id = refl })
cleanup-IsClean (suc fuel) base has_handler c (r ∷ rs) e le v =
    let found : locate_registration r.id c.threadpool_registrations ≡ some r =
      rw e (locate-head r rs) in
    let m = locate_registration-IsRemoved r.id c.threadpool_registrations r v.all_live found in
    let d = shutdown-IsShutDown has_handler r c m.is_live in
    let again =
      cleanup-IsClean fuel base has_handler (shutdown has_handler r c) _ d.list
        (omega (arith, le, m.shorter, ap length e))
        (shutdown-IsBalanced base has_handler r.id r c found v) in
    rw (cleanup, e)
      (record { empty = again.empty; kept = again.kept; same_id = again.same_id ∙ d.same_id })
  where
    locate-head :
        (x : Registration) (xs : List Registration) → locate_registration x.id (x ∷ xs) ≡ some x
    locate-head x xs =
        let same : (x.id == x.id) ≡ true = ground arith in rw (locate_registration, same) refl

-- All registrations that were made up to a state are freed once in another, where the list is empty
-- and the references are those at the start.
abbrev pub AllFreed : ℕ → Context → Context → Type 0
AllFreed base c c' =
    (c'.threadpool_registrations ≡ [])
    × ((c'.nrefs ≡ base) × ((i : ℕ) → count i c'.freed ≡ one_if (ltb i c.next_id)))

-- When new memory holds 0 where the reference count of a registration is, and the context has fewer
-- than 2^32 references at the start: whatever was registered, unregistered and signalled before, when the interpreter is deleted the loop
-- over the registrations ends with an empty list after as many rounds as there are registrations; the
-- context has the references that it had at the start, and every registration that was made, also
-- one that Windows refused, was freed exactly once.
pub cleanup-freed :
    (base : ℕ) (has_handler : Bool) (os : List Operation) (fuel : ℕ)
    → base < 2 ^ 32
    → length ((operate_all has_handler os (new_context base)).threadpool_registrations) ≤ fuel
    → AllFreed base
        (operate_all has_handler os (new_context base))
        (cleanup fuel has_handler (operate_all has_handler os (new_context base)))
cleanup-freed base has_handler os fuel lt le =
    let c = operate_all has_handler os (new_context base) in
    let m = cleanup-IsClean fuel base has_handler c c.threadpool_registrations refl le (
      operate_all-IsBalanced base has_handler os (new_context base)
        (new_context-IsBalanced base lt)) in
    (
      m.empty,
      (
        omega (arith, rw m.empty at m.kept.refs, lt),
        λ i.
            let rest : count i [] + count i (cleanup fuel has_handler c).freed
                ≡ one_if (ltb i (cleanup fuel has_handler c).next_id) =
              rw m.empty at m.kept.balance i in
            omega (arith, rest, ap (λ n. one_if (ltb i n)) m.same_id),
      ),
    )
