-- ===== src/ThreadPool/Examples.antt =====
-- Registrations of twapi/base/threadpool.c, and the theorems at them.
use twapi.Base.{◌≡◌, refl, true, false, List, [], ◌∷◌, arith}
use twapi.ThreadPool.Registrations.{
  Operation, registering, unregistering, signalling, operate_all, cleanup, register, unregister,
  new_context,
}
use twapi.ThreadPool.Freed.{AllFreed, cleanup-freed}
use twapi.ThreadPool.Leaks.{unregister-register}

-- The second registration fails, the first is unregistered before its last signal is handled.
abbrev operations : List Operation
operations =
    registering true 7
    ∷ registering false 8
    ∷ registering true 9
    ∷ signalling 0
    ∷ unregistering 0
    ∷ signalling 0
    ∷ []

signals : (operate_all true operations (new_context 1)).signalled ≡ 0 ∷ []
unfolding operate_all
signals = refl

cleanup-freed_example :
    AllFreed 1
      (operate_all true operations (new_context 1))
      (cleanup 1 true (operate_all true operations (new_context 1)))
unfolding operate_all
cleanup-freed_example = cleanup-freed 1 true operations 1 (omega arith) (omega arith)

unregister-register_example :
    (unregister true 0 (register 5 true true 7 (new_context 1))).freed ≡ []
unregister-register_example =
    unregister-register 5 7 true (new_context 1) (omega arith) (omega arith)
