-- ===== src/OneTimeInit/Threads.antt =====
-- `TwapiDoOneTimeInit` of twapi/base/util.c: threads that call it on one state word, in any order. Each
-- turn of a thread is one interlocked operation, or the call of the function.
use twapi.Base.{ℕ, zero, suc, Bool, true, false, List, [], ◌∷◌, ◌==◌, if◌then◌else◌}

-- `TwapiOneTimeInitState`, with the prefix `TWAPI_INITSTATE_`.
pub data InitState : Type 0 where
  not_done in_progress done error : InitState

-- Where a thread is: outside, in the loop, before the call of `fn`, after it with its result, or
-- returning a value.
pub data Pc : Type 0 where
  idle spinning initializing : Pc
  ran : Bool → Pc
  returned : ℕ → Pc

-- The state word, the threads, and the results of the calls of `fn`.
pub record System : Type 0 where
  pub state : InitState
  pub pc : ℕ → Pc
  pub runs : List Bool

abbrev pub set_pc : (ℕ → Pc) → ℕ → Pc → ℕ → Pc
set_pc pc i p j = if j == i then p else pc j

-- The first `InterlockedCompareExchange`, and the switch on what it returns.
unfoldable pub enter : InitState → InitState × Pc
enter not_done = (in_progress, initializing)
enter in_progress = (in_progress, spinning)
enter done = (done, returned 3)
enter error = (error, returned 0)

-- A round of the loop.
unfoldable pub poll : InitState → Pc
poll done = returned 2
poll in_progress = spinning
poll not_done = returned 0
poll error = returned 0

-- The `InterlockedExchange` after `fn`.
unfoldable pub publish : Bool → InitState × Pc
publish true = (done, returned 1)
publish false = (error, returned 0)

-- A turn of thread `i`, where `ok` is what `fn` returns if it is called. A thread that has returned
-- may call again.
unfoldable pub turn : ℕ → Bool → Pc → System → System
unfolding enter poll publish
turn i ok idle s = record s { state = (enter s.state).0; pc = set_pc s.pc i (enter s.state).1 }
turn i ok spinning s = record s { pc = set_pc s.pc i (poll s.state) }
turn i ok initializing s = record s { pc = set_pc s.pc i (ran ok); runs = ok ∷ s.runs }
turn i ok (ran b) s = record s { state = (publish b).0; pc = set_pc s.pc i (publish b).1 }
turn i ok (returned r) s = record s { pc = set_pc s.pc i idle }

unfoldable pub advance : ℕ × Bool → System → System
unfolding turn
advance (i, ok) s = turn i ok (s.pc i) s

abbrev pub start : System
start = record { state = not_done; pc = λ i. idle; runs = [] }

-- The state after `n` turns. A schedule says whose turn is next, and what `fn` returns.
unfoldable pub after : (ℕ → ℕ × Bool) → ℕ → System
unfolding advance
after schedule zero = start
after schedule (suc n) = advance (schedule n) (after schedule n)
