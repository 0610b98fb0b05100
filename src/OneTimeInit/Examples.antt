-- ===== src/OneTimeInit/Examples.antt =====
-- Threads in the one-time initialization of twapi/base/util.c, and the theorems at them.
use twapi.Base.{ℕ, ◌+◌, ◌*◌, ◌%◌, ◌≡◌, ◌≢◌, ◌≤◌, ◌<◌, refl, Bool, true, false, [], ◌∷◌, arith}
use twapi.OneTimeInit.Threads.{returned, after}
use twapi.OneTimeInit.Once.{returned-runs}
use twapi.OneTimeInit.Turns.{Returns}
use twapi.OneTimeInit.Returns.{calls-Returns}

-- Two threads in turn; the function succeeds.
abbrev in_turn : ℕ → ℕ × Bool
in_turn n = (n % 2, true)

abbrev two : ℕ
two = 2

waited : (after in_turn 6).pc 1 ≡ returned 2
unfolding after
waited = refl

returned-runs_example :
    (two ≢ 0 → (after in_turn 6).runs ≡ true ∷ []) × (two ≡ 0 → (after in_turn 6).runs ≡ false ∷ [])
returned-runs_example = returned-runs in_turn 6 1 2 waited

in_turn-lt : (m : ℕ) → m % 2 < 2
in_turn-lt m = omega arith

in_turn-fair : (n i : ℕ) → i < 2 → (m : ℕ) × (n ≤ m) × (m % 2 ≡ i)
in_turn-fair n i lt = (2 * n + i, omega arith, omega (arith, lt))

calls-Returns_example : Returns in_turn 3 1
calls-Returns_example = calls-Returns in_turn 2 in_turn-lt in_turn-fair 3 1 (omega arith)
