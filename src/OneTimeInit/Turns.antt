-- ===== src/OneTimeInit/Turns.antt =====
-- The turns of the threads in `TwapiDoOneTimeInit` of twapi/base/util.c, one after another.
use twapi.Base.{
  ℕ, zero, suc, ◌+◌, ◌≡◌, refl, ◌≢◌, ap, ◌∙◌, subst, ◌⊎◌, inl, inr, ◌≤◌, Bool, true, false, arith,
  ◌==◌, Bool-cases,
}
use twapi.OneTimeInit.Threads.{
  InitState, not_done, in_progress, done, error, Pc, idle, spinning, initializing, ran, returned,
  System, enter, poll, publish, turn, advance, after,
}
use twapi.OneTimeInit.Places.{Fits, set_pc_self, set_pc_other}

-- Where a thread goes.
unfoldable pub next : Bool → InitState → Pc → Pc
unfolding enter poll publish
next ok w idle = (enter w).1
next ok w spinning = poll w
next ok w initializing = ran ok
next ok w (ran b) = (publish b).1
next ok w (returned r) = idle

abbrev pub IsFinal : InitState → Type 0
IsFinal not_done = ⊥
IsFinal in_progress = ⊥
IsFinal done = Unit
IsFinal error = Unit

turn_self : (i : ℕ) (ok : Bool) (p : Pc) (s : System) → (turn i ok p s).pc i ≡ next ok s.state p
unfolding turn next
turn_self i ok idle s = set_pc_self s.pc i _
turn_self i ok spinning s = set_pc_self s.pc i _
turn_self i ok initializing s = set_pc_self s.pc i _
turn_self i ok (ran b) s = set_pc_self s.pc i _
turn_self i ok (returned r) s = set_pc_self s.pc i _

turn_other :
    (i : ℕ) (ok : Bool) (p : Pc) (s : System) (j : ℕ) → j ≢ i → (turn i ok p s).pc j ≡ s.pc j
unfolding turn
turn_other i ok idle s j ne = set_pc_other s.pc i _ j ne
turn_other i ok spinning s j ne = set_pc_other s.pc i _ j ne
turn_other i ok initializing s j ne = set_pc_other s.pc i _ j ne
turn_other i ok (ran b) s j ne = set_pc_other s.pc i _ j ne
turn_other i ok (returned r) s j ne = set_pc_other s.pc i _ j ne

enter-IsFinal : (w : InitState) → IsFinal w → IsFinal (enter w).0
unfolding enter
enter-IsFinal not_done f = absurd f
enter-IsFinal in_progress f = absurd f
enter-IsFinal done f = tt
enter-IsFinal error f = tt

publish-IsFinal : (b : Bool) → IsFinal (publish b).0
unfolding publish
publish-IsFinal true = tt
publish-IsFinal false = tt

turn-IsFinal :
    (i : ℕ) (ok : Bool) (p : Pc) (s : System) → IsFinal s.state → IsFinal (turn i ok p s).state
unfolding turn
turn-IsFinal i ok idle s f = enter-IsFinal s.state f
turn-IsFinal i ok spinning s f = f
turn-IsFinal i ok initializing s f = f
turn-IsFinal i ok (ran b) s f = publish-IsFinal b
turn-IsFinal i ok (returned r) s f = f

pub returned-IsFinal : (w : InitState) (r : ℕ) → Fits w (returned r) → IsFinal w
returned-IsFinal not_done r fit = fit
returned-IsFinal in_progress r fit = fit
returned-IsFinal done r fit = tt
returned-IsFinal error r fit = tt

poll-cases : (w : InitState) → (poll w ≡ spinning) ⊎ ((r : ℕ) × (poll w ≡ returned r))
unfolding poll
poll-cases not_done = inr (0, refl)
poll-cases in_progress = inl refl
poll-cases done = inr (2, refl)
poll-cases error = inr (0, refl)

pub poll-returned : (w : InitState) → IsFinal w → (r : ℕ) × (poll w ≡ returned r)
unfolding poll
poll-returned not_done f = absurd f
poll-returned in_progress f = absurd f
poll-returned done f = (2, refl)
poll-returned error f = (0, refl)

pub publish-returned : (b : Bool) → (r : ℕ) × ((publish b).1 ≡ returned r)
unfolding publish
publish-returned true = (1, refl)
publish-returned false = (0, refl)

module _ (schedule : ℕ → ℕ × Bool) where
  abbrev pub pc_at : ℕ → ℕ → Pc
  pc_at n i = (after schedule n).pc i

  -- The call of thread `i` returns at turn `n` or later.
  abbrev pub Returns : ℕ → ℕ → Type 0
  Returns n i = (m : ℕ) × (r : ℕ) × (n ≤ m) × ((after schedule m).pc i ≡ returned r)

  pub after_self :
      (n i : ℕ)
      → (schedule n).0 ≡ i
      → pc_at (suc n) i ≡ next (schedule n).1 (after schedule n).state (pc_at n i)
  unfolding after advance
  after_self n i e =
      subst (λ j. pc_at (suc n) j ≡ next (schedule n).1 (after schedule n).state (pc_at n j)) e
        (turn_self (schedule n).0 (schedule n).1 (pc_at n (schedule n).0) (after schedule n))

  pub after_other : (n i : ℕ) → i ≢ (schedule n).0 → pc_at (suc n) i ≡ pc_at n i
  unfolding after advance
  after_other n i ne =
      turn_other (schedule n).0 (schedule n).1 (pc_at n (schedule n).0) (after schedule n) i ne

  pub after-IsFinal :
      (d n m : ℕ) → m ≡ n + d → IsFinal (after schedule n).state → IsFinal (after schedule m).state
  unfolding after advance
  after-IsFinal zero n m e f =
      let same : n ≡ m = omega (arith, e) in subst (λ k. IsFinal (after schedule k).state) same f
  after-IsFinal (suc d) n m e f =
      after-IsFinal d (suc n) m (omega (arith, e))
        (turn-IsFinal (schedule n).0 (schedule n).1 (pc_at n (schedule n).0) (after schedule n) f)

  pub earlier : (n m i : ℕ) → n ≤ m → Returns m i → Returns n i
  earlier n m i le (k, r, le', h) = (k, r, omega (arith, le, le'), h)

  -- A thread that waits goes on waiting until it returns.
  pub still_spinning :
      (d n m i : ℕ) → m ≡ n + d → pc_at n i ≡ spinning → (pc_at m i ≡ spinning) ⊎ Returns n i
  unfolding poll next
  still_spinning zero n m i e h =
      let same : n ≡ m = omega (arith, e) in inl (subst (λ k. pc_at k i ≡ spinning) same h)
  still_spinning (suc d) n m i e h = elim (Bool-cases (i == (schedule n).0)) [
    | inr other ↦ further (
        still_spinning d (suc n) m i (omega (arith, e))
          (after_other n i (ground (arith, other)) ∙ h))
    | inl mine ↦ elim (poll-cases (after schedule n).state) [
      | inl again ↦
          further (
            still_spinning d (suc n) m i (omega (arith, e)) (polled (ground (arith, mine)) ∙ again))
      | inr (r, back) ↦ inr (suc n, r, omega arith, polled (ground (arith, mine)) ∙ back)
    ]
  ]
    where
      polled : (schedule n).0 ≡ i → pc_at (suc n) i ≡ poll (after schedule n).state
      polled mine = after_self n i mine ∙ ap (next (schedule n).1 (after schedule n).state) h

      further : (pc_at m i ≡ spinning) ⊎ Returns (suc n) i → (pc_at m i ≡ spinning) ⊎ Returns n i
      further (inl s) = inl s
      further (inr r) = inr (earlier n (suc n) i (omega arith) r)

  -- The first turn of a thread, at which it is where it was.
  pub first_turn :
      (d n m i : ℕ)
      → m ≡ n + d
      → (schedule m).0 ≡ i
      → (k : ℕ) × (n ≤ k) × ((schedule k).0 ≡ i) × (pc_at k i ≡ pc_at n i)
  first_turn zero n m i e h =
      let same : m ≡ n = omega (arith, e) in
      (n, omega arith, subst (λ k. (schedule k).0 ≡ i) same h, refl)
  first_turn (suc d) n m i e h = elim (Bool-cases (i == (schedule n).0)) [
    | inl mine ↦ (n, omega arith, ground (arith, mine), refl)
    | inr other ↦
        let (k, le, turn_of, same) = first_turn d (suc n) m i (omega (arith, e)) h in
        (k, omega (arith, le), turn_of, same ∙ after_other n i (ground (arith, other)))
  ]
