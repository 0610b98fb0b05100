-- ===== src/OneTimeInit/Returns.antt =====
-- The loop of `TwapiDoOneTimeInit` of twapi/base/util.c ends when every thread keeps getting its turn.
use twapi.Base.{
  ℕ, zero, suc, ◌-◌, ◌≡◌, refl, ◌≢◌, sym, ap, ◌∙◌, subst, ◌⊎◌, inl, inr, ◌≤◌, ◌<◌, Bool, arith,
  ◌==◌, Bool-cases,
}
use twapi.OneTimeInit.Threads.{
  InitState, not_done, in_progress, done, error, Pc, idle, spinning, initializing, ran, returned,
  enter, after,
}
use twapi.OneTimeInit.Places.{Fits, Owns, Runs}
use twapi.OneTimeInit.Once.{after-IsValid}
use twapi.OneTimeInit.Turns.{
  next, IsFinal, returned-IsFinal, poll-returned, publish-returned, pc_at, after_self, after_other,
  after-IsFinal, earlier, still_spinning, first_turn, Returns,
}

module _ (schedule : ℕ → ℕ × Bool) where
  module _ (bound : ℕ)
      (fair : (n i : ℕ) → i < bound → (m : ℕ) × (n ≤ m) × ((schedule m).0 ≡ i)) where
    -- The next turn of a thread.
    next_turn :
        (n i : ℕ)
        → i < bound
        → (k : ℕ) × (n ≤ k)
          × (pc_at schedule (suc k) i
              ≡ next (schedule k).1 (after schedule k).state (pc_at schedule n i))
    next_turn n i lt =
        let (m, le, e) = fair n i lt in
        let (k, le', mine, same) = first_turn schedule (m - n) n m i (omega (arith, le)) e in
        (
          k,
          le',
          after_self schedule k i mine ∙ ap (next (schedule k).1 (after schedule k).state) same,
        )

    ran-Returns :
        (n i : ℕ) (b : Bool) → i < bound → pc_at schedule n i ≡ ran b → Returns schedule n i
    unfolding next
    ran-Returns n i b lt h =
        let (k, le, e) = next_turn n i lt in
        let (r, back) = publish-returned b in
        (
          suc k,
          r,
          omega (arith, le),
          e ∙ ap (next (schedule k).1 (after schedule k).state) h ∙ back,
        )

    initializing-Returns :
        (n i : ℕ) → i < bound → pc_at schedule n i ≡ initializing → Returns schedule n i
    unfolding next
    initializing-Returns n i lt h =
        let (k, le, e) = next_turn n i lt in
        earlier schedule n (suc k) i (omega (arith, le)) (
          ran-Returns (suc k) i (schedule k).1 lt
            (e ∙ ap (next (schedule k).1 (after schedule k).state) h))

    final-Returns :
        (n i : ℕ)
        → i < bound
        → pc_at schedule n i ≡ spinning
        → IsFinal (after schedule n).state
        → Returns schedule n i
    unfolding next
    final-Returns n i lt h f =
        let (k, le, e) = next_turn n i lt in
        let (r, back) =
          poll-returned (after schedule k).state
            (after-IsFinal schedule (k - n) n k (omega (arith, le)) f) in
        (
          suc k,
          r,
          omega (arith, le),
          e ∙ ap (next (schedule k).1 (after schedule k).state) h ∙ back,
        )

    owner-Returns :
        (n j : ℕ) (p : Pc)
        → j < bound
        → pc_at schedule n j ≡ p
        → Owns p (after schedule n).runs
        → Returns schedule n j
    owner-Returns n j initializing lt e owns = initializing-Returns n j lt e
    owner-Returns n j (ran b) lt e owns = ran-Returns n j b lt e
    owner-Returns n j idle lt e owns = absurd owns
    owner-Returns n j spinning lt e owns = absurd owns
    owner-Returns n j (returned r) lt e owns = absurd owns

    module _ (known : (m : ℕ) → (schedule m).0 < bound) where
      -- A thread that never had a turn is outside.
      known_or_idle : (n i : ℕ) → (i < bound) ⊎ (pc_at schedule n i ≡ idle)
      unfolding after
      known_or_idle zero i = inr refl
      known_or_idle (suc n) i = elim (Bool-cases (i == (schedule n).0)) [
        | inl mine ↦ inl (ground (arith, mine, known n))
        | inr other ↦ elim (known_or_idle n i) [
          | inl lt ↦ inl lt
          | inr e ↦ inr (after_other schedule n i (ground (arith, other)) ∙ e)
        ]
      ]

      owner-lt : (n j : ℕ) → Owns (pc_at schedule n j) (after schedule n).runs → j < bound
      owner-lt n j owns = elim (known_or_idle n j) [
        | inl lt ↦ lt
        | inr e ↦ absurd (subst (λ p. Owns p (after schedule n).runs) e owns)
      ]

      spinning-Returns :
          (n i : ℕ) (w : InitState)
          → i < bound
          → pc_at schedule n i ≡ spinning
          → (after schedule n).state ≡ w
          → Fits w spinning
          → Runs w (after schedule n).pc (after schedule n).runs
          → Returns schedule n i
      spinning-Returns n i not_done lt h ew fit v = absurd fit
      spinning-Returns n i done lt h ew fit v = final-Returns n i lt h (subst IsFinal (sym ew) tt)
      spinning-Returns n i error lt h ew fit v = final-Returns n i lt h (subst IsFinal (sym ew) tt)
      spinning-Returns n i in_progress lt h ew fit (j, owns, only) =
          let (m, r, le, e) =
            owner-Returns n j (pc_at schedule n j) (owner-lt n j owns) refl owns in
          elim (still_spinning schedule (m - n) n m i (omega (arith, le)) h) [
            | inr back ↦ back
            | inl again ↦ earlier schedule n m i le (
                final-Returns m i lt again (
                  returned-IsFinal (after schedule m).state r
                    (subst (Fits (after schedule m).state) e ((after-IsValid schedule m).fits j))))
          ]

      inside-Returns :
          (n i : ℕ) (p : Pc) → i < bound → pc_at schedule n i ≡ p → p ≢ idle → Returns schedule n i
      inside-Returns n i idle lt e ne = absurd (ne refl)
      inside-Returns n i spinning lt e ne =
          let v = after-IsValid schedule n in
          spinning-Returns n i (after schedule n).state lt e refl
            (subst (Fits (after schedule n).state) e (v.fits i)) v.runs
      inside-Returns n i initializing lt e ne = initializing-Returns n i lt e
      inside-Returns n i (ran b) lt e ne = ran-Returns n i b lt e
      inside-Returns n i (returned r) lt e ne = (n, r, omega arith, e)

      entered : (w : InitState) → (enter w).1 ≢ idle
      unfolding enter
      entered not_done = λ q. cc
      entered in_progress = λ q. cc
      entered done = λ q. cc
      entered error = λ q. cc

      all-Returns : (n i : ℕ) (p : Pc) → i < bound → pc_at schedule n i ≡ p → Returns schedule n i
      unfolding next
      all-Returns n i idle lt e =
          let (k, le, e1) = next_turn n i lt in
          earlier schedule n (suc k) i (omega (arith, le)) (
            inside-Returns (suc k) i (enter (after schedule k).state).1 lt
              (e1 ∙ ap (next (schedule k).1 (after schedule k).state) e)
              (entered (after schedule k).state))
      all-Returns n i spinning lt e = inside-Returns n i spinning lt e (λ q. cc)
      all-Returns n i initializing lt e = inside-Returns n i initializing lt e (λ q. cc)
      all-Returns n i (ran b) lt e = inside-Returns n i (ran b) lt e (λ q. cc)
      all-Returns n i (returned r) lt e = inside-Returns n i (returned r) lt e (λ q. cc)

-- When finitely many threads take turns and each of them always gets another one, every call returns:
-- no thread waits in the loop for ever, whether the function succeeds or fails.
pub calls-Returns :
    (schedule : ℕ → ℕ × Bool) (bound : ℕ)
    → ((m : ℕ) → (schedule m).0 < bound)
    → ((n i : ℕ) → i < bound → (m : ℕ) × (n ≤ m) × ((schedule m).0 ≡ i))
    → (n i : ℕ) → i < bound
    → Returns schedule n i
calls-Returns schedule bound known fair n i lt =
    all-Returns schedule bound fair known n i ((after schedule n).pc i) lt refl
