-- ===== src/OneTimeInit/Places.antt =====
-- Where the threads in `TwapiDoOneTimeInit` of twapi/base/util.c can be.
use twapi.Base.{
  ℕ, ◌≡◌, refl, ◌≢◌, sym, subst, inl, inr, Bool, true, false, List, [], ◌∷◌, arith, ◌==◌,
  Bool-cases, if◌then◌else◌,
}
use twapi.OneTimeInit.Threads.{
  InitState, not_done, in_progress, done, error, Pc, idle, spinning, initializing, ran, returned,
  System, set_pc, publish,
}

-- Where a thread can be in a state.
abbrev pub Fits : InitState → Pc → Type 0
Fits not_done idle = Unit
Fits not_done spinning = ⊥
Fits not_done initializing = ⊥
Fits not_done (ran b) = ⊥
Fits not_done (returned r) = ⊥
Fits in_progress idle = Unit
Fits in_progress spinning = Unit
Fits in_progress initializing = Unit
Fits in_progress (ran b) = Unit
Fits in_progress (returned r) = ⊥
Fits done idle = Unit
Fits done spinning = Unit
Fits done initializing = ⊥
Fits done (ran b) = ⊥
Fits done (returned r) = r ≢ 0
Fits error idle = Unit
Fits error spinning = Unit
Fits error initializing = ⊥
Fits error (ran b) = ⊥
Fits error (returned r) = r ≡ 0

-- The calls of `fn` so far, as the thread that makes them sees it.
abbrev pub Owns : Pc → List Bool → Type 0
Owns idle runs = ⊥
Owns spinning runs = ⊥
Owns initializing runs = runs ≡ []
Owns (ran b) runs = runs ≡ b ∷ []
Owns (returned r) runs = ⊥

abbrev pub IsBusy : Pc → Type 0
IsBusy idle = ⊥
IsBusy spinning = ⊥
IsBusy initializing = Unit
IsBusy (ran b) = Unit
IsBusy (returned r) = ⊥

-- One thread owns the initialization while it is in progress; before, `fn` was not called, and after,
-- once.
abbrev pub Runs : InitState → (ℕ → Pc) → List Bool → Type 0
Runs not_done pc runs = runs ≡ []
Runs in_progress pc runs = (j : ℕ) × Owns (pc j) runs × ((i : ℕ) → IsBusy (pc i) → i ≡ j)
Runs done pc runs = runs ≡ true ∷ []
Runs error pc runs = runs ≡ false ∷ []

pub record IsValid (s : System) : Type 0 where
  pub fits : (i : ℕ) → Fits s.state (s.pc i)
  pub runs : Runs s.state s.pc s.runs

pub set_pc_all :
    (P : ℕ → Pc → Type 0) (pc : ℕ → Pc) (i : ℕ) (p : Pc)
    → P i p
    → ((j : ℕ) → j ≢ i → P j (pc j))
    → (j : ℕ) → P j (set_pc pc i p j)
set_pc_all P pc i p hp h j = elim (Bool-cases (j == i)) [
  | inl same ↦
      subst (λ b. P j (if b then p else pc j)) (sym same)
        (subst (λ k. P k p) (ground (arith, same)) hp)
  | inr other ↦ subst (λ b. P j (if b then p else pc j)) (sym other) (h j (ground (arith, other)))
]

pub set_pc_self : (pc : ℕ → Pc) (i : ℕ) (p : Pc) → set_pc pc i p i ≡ p
set_pc_self pc i p = let same : (i == i) ≡ true = ground arith in rw same refl

pub set_pc_other : (pc : ℕ → Pc) (i : ℕ) (p : Pc) (j : ℕ) → j ≢ i → set_pc pc i p j ≡ pc j
set_pc_other pc i p j ne = let other : (j == i) ≡ false = ground (arith, ne) in rw other refl

pub Owns-IsBusy : (p : Pc) (runs : List Bool) → Owns p runs → IsBusy p
Owns-IsBusy initializing runs h = tt
Owns-IsBusy (ran b) runs h = tt
Owns-IsBusy idle runs h = h
Owns-IsBusy spinning runs h = h
Owns-IsBusy (returned r) runs h = h

pub first-Fits : (p : Pc) → Fits not_done p → Fits in_progress p
first-Fits idle h = tt
first-Fits spinning h = tt
first-Fits initializing h = tt
first-Fits (ran b) h = tt
first-Fits (returned r) h = h

pub first-IsBusy : (p : Pc) → Fits not_done p → ¬ IsBusy p
first-IsBusy idle h = λ b. b
first-IsBusy spinning h = λ b. b
first-IsBusy initializing h = λ b. h
first-IsBusy (ran b) h = λ c. h
first-IsBusy (returned r) h = λ b. b

pub last-Fits : (b : Bool) (p : Pc) → Fits in_progress p → ¬ IsBusy p → Fits (publish b).0 p
unfolding publish
last-Fits true idle h n = tt
last-Fits true spinning h n = tt
last-Fits true initializing h n = n tt
last-Fits true (ran c) h n = n tt
last-Fits true (returned r) h n = absurd h
last-Fits false idle h n = tt
last-Fits false spinning h n = tt
last-Fits false initializing h n = n tt
last-Fits false (ran c) h n = n tt
last-Fits false (returned r) h n = absurd h

pub idle-Fits : (w : InitState) → Fits w idle
idle-Fits not_done = tt
idle-Fits in_progress = tt
idle-Fits done = tt
idle-Fits error = tt

-- A thread that is not busy moves to where it is not busy either.
module _ (pc : ℕ → Pc) (runs : List Bool) (i : ℕ) (p : Pc) where
  IsBusy-set_pc :
      (j : ℕ)
      → ¬ IsBusy p
      → ((k : ℕ) → IsBusy (pc k) → k ≡ j)
      → (k : ℕ) → IsBusy (set_pc pc i p k)
      → k ≡ j
  IsBusy-set_pc j n only =
      set_pc_all (λ k q. IsBusy q → k ≡ j) pc i p (λ b. absurd (n b)) (λ k ne. only k)

  pub Runs-set_pc :
      (w : InitState) → ¬ IsBusy (pc i) → ¬ IsBusy p → Runs w pc runs → Runs w (set_pc pc i p) runs
  Runs-set_pc not_done before now h = h
  Runs-set_pc done before now h = h
  Runs-set_pc error before now h = h
  Runs-set_pc in_progress before now (j, owns, only) =
      let ne : j ≢ i = λ e. before (subst (λ k. IsBusy (pc k)) e (Owns-IsBusy (pc j) runs owns)) in
      (j, subst (λ q. Owns q runs) (sym (set_pc_other pc i p j ne)) owns, IsBusy-set_pc j now only)

abbrev pub system : InitState → (ℕ → Pc) → List Bool → System
system w pc runs = record { state = w; pc = pc; runs = runs }
