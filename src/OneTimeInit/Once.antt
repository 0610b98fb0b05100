-- ===== src/OneTimeInit/Once.antt =====
-- What the threads in `TwapiDoOneTimeInit` of twapi/base/util.c find, in any order of their turns.
use twapi.Base.{ℕ, zero, suc, ◌≡◌, refl, ◌≢◌, sym, subst, Bool, true, false, List, [], ◌∷◌, ap, ◌∙◌}
use twapi.OneTimeInit.Threads.{
  InitState, not_done, in_progress, done, error, Pc, idle, spinning, initializing, ran, returned,
  System, set_pc, enter, poll, publish, turn, advance, after,
}
use twapi.OneTimeInit.Places.{
  Fits, Owns, IsBusy, Runs, IsValid, set_pc_self, set_pc_all, first-Fits, first-IsBusy, last-Fits,
  idle-Fits, Runs-set_pc, system,
}

module _ (pc : ℕ → Pc) (runs : List Bool) (i : ℕ) where
  -- The thread moves, and the state stays.
  moved :
      (w : InitState) (p q : Pc)
      → pc i ≡ p
      → ¬ IsBusy p
      → ¬ IsBusy q
      → Fits w q
      → IsValid (system w pc runs)
      → IsValid (system w (set_pc pc i q) runs)
  moved w p q e before now fit v = record {
    fits = set_pc_all (λ j. Fits w) pc i q fit (λ j ne. v.fits j);
    runs = Runs-set_pc pc runs i q w (subst (λ x. ¬ IsBusy x) (sym e) before) now v.runs;
  }

  -- The thread is the first.
  started :
      IsValid (system not_done pc runs)
      → IsValid (system in_progress (set_pc pc i initializing) runs)
  started v = record {
    fits =
        set_pc_all (λ j. Fits in_progress) pc i initializing tt
          (λ j ne. first-Fits (pc j) (v.fits j));
    runs = (
      i,
      subst (λ q. Owns q runs) (sym (set_pc_self pc i initializing)) v.runs,
      set_pc_all (λ k q. IsBusy q → k ≡ i) pc i initializing (λ b. refl)
          (λ k ne b. absurd (first-IsBusy (pc k) (v.fits k) b)),
    );
  }

  called :
      (ok : Bool)
      → pc i ≡ initializing
      → IsValid (system in_progress pc runs)
      → IsValid (system in_progress (set_pc pc i (ran ok)) (ok ∷ runs))
  called ok e v =
      let (j, owns, only) = v.runs in
      let mine : i ≡ j = only i (subst IsBusy (sym e) tt) in
      let none_yet : runs ≡ [] = subst (λ q. Owns q runs) (ap pc (sym mine) ∙ e) owns in
      record {
        fits = set_pc_all (λ j. Fits in_progress) pc i (ran ok) tt (λ k ne. v.fits k);
        runs = (
          i,
          subst (λ q. Owns q (ok ∷ runs)) (sym (set_pc_self pc i (ran ok)))
              (ap (λ l. ok ∷ l) none_yet),
          set_pc_all (λ k q. IsBusy q → k ≡ i) pc i (ran ok) (λ b. refl)
              (λ k ne b. only k b ∙ sym mine),
        );
      }

  finished :
      (b : Bool)
      → pc i ≡ ran b
      → IsValid (system in_progress pc runs)
      → IsValid (system (publish b).0 (set_pc pc i (publish b).1) runs)
  unfolding publish
  finished b e v =
      let (j, owns, only) = v.runs in
      let mine : i ≡ j = only i (subst IsBusy (sym e) tt) in
      let once : runs ≡ b ∷ [] = subst (λ q. Owns q runs) (ap pc (sym mine) ∙ e) owns in
      record {
        fits =
            set_pc_all (λ j. Fits (publish b).0) pc i (publish b).1 (fit b)
              (λ k ne. last-Fits b (pc k) (v.fits k) (λ busy. ne (only k busy ∙ sym mine)));
        runs = counted b once;
      }
    where
      fit : (c : Bool) → Fits (publish c).0 (publish c).1
      fit true = λ q. cc
      fit false = refl

      counted : (c : Bool) → runs ≡ c ∷ [] → Runs (publish c).0 (set_pc pc i (publish c).1) runs
      counted true h = h
      counted false h = h

  turn-IsValid :
      (ok : Bool) (p : Pc) (w : InitState)
      → pc i ≡ p
      → Fits w p
      → IsValid (system w pc runs)
      → IsValid (turn i ok p (system w pc runs))
  unfolding turn enter poll
  turn-IsValid ok idle not_done e fit v = started v
  turn-IsValid ok idle in_progress e fit v =
      moved in_progress idle spinning e (λ b. b) (λ b. b) tt v
  turn-IsValid ok idle done e fit v = moved done idle (returned 3) e (λ b. b) (λ b. b) (λ q. cc) v
  turn-IsValid ok idle error e fit v = moved error idle (returned 0) e (λ b. b) (λ b. b) refl v
  turn-IsValid ok spinning not_done e fit v = absurd fit
  turn-IsValid ok spinning in_progress e fit v =
      moved in_progress spinning spinning e (λ b. b) (λ b. b) tt v
  turn-IsValid ok spinning done e fit v =
      moved done spinning (returned 2) e (λ b. b) (λ b. b) (λ q. cc) v
  turn-IsValid ok spinning error e fit v =
      moved error spinning (returned 0) e (λ b. b) (λ b. b) refl v
  turn-IsValid ok initializing not_done e fit v = absurd fit
  turn-IsValid ok initializing in_progress e fit v = called ok e v
  turn-IsValid ok initializing done e fit v = absurd fit
  turn-IsValid ok initializing error e fit v = absurd fit
  turn-IsValid ok (ran b) not_done e fit v = absurd fit
  turn-IsValid ok (ran b) in_progress e fit v = finished b e v
  turn-IsValid ok (ran b) done e fit v = absurd fit
  turn-IsValid ok (ran b) error e fit v = absurd fit
  turn-IsValid ok (returned r) w e fit v =
      moved w (returned r) idle e (λ b. b) (λ b. b) (idle-Fits w) v

advance-IsValid : (t : ℕ × Bool) (s : System) → IsValid s → IsValid (advance t s)
unfolding advance
advance-IsValid (i, ok) s v = turn-IsValid s.pc s.runs i ok (s.pc i) s.state refl (v.fits i) v

pub after-IsValid : (schedule : ℕ → ℕ × Bool) (n : ℕ) → IsValid (after schedule n)
unfolding after
after-IsValid schedule zero = record { fits = λ i. tt; runs = refl }
after-IsValid schedule (suc n) =
    advance-IsValid (schedule n) (after schedule n) (after-IsValid schedule n)

-- Whatever the order of the turns, a thread for which the call returned a value other than 0 finds
-- that the function was called exactly once, and succeeded; a thread for which it returned 0 finds
-- that it was called exactly once, and failed.
pub returned-runs :
    (schedule : ℕ → ℕ × Bool) (n i r : ℕ)
    → (after schedule n).pc i ≡ returned r
    → ((r ≢ 0 → (after schedule n).runs ≡ true ∷ [])
        × (r ≡ 0 → (after schedule n).runs ≡ false ∷ []))
returned-runs schedule n i r h =
    let v = after-IsValid schedule n in
    settled (after schedule n).state (subst (Fits (after schedule n).state) h (v.fits i)) v.runs
  where
    settled :
        (w : InitState)
        → Fits w (returned r)
        → Runs w (after schedule n).pc (after schedule n).runs
        → ((r ≢ 0 → (after schedule n).runs ≡ true ∷ [])
            × (r ≡ 0 → (after schedule n).runs ≡ false ∷ []))
    settled not_done fit h = absurd fit
    settled in_progress fit h = absurd fit
    settled done fit h = (λ ne. h, λ e. absurd (fit e))
    settled error fit h = (λ ne. absurd (ne fit), λ e. h)
