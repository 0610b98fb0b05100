-- ===== src/Callbacks/Released.antt =====
-- When the callbacks of twapi/base/async.c and the references to their context are released, and when not.
use twapi.Base.{
  ℕ, ◌+◌, ◌%◌, ◌^◌, ◌≡◌, refl, sym, ap, ◌∙◌, ◌≢◌, ◌⊎◌, inl, inr, ◌≤◌, ◌<◌, true, false, Option,
  none, some, [], ◌∷◌, ◌++◌, length, length-append, arith, ◌==◌, Bool-cases,
}
use twapi.Callbacks.Queue.{
  Callback, Place, fresh, sent, waiting, gave_up, owning, left, Slot, System, set_slot, Request,
  queue_callback, put_slot, enqueue, run_callback, finish_event, get_response, give_up,
  release_response, Step, enqueuing, running, finishing, responding, giving_up, releasing, start,
  Steps, here, also,
}
use twapi.Callbacks.Counts.{pending, IsCounted}
use twapi.Callbacks.Counted.{Steps-IsCounted}

abbrev place_of : System → ℕ → Place
place_of s c = (s.slots c).place

-- A thread that gave up has nothing more to do with its callback.
set_slot-place :
    (slots : ℕ → Slot) (d : ℕ) (x : Slot) (c : ℕ)
    → (c ≡ d → x.place ≡ gave_up)
    → (slots c).place ≡ gave_up
    → (set_slot slots d x c).place ≡ gave_up
set_slot-place slots d x c h e = elim (Bool-cases (c == d)) [
  | inl same ↦ rw same (h (ground (arith, same)))
  | inr other ↦ rw other e
]

gave_up-other :
    (s : System) (c d : ℕ) (p : Place)
    → place_of s c ≡ gave_up
    → place_of s d ≡ p
    → p ≢ gave_up
    → c ≢ d
gave_up-other s c d p e e' ne same = ne (sym e' ∙ ap (place_of s) (sym same) ∙ e)

put_slot-place :
    (s : System) (c d : ℕ) (cb : Callback) (q : Place)
    → c ≢ d
    → place_of s c ≡ gave_up
    → place_of (put_slot d cb q s) c ≡ gave_up
put_slot-place s c d cb q ne e = set_slot-place s.slots d _ c (λ same. absurd (ne same)) e

enqueue-place :
    (s : System) (c d : ℕ) (r : Request)
    → c ≢ d
    → place_of s c ≡ gave_up
    → place_of (enqueue d r s) c ≡ gave_up
unfolding enqueue queue_callback
enqueue-place s c d r ne e = elim (Bool-cases r.timeout) [
  | inl t ↦ elim (Bool-cases r.event_created) [
    | inl f ↦ elim (Bool-cases r.is_async) [
      | inl a ↦ rw (t, f, a) (set_slot-place s.slots d _ c (λ same. absurd (ne same)) e)
      | inr a ↦ rw (t, f, a) (set_slot-place s.slots d _ c (λ same. absurd (ne same)) e)
    ]
    | inr f ↦ rw (t, f) (set_slot-place s.slots d _ c (λ same. absurd (ne same)) e)
  ]
  | inr t ↦ elim (Bool-cases r.is_async) [
    | inl a ↦ rw (t, a) (set_slot-place s.slots d _ c (λ same. absurd (ne same)) e)
    | inr a ↦ rw (t, a) (set_slot-place s.slots d _ c (λ same. absurd (ne same)) e)
  ]
]

Step-place : {s t : System} (c : ℕ) → Step s t → place_of s c ≡ gave_up → place_of t c ≡ gave_up
unfolding run_callback finish_event get_response give_up release_response
Step-place {s} c (enqueuing d r e') e =
    enqueue-place s c d r (gave_up-other s c d fresh e e' (λ q. cc)) e
Step-place {s} c (running ok d q eq eh) e =
    set_slot-place s.slots d _ c (λ same. ap (place_of s) (sym same) ∙ e) e
Step-place {s} c (finishing d eh) e =
    set_slot-place s.slots d _ c (λ same. ap (place_of s) (sym same) ∙ e) e
Step-place {s} c (responding true d e' signalled) e =
    put_slot-place s c d _ _ (gave_up-other s c d (waiting true) e e' (λ q. cc)) e
Step-place {s} c (responding false d e' signalled) e =
    put_slot-place s c d _ _ (gave_up-other s c d (waiting false) e e' (λ q. cc)) e
Step-place {s} c (giving_up wants d e') e =
    put_slot-place s c d _ _ (gave_up-other s c d (waiting wants) e e' (λ q. cc)) e
Step-place {s} c (releasing d e') e =
    put_slot-place s c d _ _ (gave_up-other s c d owning e e' (λ q. cc)) e

Steps-place : {s t : System} (c : ℕ) → Steps s t → place_of s c ≡ gave_up → place_of t c ≡ gave_up
Steps-place c here e = e
Steps-place c (also steps step) e = Step-place c step (Steps-place c steps e)

both : {s t u : System} → Steps s t → Steps t u → Steps s u
both steps here = steps
both steps (also more step) = also (both steps more) step

-- Once the wait for a response has timed out or failed, the callback keeps a reference and is never
-- deleted, whatever happens after that.
pub gave_up-leaks :
    (base : ℕ) (s t : System) (c : ℕ)
    → Steps (start base) s
    → place_of s c ≡ gave_up
    → Steps s t
    → (1 ≤ (t.slots c).callback.nrefs) × ((t.slots c).callback.deletions ≡ 0)
gave_up-leaks base s t c reach e more =
    let v = Steps-IsCounted base t c (both reach more) in
    leaked (pending t c) (t.slots c) v (Steps-place c more e)
  where
    leaked :
        (n : ℕ) (x : Slot)
        → IsCounted n x
        → x.place ≡ gave_up
        → (1 ≤ x.callback.nrefs) × (x.callback.deletions ≡ 0)
    leaked n x v h = (omega (arith, rw h at v.refs), rw h at v.deletions)

abbrev handled : Option ℕ → ℕ
handled none = 0
handled (some c) = 1

-- The references that the queue and the handled event have to the context.
abbrev IsReferenced : ℕ → System → Type 0
IsReferenced base s = s.context_refs ≡ (base + (length s.queue + handled s.handling)) % 2 ^ 32

enqueue-IsReferenced :
    (base : ℕ) (s : System) (c : ℕ) (r : Request)
    → IsReferenced base s
    → IsReferenced base (enqueue c r s)
unfolding enqueue queue_callback
enqueue-IsReferenced base s c r h =
    let queued : (s.context_refs + 1) % 2 ^ 32
        ≡ (base + (length (s.queue ++ c ∷ []) + handled s.handling)) % 2 ^ 32 =
      omega (arith, h, length-append s.queue (c ∷ [])) in
    elim (Bool-cases r.timeout) [
      | inl t ↦ elim (Bool-cases r.event_created) [
        | inl f ↦ elim (Bool-cases r.is_async) [
          | inl a ↦ rw (t, f, a) h
          | inr a ↦ rw (t, f, a) queued
        ]
        | inr f ↦ rw (t, f) h
      ]
      | inr t ↦ elim (Bool-cases r.is_async) [ inl a ↦ rw (t, a) h | inr a ↦ rw (t, a) queued ]
    ]

Step-IsReferenced : {s t : System} (base : ℕ) → Step s t → IsReferenced base s → IsReferenced base t
unfolding run_callback finish_event get_response give_up release_response
Step-IsReferenced {s} base (enqueuing d r e') h = enqueue-IsReferenced base s d r h
Step-IsReferenced {s} base (running ok d q eq eh) h =
    let h' : s.context_refs ≡ (base + (1 + length q)) % 2 ^ 32 = omega (arith, rw (eq, eh) at h) in
    omega (arith, h')
Step-IsReferenced {s} base (finishing d eh) h =
    let h' : s.context_refs ≡ (base + (length s.queue + 1)) % 2 ^ 32 = rw eh at h in
    omega (arith, h')
Step-IsReferenced {s} base (responding true d e' signalled) h = h
Step-IsReferenced {s} base (responding false d e' signalled) h = h
Step-IsReferenced {s} base (giving_up wants d e') h = h
Step-IsReferenced {s} base (releasing d e') h = h

Steps-IsReferenced :
    {s t : System} (base : ℕ) → Steps s t → IsReferenced base s → IsReferenced base t
Steps-IsReferenced base here h = h
Steps-IsReferenced base (also steps step) h =
    Step-IsReferenced base step (Steps-IsReferenced base steps h)

-- When the queue is empty and no event is handled, the context, with fewer than 2^32 references, has the references again that it had
-- at the start, and every callback whose thread did not wait, or got its response and is finished
-- with it, has no reference and was deleted exactly once.
pub settled-released :
    (base : ℕ) (s : System)
    → base < 2 ^ 32
    → Steps (start base) s
    → s.queue ≡ []
    → s.handling ≡ none
    → (s.context_refs ≡ base)
      × ((c : ℕ)
          → ((s.slots c).place ≡ sent) ⊎ ((s.slots c).place ≡ left)
          → ((s.slots c).callback.nrefs ≡ 0) × ((s.slots c).callback.deletions ≡ 1))
settled-released base s lt reach eq eh =
    let h = Steps-IsReferenced base reach (omega (arith, lt)) in
    let h' : s.context_refs ≡ (base + (0 + 0)) % 2 ^ 32 = rw (eq, eh) at h in
    (
      omega (arith, h', lt),
      λ c p.
          released (pending s c) (s.slots c) (rw (eq, eh) refl) (Steps-IsCounted base s c reach) p,
    )
  where
    released :
        (n : ℕ) (x : Slot)
        → n ≡ 0
        → IsCounted n x
        → (x.place ≡ sent) ⊎ (x.place ≡ left)
        → (x.callback.nrefs ≡ 0) × (x.callback.deletions ≡ 1)
    released n x e v (inl p) =
        (omega (arith, e, rw p at v.refs), omega (arith, e, rw p at v.deletions))
    released n x e v (inr p) =
        (omega (arith, e, rw p at v.refs), omega (arith, e, rw p at v.deletions))
