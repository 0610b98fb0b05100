-- ===== src/Callbacks/Counted.antt =====
-- The reference counts of the callbacks of twapi/base/async.c.
use twapi.Base.{
  ℕ, suc, ◌+◌, ◌≡◌, refl, sym, subst, inl, inr, Bool, true, false, none, some, List, [], ◌∷◌, ◌++◌,
  arith, ◌==◌, Bool-cases, one_if,
}
use twapi.Callbacks.Queue.{
  Callback, Place, fresh, unable, unsupported, waiting, gave_up, owning, left, Slot, System,
  delete_callback, Request, queue_callback, put_slot, enqueue, run_callback, finish_event,
  get_response, give_up, release_response, Step, enqueuing, running, finishing, responding,
  giving_up, releasing, start, Steps, here, also,
}
use twapi.Callbacks.Counts.{
  pending, IsCounted, busy, count, one_if_other, one_if_self, count-append, slot, change,
  queue-IsCounted, fresh-IsCounted, finish-IsCounted, leave-IsCounted,
}

abbrev AllCounted : System → Type 0
AllCounted s = (c : ℕ) → IsCounted (pending s c) (s.slots c)

-- A thread moves, and the queue stays.
move :
    (s : System) (c : ℕ) (cb : Callback) (p : Place)
    → AllCounted s
    → IsCounted (pending s c) (slot cb p)
    → AllCounted (put_slot c cb p s)
move s c cb p v now = change s.slots c (slot cb p) (pending s) (pending s) (λ d ne. refl) now v

at_place :
    (n : ℕ) (x : Slot) (p : Place) → x.place ≡ p → IsCounted n x → IsCounted n (slot x.callback p)
at_place n x p e v = subst (λ q. IsCounted n (slot x.callback q)) e v

queue_callback-AllCounted :
    (s : System) (c : ℕ) (r : Request) (cb : Callback)
    → AllCounted s
    → pending s c ≡ 0
    → cb.nrefs ≡ 0
    → cb.deletions ≡ 0
    → AllCounted (queue_callback c r cb s)
unfolding queue_callback
queue_callback-AllCounted s c r cb v ep e0 e1 =
    change s.slots c _ (pending s) (λ d. count d (s.queue ++ c ∷ []) + busy d s.handling)
      (λ d ne. omega (arith, count-append d s.queue c, one_if_other d c ne))
      (queue-IsCounted r cb _ true e0 e1
        (omega (arith, count-append c s.queue c, one_if_self c, ep)))
      v

enqueue-AllCounted :
    (s : System) (c : ℕ) (r : Request)
    → (s.slots c).place ≡ fresh
    → AllCounted s
    → AllCounted (enqueue c r s)
unfolding enqueue delete_callback queue_callback
enqueue-AllCounted s c r e v =
    let (e0, e1, e2) = fresh-IsCounted (pending s c) (s.slots c) e (v c) in
    let refused : (cb : Callback)
        → cb.nrefs ≡ 0
        → cb.deletions ≡ 0
        → AllCounted (put_slot c cb unsupported s) =
      λ cb n0 n1.
        move s c cb unsupported v
          (record { refs = omega (arith, n0, e0); once = omega (arith, e0); deletions = n1 }) in
    elim (Bool-cases r.timeout) [
      | inr t ↦ elim (Bool-cases r.is_async) [
        | inl a ↦ rw (t, a) (refused ((s.slots c).callback) e1 e2)
        | inr a ↦
            rw (t, a)
              (rw (queue_callback, t) at
                (queue_callback-AllCounted s c r ((s.slots c).callback) v e0 e1 e2))
      ]
      | inl t ↦ elim (Bool-cases r.event_created) [
        | inr f ↦
            rw (t, f)
              (move s c _ unable v (record {
                refs = omega (arith, e0, e1);
                once = omega (arith, e0);
                deletions = omega (arith, e2);
              }))
        | inl f ↦ elim (Bool-cases r.is_async) [
          | inl a ↦
              rw (t, f, a)
                (refused (record ((s.slots c).callback) { completion_event = some false }) e1 e2)
          | inr a ↦
              rw (t, f, a)
                (rw (queue_callback, t) at
                  (queue_callback-AllCounted s c r
                    (record ((s.slots c).callback) { completion_event = some false }) v e0 e1 e2))
        ]
      ]
    ]

run_callback-AllCounted :
    (s : System) (ok : Bool) (c : ℕ) (q : List ℕ)
    → s.queue ≡ c ∷ q
    → s.handling ≡ none
    → AllCounted s
    → AllCounted (run_callback ok c q s)
unfolding run_callback
run_callback-AllCounted s ok c q eq eh v =
    let same : (d : ℕ) → count d q + one_if (d == c) ≡ pending s d =
      λ d. rw (eq, eh) (omega arith) in
    change s.slots c _ (pending s) (λ d. count d q + one_if (d == c)) (λ d ne. same d)
      (let was = subst (λ n. IsCounted n (s.slots c)) (sym (same c)) (v c) in
        record { refs = was.refs; once = was.once; deletions = was.deletions })
      v

finish_event-AllCounted :
    (s : System) (c : ℕ) → s.handling ≡ some c → AllCounted s → AllCounted (finish_event c s)
unfolding finish_event
finish_event-AllCounted s c eh v =
    let was : (d : ℕ) → pending s d ≡ count d s.queue + one_if (d == c) = λ d. rw eh refl in
    change s.slots c _ (pending s) (λ d. count d s.queue + 0)
      (λ d ne. omega (arith, was d, one_if_other d c ne))
      (finish-IsCounted (count c s.queue + 0) ((s.slots c).callback) ((s.slots c).place) (
        let more : pending s c ≡ suc (count c s.queue + 0) = omega (arith, was c, one_if_self c) in
        subst (λ n. IsCounted n (s.slots c)) more (v c)))
      v

get_response-AllCounted :
    (s : System) (wants : Bool) (c : ℕ)
    → (s.slots c).place ≡ waiting wants
    → AllCounted s
    → AllCounted (get_response wants c s)
unfolding get_response
get_response-AllCounted s true c e v =
    let was = at_place (pending s c) (s.slots c) (waiting true) e (v c) in
    move s c _ owning v (record { refs = was.refs; once = was.once; deletions = was.deletions })
get_response-AllCounted s false c e v =
    let was = at_place (pending s c) (s.slots c) (waiting false) e (v c) in
    move s c _ left v (
      leave-IsCounted (pending s c) _ (waiting false)
        (record { refs = was.refs; once = was.once; deletions = was.deletions }) refl refl refl)

give_up-AllCounted :
    (s : System) (wants : Bool) (c : ℕ)
    → (s.slots c).place ≡ waiting wants
    → AllCounted s
    → AllCounted (give_up c s)
unfolding give_up
give_up-AllCounted s wants c e v =
    let was = at_place (pending s c) (s.slots c) (waiting wants) e (v c) in
    move s c _ gave_up v (record { refs = was.refs; once = was.once; deletions = was.deletions })

release_response-AllCounted :
    (s : System) (c : ℕ)
    → (s.slots c).place ≡ owning
    → AllCounted s
    → AllCounted (release_response c s)
unfolding release_response
release_response-AllCounted s c e v = move s c _ left v (
    leave-IsCounted (pending s c) ((s.slots c).callback) owning
      (at_place (pending s c) (s.slots c) owning e (v c)) refl refl refl)

Step-AllCounted : {s t : System} → Step s t → AllCounted s → AllCounted t
Step-AllCounted {s} (enqueuing c r e) v = enqueue-AllCounted s c r e v
Step-AllCounted {s} (running ok c q eq eh) v = run_callback-AllCounted s ok c q eq eh v
Step-AllCounted {s} (finishing c eh) v = finish_event-AllCounted s c eh v
Step-AllCounted {s} (responding wants c e signalled) v = get_response-AllCounted s wants c e v
Step-AllCounted {s} (giving_up wants c e) v = give_up-AllCounted s wants c e v
Step-AllCounted {s} (releasing c e) v = release_response-AllCounted s c e v

start-AllCounted : (base : ℕ) → AllCounted (start base)
start-AllCounted base = λ c. record { refs = refl; once = omega arith; deletions = refl }

Steps-AllCounted : {s t : System} → Steps s t → AllCounted s → AllCounted t
Steps-AllCounted here v = v
Steps-AllCounted (also steps step) v = Step-AllCounted step (Steps-AllCounted steps v)

-- In every order of the steps, the reference count of a callback is the number of its places on the
-- queue, in the event that is handled and with a thread that waits, gave up or has the response, and
-- it was deleted as often as its place says.
pub Steps-IsCounted :
    (base : ℕ) (s : System) (c : ℕ) → Steps (start base) s → IsCounted (pending s c) (s.slots c)
Steps-IsCounted base s c steps = Steps-AllCounted steps (start-AllCounted base) c
