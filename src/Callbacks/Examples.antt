-- ===== src/Callbacks/Examples.antt =====
-- Callbacks of twapi/base/async.c, and the theorems at them.
use twapi.Base.{ℕ, ◌≡◌, refl, ◌≤◌, ◌⊎◌, true, false, [], arith}
use twapi.Callbacks.Queue.{
  sent, left, System, Request, enqueue, run_callback, finish_event, get_response, give_up,
  release_response, enqueuing, running, finishing, responding, giving_up, releasing, start, Steps,
  here, also,
}
use twapi.Callbacks.Counts.{pending, IsCounted}
use twapi.Callbacks.Counted.{Steps-IsCounted}
use twapi.Callbacks.Released.{gave_up-leaks, settled-released}

-- A thread waits for a response, and wants it.
abbrev ask : Request
ask = record { is_async = false; timeout = true; wants_response = true; event_created = true }

abbrev asked : System
unfolding enqueue
asked = enqueue 0 ask (start 1)

abbrev signalled : System
unfolding run_callback
signalled = run_callback true 0 [] asked

abbrev answered : System
unfolding get_response
answered = get_response true 0 signalled

abbrev finished : System
unfolding finish_event
finished = finish_event 0 answered

abbrev released : System
unfolding release_response
released = release_response 0 finished

-- The thread takes the response before the event is finished.
steps : Steps (start 1) released
unfolding enqueue run_callback get_response finish_event release_response
steps =
    also
      (also
        (also (also (also here (enqueuing 0 ask refl)) (running true 0 [] refl refl))
          (responding true 0 refl refl))
        (finishing 0 refl))
      (releasing 0 refl)

abbrev impatient : System
unfolding give_up
impatient = give_up 0 asked

abbrev late : System
unfolding finish_event run_callback
late = finish_event 0 (run_callback true 0 [] impatient)

Steps-impatient : Steps (start 1) impatient
unfolding enqueue give_up
Steps-impatient = also (also here (enqueuing 0 ask refl)) (giving_up true 0 refl)

Steps-late : Steps impatient late
unfolding enqueue give_up run_callback finish_event
Steps-late = also (also here (running true 0 [] refl refl)) (finishing 0 refl)

Steps-IsCounted_example : IsCounted (pending released 0) (released.slots 0)
Steps-IsCounted_example = Steps-IsCounted 1 released 0 steps

gave_up-leaks_example :
    (1 ≤ (late.slots 0).callback.nrefs) × ((late.slots 0).callback.deletions ≡ 0)
unfolding enqueue give_up
gave_up-leaks_example = gave_up-leaks 1 impatient late 0 Steps-impatient refl Steps-late

settled-released_example :
    (released.context_refs ≡ 1)
    × ((c : ℕ)
        → ((released.slots c).place ≡ sent) ⊎ ((released.slots c).place ≡ left)
        → ((released.slots c).callback.nrefs ≡ 0) × ((released.slots c).callback.deletions ≡ 1))
unfolding enqueue run_callback get_response finish_event release_response
settled-released_example = settled-released 1 released (omega arith) steps refl refl
