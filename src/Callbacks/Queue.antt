-- ===== src/Callbacks/Queue.antt =====
-- `TwapiEnqueueCallback`, `Twapi_TclEventProc`, `TwapiCallbackDelete` and `TwapiCallbackUnref` of
-- twapi/base/async.c, and the reference count of the context in twapi/base/twapi.c: callbacks that
-- threads hand over to the thread of one interpreter.
use twapi.Base.{
  ℕ, ◌+◌, ◌-◌, ◌%◌, ◌^◌, ◌≡◌, Bool, true, false, ◌||◌, Option, none, some, List, [], ◌∷◌, ◌++◌, leb,
  ◌==◌, if◌then◌else◌,
}

-- `TwapiCallback`. A `LONG` is given by its bits. `completion_event` is none, or an event that is
-- signalled or not; `deletions` counts the calls of `TwapiCallbackDelete`.
pub record Callback : Type 0 where
  pub nrefs : ℕ
  pub completion_event : Option Bool
  pub winerr : ℕ
  pub has_context : Bool
  pub deletions : ℕ

-- `TwapiCallbackNew`
abbrev pub new_callback : Callback
new_callback = record {
  nrefs = 0;
  completion_event = none;
  winerr = 0;
  has_context = false;
  deletions = 0;
}

-- Where the thread that handed over a callback is: it has not yet; the event could not be made; the
-- method is not supported; it does not wait; it waits, and may want the response; it gave up; it
-- has the response; it is finished with the callback.
pub data Place : Type 0 where
  fresh unable unsupported sent : Place
  waiting : Bool → Place
  gave_up owning left : Place

pub record Slot : Type 0 where
  pub callback : Callback
  pub place : Place

-- The callbacks, the Tcl event queue of the interpreter's thread, the event it is in the middle of,
-- and the reference count of the context.
pub record System : Type 0 where
  pub slots : ℕ → Slot
  pub queue : List ℕ
  pub handling : Option ℕ
  pub context_refs : ℕ

abbrev pub set_slot : (ℕ → Slot) → ℕ → Slot → ℕ → Slot
set_slot slots c x d = if d == c then x else slots d

-- `InterlockedExchangeAdd` with `-decr`.
abbrev pub subtract : ℕ → ℕ → ℕ
subtract n decr = (n + (2 ^ 32 - decr)) % 2 ^ 32

-- `<=` on `LONG`s, for a right side that is not negative.
abbrev pub at_most : ℕ → ℕ → Bool
at_most n m = leb (2 ^ 31) n || leb n m

-- `TwapiCallbackDelete`: the event is closed; nothing is freed.
unfoldable pub delete_callback : Callback → Callback
delete_callback cb = record cb { deletions = cb.deletions + 1 }

unfoldable pub unref : ℕ → Callback → Callback
unfolding delete_callback
unref decr cb =
    let cb' = record cb { nrefs = subtract cb.nrefs decr } in
    if at_most cb.nrefs decr then delete_callback cb' else cb'

-- `enqueue_method` is `TWAPI_ENQUEUE_ASYNC` or not, `timeout` is 0 or not, and `responseP` is null or
-- not; `CreateEvent` succeeds or not.
pub record Request : Type 0 where
  pub is_async : Bool
  pub timeout : Bool
  pub wants_response : Bool
  pub event_created : Bool

-- The callback is placed on the queue.
unfoldable pub queue_callback : ℕ → Request → Callback → System → System
queue_callback c r cb s = record {
  slots = set_slot s.slots c (record {
    callback = record cb {
      nrefs = (cb.nrefs + (if r.timeout then 2 else 1)) % 2 ^ 32;
      has_context = true;
    };
    place = if r.timeout then waiting r.wants_response else sent;
  });
  queue = s.queue ++ c ∷ [];
  handling = s.handling;
  context_refs = (s.context_refs + 1) % 2 ^ 32;
}

abbrev pub put_slot : ℕ → Callback → Place → System → System
put_slot c cb p s = record s { slots = set_slot s.slots c (record { callback = cb; place = p }) }

-- `TwapiEnqueueCallback` up to its wait.
unfoldable pub enqueue : ℕ → Request → System → System
unfolding delete_callback queue_callback
enqueue c r s =
    let cb = (s.slots c).callback in
    let cb' = if r.timeout then record cb { completion_event = some false } else cb in
    if r.timeout
    then (if r.event_created
        then (if r.is_async then put_slot c cb' unsupported s else queue_callback c r cb' s)
        else put_slot c (delete_callback cb) unable s)
    else (if r.is_async then put_slot c cb' unsupported s else queue_callback c r cb' s)

abbrev pub signal : Option Bool → Option Bool
signal none = none
signal (some _) = some true

-- `Twapi_TclEventProc` for the first event of the queue, up to `SetEvent`. `ok` is whether the callback
-- function succeeds; ERROR_BAD_ARGUMENTS is 160.
unfoldable pub run_callback : Bool → ℕ → List ℕ → System → System
run_callback ok c q s =
    let cb = (s.slots c).callback in
    record {
      slots = set_slot s.slots c (record {
        callback = record cb {
          winerr = if ok then cb.winerr else 160;
          completion_event = signal cb.completion_event;
        };
        place = (s.slots c).place;
      });
      queue = q;
      handling = some c;
      context_refs = s.context_refs;
    }

-- The rest of it: the references of the queue are released.
unfoldable pub finish_event : ℕ → System → System
unfolding unref
finish_event c s = record {
  slots = set_slot s.slots c (record {
    callback = unref 1 (record ((s.slots c).callback) { has_context = false });
    place = (s.slots c).place;
  });
  queue = s.queue;
  handling = none;
  context_refs = subtract s.context_refs 1;
}

-- The event is signalled, and reset: the thread keeps the callback as the response, or lets go of it.
unfoldable pub get_response : Bool → ℕ → System → System
unfolding unref
get_response wants c s =
    let cb = record ((s.slots c).callback) { completion_event = some false } in
    if wants then put_slot c cb owning s else put_slot c (unref 1 cb) left s

-- The wait times out or fails.
unfoldable pub give_up : ℕ → System → System
give_up c s = put_slot c ((s.slots c).callback) gave_up s

-- The caller of `TwapiEnqueueCallback` is done with the response.
unfoldable pub release_response : ℕ → System → System
unfolding unref
release_response c s = put_slot c (unref 1 ((s.slots c).callback)) left s

pub data Step (s : System) : System → Type 0 where
  enqueuing : (c : ℕ) (r : Request) → (s.slots c).place ≡ fresh → Step s (enqueue c r s)
  running :
      (ok : Bool) (c : ℕ) (q : List ℕ)
      → s.queue ≡ c ∷ q
      → s.handling ≡ none
      → Step s (run_callback ok c q s)
  finishing : (c : ℕ) → s.handling ≡ some c → Step s (finish_event c s)
  responding :
      (wants : Bool) (c : ℕ)
      → (s.slots c).place ≡ waiting wants
      → (s.slots c).callback.completion_event ≡ some true
      → Step s (get_response wants c s)
  giving_up : (wants : Bool) (c : ℕ) → (s.slots c).place ≡ waiting wants → Step s (give_up c s)
  releasing : (c : ℕ) → (s.slots c).place ≡ owning → Step s (release_response c s)

-- No callback is handed over yet; others have `base` references to the context.
abbrev pub start : ℕ → System
start base = record {
  slots = λ c. record { callback = new_callback; place = fresh };
  queue = [];
  handling = none;
  context_refs = base;
}

pub data Steps (s : System) : System → Type 0 where
  here : Steps s s
  also : {t u : System} → Steps s t → Step t u → Steps s u
