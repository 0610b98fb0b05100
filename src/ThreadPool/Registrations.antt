-- ===== src/ThreadPool/Registrations.antt =====
-- The registrations of handles with the thread pool of Windows, in twapi/base/threadpool.c, and their
-- release in `Twapi_InterpContextCleanup` of twapi/base/twapi.c. All of it runs in the thread of one
-- interpreter. A handle is a number, and none is `INVALID_HANDLE_VALUE`.
use twapi.Base.{
  ℕ, zero, suc, ◌+◌, ◌-◌, ◌%◌, ◌^◌, Bool, true, false, Option, none, some, List, [], ◌∷◌, ◌==◌,
  if◌then◌else◌, one_if,
}

-- `TwapiThreadPoolRegistration`; `tp_handle` is whether it is valid, and `has_context` whether `ticP` is
-- not null.
pub record Registration : Type 0 where
  pub id : ℕ
  pub handle : Option ℕ
  pub tp_handle : Bool
  pub has_context : Bool
  pub nrefs : ℕ

-- The fields of the context that are used, and what was done: the registrations that were freed and the
-- calls of the unregistration and signal handlers, by their ids. `next_id` is the number that
-- `Twapi_NewId` gives.
pub record Context : Type 0 where
  pub threadpool_registrations : List Registration
  pub nrefs : ℕ
  pub next_id : ℕ
  pub freed : List ℕ
  pub unregistered : List ℕ
  pub signalled : List ℕ

-- `TwapiThreadPoolRegistrationUnref`. A `ULONG` is at most 0 if it is 0.
unfoldable pub registration_unref : ℕ → Registration → Context → Registration × Context
registration_unref unrefs r c =
    let n = (r.nrefs + (2 ^ 32 - unrefs)) % 2 ^ 32 in
    (record r { nrefs = n }, if n == 0 then record c { freed = r.id ∷ c.freed } else c)

-- `ZLIST_REMOVE` and `ZLIST_LOCATE`, by the id.
unfoldable pub remove_registration : ℕ → List Registration → List Registration
remove_registration id [] = []
remove_registration id (r ∷ rs) =
    let rest = r ∷ remove_registration id rs in if r.id == id then rs else rest

unfoldable pub locate_registration : ℕ → List Registration → Option Registration
locate_registration id [] = none
locate_registration id (r ∷ rs) =
    let rest = locate_registration id rs in if r.id == id then some r else rest

-- The call of the unregistration handler, if there is one and the handle is valid.
abbrev pub call_unregistration : Bool → Registration → Context → Context
call_unregistration has_handler r c = elim r.handle [
  | none ↦ c
  | some h ↦ if has_handler then record c { unregistered = r.id ∷ c.unregistered } else c
]

-- The registration is taken off the list, and lets go of the context.
abbrev pub leave_context : Registration → Context → Context
leave_context r c =
    if r.has_context
    then record c {
      threadpool_registrations = remove_registration r.id c.threadpool_registrations;
      nrefs = (c.nrefs + (2 ^ 32 - 1)) % 2 ^ 32;
    }
    else c

-- `TwapiThreadPoolRegistrationShutdown`
unfoldable pub shutdown : Bool → Registration → Context → Context
unfolding registration_unref remove_registration
shutdown has_handler r c =
    let unrefs = one_if r.tp_handle + one_if r.has_context in
    let r' = record r { handle = none; tp_handle = false; has_context = false } in
    let c' = leave_context r (call_unregistration has_handler r c) in
    if unrefs == 0 then c' else (registration_unref unrefs r' c').1

abbrev new_registration : ℕ → Bool → ℕ → ℕ → Registration
new_registration fresh_nrefs ok h id = record {
  id = id;
  handle = some h;
  tp_handle = ok;
  has_context = true;
  nrefs = (fresh_nrefs + 2) % 2 ^ 32;
}

-- `TwapiThreadPoolRegister`. `fresh_nrefs` is what the new memory holds where `nrefs` is; `ok` is
-- whether `RegisterWaitForSingleObject` succeeds.
unfoldable pub register : ℕ → Bool → Bool → ℕ → Context → Context
unfolding registration_unref shutdown
register fresh_nrefs has_handler ok h c =
    let r = new_registration fresh_nrefs ok h c.next_id in
    let c' = record c {
      threadpool_registrations = r ∷ c.threadpool_registrations;
      nrefs = (c.nrefs + 1) % 2 ^ 32;
      next_id = c.next_id + 1;
    } in
    if ok
    then c'
    else shutdown has_handler (registration_unref 1 r c').0 (registration_unref 1 r c').1

-- `TwapiThreadPoolUnregister`
unfoldable pub unregister : Bool → ℕ → Context → Context
unfolding shutdown locate_registration
unregister has_handler id c = elim (locate_registration id c.threadpool_registrations) [
  | none ↦ c
  | some r ↦ shutdown has_handler r c
]

-- `TwapiThreadPoolRegistrationCallback`, for an interpreter that is not deleted: the handler is called
-- for a registration that is still there.
unfoldable pub registration_callback : ℕ → Context → Context
unfolding locate_registration
registration_callback id c = elim (locate_registration id c.threadpool_registrations) [
  | none ↦ c
  | some r ↦ record c { signalled = id ∷ c.signalled }
]

-- The loop of `Twapi_InterpContextCleanup`, which shuts the first registration down until none is left,
-- for at most `fuel` rounds.
unfoldable pub cleanup : ℕ → Bool → Context → Context
unfolding shutdown
cleanup zero has_handler c = c
cleanup (suc fuel) has_handler c = elim c.threadpool_registrations [
  | [] ↦ c
  | r ∷ rs ↦ cleanup fuel has_handler (shutdown has_handler r c)
]

pub data Operation : Type 0 where
  registering : Bool → ℕ → Operation
  unregistering : ℕ → Operation
  signalling : ℕ → Operation

-- New memory holds 0 where `nrefs` is.
unfoldable pub operate : Bool → Operation → Context → Context
unfolding register unregister registration_callback
operate has_handler (registering ok h) c = register 0 has_handler ok h c
operate has_handler (unregistering id) c = unregister has_handler id c
operate has_handler (signalling id) c = registration_callback id c

unfoldable pub operate_all : Bool → List Operation → Context → Context
unfolding operate
operate_all has_handler [] c = c
operate_all has_handler (o ∷ os) c = operate_all has_handler os (operate has_handler o c)

abbrev pub new_context : ℕ → Context
new_context base = record {
  threadpool_registrations = [];
  nrefs = base;
  next_id = 0;
  freed = [];
  unregistered = [];
  signalled = [];
}
