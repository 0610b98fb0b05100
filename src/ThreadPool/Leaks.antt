-- ===== src/ThreadPool/Leaks.antt =====
-- A registration of twapi/base/threadpool.c in memory that is not zeroed.
use twapi.Base.{
  ℕ, ◌+◌, ◌-◌, ◌%◌, ◌^◌, ◌<◌, ◌≡◌, refl, Bool, true, false, some, List, ◌∷◌, arith, ◌==◌,
}
use twapi.ThreadPool.Registrations.{
  Registration, Context, registration_unref, locate_registration, shutdown, register, unregister,
}

abbrev kept : (id h m : ℕ) → Registration
kept id h m = record { id = id; handle = some h; tp_handle = true; has_context = true; nrefs = m }

shutdown-kept :
    (b : Bool) (id h m : ℕ) (c : Context)
    → ((m + (2 ^ 32 - 2)) % 2 ^ 32 == 0) ≡ false
    → (shutdown b (kept id h m) c).freed ≡ c.freed
unfolding shutdown registration_unref
shutdown-kept true id h m c e = rw e refl
shutdown-kept false id h m c e = rw e refl

found :
    (id h m : ℕ) (rs : List Registration)
    → locate_registration id (kept id h m ∷ rs) ≡ some (kept id h m)
unfolding locate_registration
found id h m rs = let same : (id == id) ≡ true = ground arith in rw same refl

-- When the memory of a registration holds a number other than 0 where its reference count is, and the
-- two references do not overflow it, then unregistering the registration does not free it.
pub unregister-register :
    (fresh_nrefs h : ℕ) (has_handler : Bool) (c : Context)
    → 0 < fresh_nrefs
    → fresh_nrefs < 2 ^ 32 - 2
    → (unregister has_handler c.next_id (register fresh_nrefs has_handler true h c)).freed ≡ c.freed
unfolding unregister register
unregister-register fresh_nrefs h has_handler c pos lt =
    let m = (fresh_nrefs + 2) % 2 ^ 32 in
    rw (unregister, found c.next_id h m c.threadpool_registrations)
      (shutdown-kept has_handler c.next_id h m (register fresh_nrefs has_handler true h c)
        (ground (arith, pos, lt)))
