-- ===== src/Pointers/Examples.antt =====
-- Calls on the pointer registry of twapi/base/twapi.c, and the theorems at them.
use twapi.Base.{◌≡◌, refl, none, List, [], ◌∷◌, ◌++◌, arith, replicate}
use twapi.Pointers.Registry.{
  Pointers, Call, no_error, not_found, tag_mismatch, is_not_counted, null_pointer, verify, register,
  register_counted, unregister, step, run,
}
use twapi.Pointers.Holders.{Holdings, free, spec_step, entries}
use twapi.Pointers.Refines.{calls_refine}
use twapi.Pointers.Balance.{register_counted_unregister}

abbrev no_pointers : Pointers
no_pointers _ = none

abbrev no_owners : Holdings
no_owners _ = free

-- Pointer 32 has one owner, under tag 5; pointer 16 has two for a while, under tag 7.
abbrev calls : List Call
calls =
    register 32 5
    ∷ register_counted 16 7
    ∷ register_counted 16 7
    ∷ register_counted 32 5
    ∷ unregister 16 5
    ∷ unregister 16 7
    ∷ verify 16 0
    ∷ unregister 16 7
    ∷ verify 16 7
    ∷ verify 0 7
    ∷ []

answers :
    (run step calls no_pointers).0
    ≡ no_error ∷ no_error ∷ no_error ∷ is_not_counted ∷ tag_mismatch ∷ no_error ∷ no_error
      ∷ no_error ∷ not_found ∷ null_pointer ∷ []
unfolding run step
answers = refl

calls_refine_example :
    run step calls (entries no_owners)
    ≡ ((run spec_step calls no_owners).0, entries (run spec_step calls no_owners).1)
calls_refine_example =
    calls_refine calls no_owners 0 (record { null_free = refl; counted = λ p. tt }) (omega arith)

register_counted_unregister_example :
    run step (replicate 3 (register_counted 16 7) ++ replicate 3 (unregister 16 7)) no_pointers
    ≡ (replicate 3 no_error ++ replicate 3 no_error, no_pointers)
register_counted_unregister_example =
    register_counted_unregister no_pointers 16 7 2 (omega arith) refl (omega arith)
