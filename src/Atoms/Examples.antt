-- ===== src/Atoms/Examples.antt =====
-- A table of atoms for twapi/base/twapi.c, and the theorems at it.
use twapi.Base.{ℕ, ◌+◌, ◌<◌, ◌≡◌, refl, some, [], ◌∷◌, ◌==◌, if◌then◌else◌}
use twapi.Atoms.Table.{Key, Refs, Atoms, find_atom, purge_atoms, clean_atoms}
use twapi.Atoms.Purges.{AllShared, purge_atoms_keeps}
use twapi.Atoms.Released.{getting, purging, run_calls, clean_atoms-refs}

-- Object 100 is used elsewhere, object 200 is not.
abbrev atoms : Atoms
atoms = record {
  entries = (97 ∷ [], 200) ∷ (98 ∷ [], 100) ∷ [];
  refs = λ o. if o == 100 then 2 else if o == 200 then 1 else 0;
}

abbrev new_object : Key → Refs → ℕ
new_object key refs = 300

purged : (purge_atoms atoms).entries ≡ (98 ∷ [], 100) ∷ []
unfolding purge_atoms
purged = refl

purge_atoms_keeps_example :
    AllShared (purge_atoms atoms).entries (purge_atoms atoms).refs
    × ((key : Key) (o : ℕ)
        → find_atom key atoms.entries ≡ some o
        → 1 < atoms.refs o
        → (find_atom key (purge_atoms atoms).entries ≡ some o)
          × ((purge_atoms atoms).refs o ≡ atoms.refs o))
purge_atoms_keeps_example = purge_atoms_keeps atoms

-- The key's length gives the address of its object; object 1 has another owner.
abbrev object_of_length : Key → Refs → ℕ
object_of_length [] refs = 0
object_of_length (c ∷ cs) refs = 1 + object_of_length cs refs

abbrev owned : Refs
owned o = if o == 1 then 1 else 0

-- A purge keeps the object that is also used elsewhere.
kept :
    (run_calls object_of_length
      (getting (97 ∷ []) ∷ getting (98 ∷ 98 ∷ []) ∷ purging ∷ [])
      (record { entries = []; refs = owned })).entries
    ≡ (97 ∷ [], 1) ∷ []
unfolding run_calls
kept = refl

clean_atoms-refs_example :
    (clean_atoms (
        run_calls object_of_length
          (getting (97 ∷ []) ∷ getting (98 ∷ 98 ∷ []) ∷ purging ∷ [])
          (record { entries = []; refs = owned }))).refs
      1
    ≡ 1
clean_atoms-refs_example =
    clean_atoms-refs object_of_length (getting (97 ∷ []) ∷ getting (98 ∷ 98 ∷ []) ∷ purging ∷ [])
      owned 1
