-- ===== src/Atoms/Table.antt =====
-- `TwapiGetAtom`, `TwapiPurgeAtoms` and the atoms in `TwapiBaseModuleCleanup` of twapi/base/twapi.c.
-- The hash table `atoms` of the base context is a list of keys and objects; an object is its address.
use twapi.Base.{
  ℕ, ◌+◌, ◌-◌, Bool, true, false, ◌&&◌, Option, none, some, List, [], ◌∷◌, ltb, ◌==◌, if◌then◌else◌,
}

abbrev pub Key : Type 0
Key = List ℕ

abbrev pub same_key : Key → Key → Bool
same_key [] [] = true
same_key [] (d ∷ ds) = false
same_key (c ∷ cs) [] = false
same_key (c ∷ cs) (d ∷ ds) = c == d && same_key cs ds

-- The reference counts of all objects.
abbrev pub Refs : Type 0
Refs = ℕ → ℕ

pub record Atoms : Type 0 where
  pub entries : List (Key × ℕ)
  pub refs : Refs

abbrev pub set_refs : Refs → ℕ → ℕ → Refs
set_refs refs o n p = if p == o then n else refs p

unfoldable pub find_atom : Key → List (Key × ℕ) → Option ℕ
find_atom key [] = none
find_atom key ((k, o) ∷ es) = let rest = find_atom key es in if same_key key k then some o else rest

-- `ObjFromString` is a parameter: the address of a new object.
unfoldable pub get_atom : (Key → Refs → ℕ) → Key → Atoms → ℕ × Atoms
unfolding find_atom
get_atom obj_from_string key s = elim (find_atom key s.entries) [
  | some o ↦ (o, s)
  | none ↦
      let o = obj_from_string key s.refs in
      (o, record { entries = (key, o) ∷ s.entries; refs = set_refs s.refs o (s.refs o + 1) })
]

-- `Tcl_IsShared`
unfoldable pub is_shared : Refs → ℕ → Bool
is_shared refs o = ltb 1 (refs o)

-- The loop over the table: an entry whose object nobody else uses is deleted, and the object released.
unfoldable pub purge_entries : List (Key × ℕ) → Refs → Atoms
unfolding is_shared
purge_entries [] refs = record { entries = []; refs = refs }
purge_entries ((k, o) ∷ es) refs =
    let kept = purge_entries es refs in
    let dropped = purge_entries es (set_refs refs o (refs o - 1)) in
    if is_shared refs o
    then record { entries = (k, o) ∷ kept.entries; refs = kept.refs }
    else dropped

unfoldable pub purge_atoms : Atoms → Atoms
unfolding purge_entries
purge_atoms s = purge_entries s.entries s.refs

-- The loop over the atoms in `TwapiBaseModuleCleanup`: every entry is deleted, and its object released.
unfoldable pub clean_entries : List (Key × ℕ) → Refs → Atoms
clean_entries [] refs = record { entries = []; refs = refs }
clean_entries ((k, o) ∷ es) refs = clean_entries es (set_refs refs o (refs o - 1))

unfoldable pub clean_atoms : Atoms → Atoms
unfolding clean_entries
clean_atoms s = clean_entries s.entries s.refs
