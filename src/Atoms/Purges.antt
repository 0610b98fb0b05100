-- ===== src/Atoms/Purges.antt =====
-- `TwapiGetAtom` and `TwapiPurgeAtoms` of twapi/base/twapi.c: theorems on the table of atoms.
use twapi.Base.{
  ℕ, ◌-◌, ◌<◌, ◌≡◌, refl, ap, ◌∙◌, inl, inr, false, some, List, [], ◌∷◌, arith, ltb, ◌==◌,
  Bool-cases,
}
use twapi.Atoms.Table.{
  Key, same_key, Refs, Atoms, set_refs, find_atom, is_shared, purge_entries, purge_atoms,
}

other_object : (refs : Refs) (o p : ℕ) → 1 < refs o → ltb 1 (refs p) ≡ false → (o == p) ≡ false
other_object refs o p h unused = elim (Bool-cases (o == p)) [
  | inl hit ↦
      let q : o ≡ p = ground arith in let r : refs o ≡ refs p = ap refs q in absurd (ground arith)
  | inr miss ↦ miss
]

purge_entries-refs :
    (es : List (Key × ℕ)) (refs : Refs) (o : ℕ)
    → 1 < refs o
    → (purge_entries es refs).refs o ≡ refs o
unfolding purge_entries is_shared
purge_entries-refs [] refs o h = refl
purge_entries-refs ((k, p) ∷ es) refs o h = elim (Bool-cases (ltb 1 (refs p))) [
  | inl used ↦ rw (purge_entries, used) (purge_entries-refs es refs o h)
  | inr unused ↦
      let other : (o == p) ≡ false = other_object refs o p h unused in
      let same : set_refs refs p (refs p - 1) o ≡ refs o = rw other refl in
      rw (purge_entries, unused)
        (purge_entries-refs es (set_refs refs p (refs p - 1)) o (rw same h) ∙ same)
]

-- Every object of the table is used elsewhere too.
pub AllShared : List (Key × ℕ) → Refs → Type 0
AllShared [] refs = Unit
AllShared ((k, o) ∷ es) refs = (1 < refs o) × AllShared es refs

purge_entries-AllShared :
    (es : List (Key × ℕ)) (refs : Refs)
    → AllShared (purge_entries es refs).entries (purge_entries es refs).refs
unfolding AllShared purge_entries is_shared
purge_entries-AllShared [] refs = tt
purge_entries-AllShared ((k, p) ∷ es) refs = elim (Bool-cases (ltb 1 (refs p))) [
  | inl used ↦
      let many : 1 < refs p = ground arith in
      rw (purge_entries, used)
        (omega (arith, purge_entries-refs es refs p many), purge_entries-AllShared es refs)
  | inr unused ↦
      rw (purge_entries, unused) (purge_entries-AllShared es (set_refs refs p (refs p - 1)))
]

some-eq : (a b : ℕ) → some a ≡ some b → a ≡ b
some-eq a b h = cc

purge_entries-find :
    (es : List (Key × ℕ)) (refs : Refs) (key : Key) (o : ℕ)
    → find_atom key es ≡ some o
    → 1 < refs o
    → find_atom key (purge_entries es refs).entries ≡ some o
unfolding find_atom purge_entries is_shared
purge_entries-find [] refs key o e h = e
purge_entries-find ((k, p) ∷ es) refs key o e h = elim (Bool-cases (ltb 1 (refs p))) [
  | inl used ↦ elim (Bool-cases (same_key key k)) [
    | inl hit ↦ rw (purge_entries, used, find_atom, hit) (rw (find_atom, hit) at e)
    | inr miss ↦
        rw (purge_entries, used, find_atom, miss)
          (purge_entries-find es refs key o (rw (find_atom, miss) at e) h)
  ]
  | inr unused ↦ elim (Bool-cases (same_key key k)) [
    | inl hit ↦
        let q : refs p ≡ refs o = ap refs (some-eq p o (rw (find_atom, hit) at e)) in
        absurd (ground arith)
    | inr miss ↦
        let same : set_refs refs p (refs p - 1) o ≡ refs o =
          rw (other_object refs o p h unused) refl in
        rw (purge_entries, unused)
          (purge_entries-find es (set_refs refs p (refs p - 1)) key o (rw (find_atom, miss) at e)
            (rw same h))
  ]
]

-- After the table is purged, every atom in it is used elsewhere too; and an atom that was used
-- elsewhere before is in it still, with the same object and the same count.
pub purge_atoms_keeps :
    (s : Atoms)
    → AllShared (purge_atoms s).entries (purge_atoms s).refs
      × ((key : Key) (o : ℕ)
          → find_atom key s.entries ≡ some o
          → 1 < s.refs o
          → (find_atom key (purge_atoms s).entries ≡ some o) × ((purge_atoms s).refs o ≡ s.refs o))
unfolding purge_atoms
purge_atoms_keeps s = (
  purge_entries-AllShared s.entries s.refs,
  λ key o e h.
      (purge_entries-find s.entries s.refs key o e h, purge_entries-refs s.entries s.refs o h),
)
