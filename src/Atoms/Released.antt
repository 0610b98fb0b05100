-- ===== src/Atoms/Released.antt =====
-- What the table of atoms of twapi/base/twapi.c does to reference counts, from the first atom to the
-- clean-up of the module.
use twapi.Base.{
  ℕ, ◌+◌, ◌-◌, ◌≡◌, refl, subst, inl, inr, List, [], ◌∷◌, arith, ◌==◌, Bool-cases, Option-cases,
  one_if,
}
use twapi.Atoms.Table.{
  Key, Refs, Atoms, set_refs, find_atom, get_atom, is_shared, purge_entries, purge_atoms,
  clean_entries, clean_atoms,
}

-- How many entries have an object.
abbrev count : ℕ → List (Key × ℕ) → ℕ
count o [] = 0
count o ((k, p) ∷ es) = one_if (o == p) + count o es

-- The count of each object is that of the others' references, and one for each entry.
abbrev Shares : Refs → List (Key × ℕ) → Refs → Type 0
Shares base es refs = (o : ℕ) → refs o ≡ base o + count o es

-- One entry is given up, or added.
Shares-next :
    (base : Refs) (k : Key) (p : ℕ) (es : List (Key × ℕ)) (refs : Refs)
    → Shares base ((k, p) ∷ es) refs
    → Shares base es (set_refs refs p (refs p - 1))
Shares-next base k p es refs h o = elim (Bool-cases (o == p)) [
  | inl e ↦
      let same : o ≡ p = ground (arith, e) in
      let counted : one_if (o == p) ≡ 1 = rw e refl in
      let now : refs o ≡ base o + (1 + count o es) = omega (arith, counted, h o) in
      rw e (subst (λ q. refs q - 1 ≡ base o + count o es) same (omega (arith, now)))
  | inr e ↦
      let counted : one_if (o == p) ≡ 0 = rw e refl in
      let now : refs o ≡ base o + count o es = omega (arith, counted, h o) in
      rw e (omega (arith, now))
]

Shares-more :
    (base : Refs) (k : Key) (p : ℕ) (es : List (Key × ℕ)) (refs : Refs)
    → Shares base es refs
    → Shares base ((k, p) ∷ es) (set_refs refs p (refs p + 1))
Shares-more base k p es refs h o = elim (Bool-cases (o == p)) [
  | inl e ↦
      let same : o ≡ p = ground (arith, e) in
      rw e (subst (λ q. refs q + 1 ≡ base o + (1 + count o es)) same (omega (arith, h o)))
  | inr e ↦ rw e (omega (arith, h o))
]

IsSharing : Refs → Atoms → Type 0
IsSharing base s = Shares base s.entries s.refs

get_atom-IsSharing :
    (base : Refs) (obj_from_string : Key → Refs → ℕ) (key : Key) (s : Atoms)
    → IsSharing base s
    → IsSharing base (get_atom obj_from_string key s).1
unfolding get_atom IsSharing
get_atom-IsSharing base obj_from_string key s h = elim (Option-cases (find_atom key s.entries)) [
  | inl e ↦ rw (get_atom, e) (Shares-more base key (obj_from_string key s.refs) s.entries s.refs h)
  | inr (o, e) ↦ rw (get_atom, e) h
]

-- An entry that stays is one more.
Shares-kept :
    (base : Refs) (k : Key) (p : ℕ) (es : List (Key × ℕ)) (refs : Refs)
    → Shares base ((k, p) ∷ es) refs
    → Shares (λ o. base o + one_if (o == p)) es refs
Shares-kept base k p es refs h o = omega (arith, h o)

Shares-back :
    (base : Refs) (k : Key) (p : ℕ) (es : List (Key × ℕ)) (refs : Refs)
    → Shares (λ o. base o + one_if (o == p)) es refs
    → Shares base ((k, p) ∷ es) refs
Shares-back base k p es refs h o = omega (arith, h o)

purge_entries-IsSharing :
    (es : List (Key × ℕ)) (base refs : Refs)
    → Shares base es refs
    → IsSharing base (purge_entries es refs)
unfolding purge_entries IsSharing
purge_entries-IsSharing [] base refs h = h
purge_entries-IsSharing ((k, p) ∷ es) base refs h = elim (Bool-cases (is_shared refs p)) [
  | inl e ↦
      rw (purge_entries, e)
        (Shares-back base k p _ _
          (purge_entries-IsSharing es _ refs (Shares-kept base k p es refs h)))
  | inr e ↦
      rw (purge_entries, e)
        (purge_entries-IsSharing es base (set_refs refs p (refs p - 1))
          (Shares-next base k p es refs h))
]

clean_entries-refs :
    (es : List (Key × ℕ)) (base refs : Refs)
    → Shares base es refs
    → (o : ℕ) → (clean_entries es refs).refs o ≡ base o
unfolding clean_entries
clean_entries-refs [] base refs h o = omega (arith, h o)
clean_entries-refs ((k, p) ∷ es) base refs h o =
    clean_entries-refs es base (set_refs refs p (refs p - 1)) (Shares-next base k p es refs h) o

-- `TwapiGetAtom` for a key, or `TwapiPurgeAtoms`.
pub data TableCall : Type 0 where
  getting : Key → TableCall
  purging : TableCall

unfoldable pub run_calls : (Key → Refs → ℕ) → List TableCall → Atoms → Atoms
unfolding get_atom purge_atoms
run_calls obj_from_string [] s = s
run_calls obj_from_string (getting key ∷ cs) s =
    run_calls obj_from_string cs (get_atom obj_from_string key s).1
run_calls obj_from_string (purging ∷ cs) s = run_calls obj_from_string cs (purge_atoms s)

run_calls-IsSharing :
    (obj_from_string : Key → Refs → ℕ) (cs : List TableCall) (base : Refs) (s : Atoms)
    → IsSharing base s
    → IsSharing base (run_calls obj_from_string cs s)
unfolding run_calls purge_atoms IsSharing
run_calls-IsSharing obj_from_string [] base s h = h
run_calls-IsSharing obj_from_string (getting key ∷ cs) base s h =
    run_calls-IsSharing obj_from_string cs base _ (get_atom-IsSharing base obj_from_string key s h)
run_calls-IsSharing obj_from_string (purging ∷ cs) base s h =
    run_calls-IsSharing obj_from_string cs base _ (purge s h)
  where
    purge : (t : Atoms) → IsSharing base t → IsSharing base (purge_atoms t)
    purge t k = purge_entries-IsSharing t.entries base t.refs k

-- After any calls for atoms and any purges, starting from an empty table, the clean-up of the module
-- leaves every object with the references that it had before them.
pub clean_atoms-refs :
    (obj_from_string : Key → Refs → ℕ) (cs : List TableCall) (base : Refs) (o : ℕ)
    → (clean_atoms (run_calls obj_from_string cs (record { entries = []; refs = base }))).refs o
      ≡ base o
unfolding clean_atoms IsSharing
clean_atoms-refs obj_from_string cs base o =
    clean_entries-refs _ base _
      (run_calls-IsSharing obj_from_string cs base (record { entries = []; refs = base })
        (λ p. omega arith))
      o
