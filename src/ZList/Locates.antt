-- ===== src/ZList/Locates.antt =====
-- `ZLIST_NAMED_FIND` and `ZLIST_NAMED_LOCATE` of twapi/include/zlist.h.
use twapi.Base.{
  ℕ, zero, suc, ◌≤◌, ◌≡◌, refl, inl, inr, Bool, false, List, [], ◌∷◌, length, arith, ◌==◌,
  Bool-cases, if◌then◌else◌,
}
use twapi.ZList.Links.{Links, ZList, locate_from, locate}
use twapi.ZList.Segments.{first_or, Segment, NotIn}
use twapi.ZList.Represents.{Represents}

-- The first element that matches, or 0.
abbrev pub find : (ℕ → Bool) → List ℕ → ℕ
find is_match [] = 0
find is_match (x ∷ xs) = if is_match x then x else find is_match xs

locate_from-find :
    (fuel : ℕ) (is_match : ℕ → Bool) (ls : Links) (p : ℕ) (xs : List ℕ)
    → length xs ≤ fuel
    → NotIn 0 xs
    → Segment ls p xs 0
    → locate_from fuel is_match (first_or xs 0) ls ≡ find is_match xs
unfolding locate_from
locate_from-find zero is_match ls p [] le h s = refl
locate_from-find (suc fuel) is_match ls p [] le h s = refl
locate_from-find zero is_match ls p (x ∷ xs) le h s = absurd (omega (arith, le))
locate_from-find (suc fuel) is_match ls p (x ∷ xs) le (ne, h) (s0, (s1, s)) =
    let there : (x == 0) ≡ false = ground (arith, ne) in
    elim (Bool-cases (is_match x)) [
      | inl m ↦ rw (locate_from, there, m) refl
      | inr m ↦
          rw (locate_from, there, m, s1)
            (locate_from-find fuel is_match ls x xs (omega (arith, le)) h s)
    ]

-- The search ends after at most as many rounds as the list has elements, with the first element that
-- matches, or with a null pointer if there is none.
pub locate-find :
    (fuel : ℕ) (is_match : ℕ → Bool) (l : ZList) (ls : Links) (xs : List ℕ)
    → l.zlist_count ≤ fuel
    → Represents l ls xs
    → locate fuel is_match l ls ≡ find is_match xs
unfolding locate
locate-find fuel is_match l ls xs le v =
    rw v.head
      (locate_from-find fuel is_match ls 0 xs (omega (arith, le, v.count)) v.nonnull v.linked)
