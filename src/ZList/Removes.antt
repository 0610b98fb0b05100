-- ===== src/ZList/Removes.antt =====
-- `ZLIST_NAMED_REMOVE` of twapi/include/zlist.h.
use twapi.Base.{
  ℕ, ◌^◌, ◌<◌, ◌≡◌, ◌≢◌, refl, sym, subst, true, false, List, [], ◌∷◌, ◌++◌, length, length-append,
  arith, ◌==◌, if◌then◌else◌,
}
use twapi.ZList.Links.{Links, ZList, set_prev, link_prev, link_next, init_link, unlink, remove}
use twapi.ZList.Segments.{
  first_or, last_or, Segment, NotIn, Distinct, set_prev-Segment, set_next-Segment,
  link_prev-Segment, link_next-Segment, Segment-append, Segment-split,
}
use twapi.ZList.Represents.{
  Represents, NotIn-append, NotIn-split, NotIn-last_or, Apart, Distinct-append, Distinct-split,
  Apart-last, Apart-first, Apart-tail, last_or-append, link_prev-first, link_next-last,
  link_next_other,
}

module _ (ls : Links) (xs : List ℕ) (x : ℕ) (ys : List ℕ) (linked : Segment ls 0 (xs ++ x ∷ ys) 0)
    (distinct : Distinct (xs ++ x ∷ ys)) (nonnull : NotIn 0 (xs ++ x ∷ ys)) where
  prev-eq : (ls x).zl_prev ≡ last_or xs 0
  prev-eq = (Segment-split ls 0 xs (x ∷ ys) 0 linked).1.0

  next-eq : (ls x).zl_next ≡ first_or ys 0
  next-eq = (Segment-split ls 0 xs (x ∷ ys) 0 linked).1.1.0

  parts : (Distinct xs × Distinct (x ∷ ys)) × Apart xs (x ∷ ys)
  parts = Distinct-split xs (x ∷ ys) distinct

  away : NotIn x xs × Apart xs ys
  away = Apart-tail xs x ys parts.1

  objects : NotIn 0 xs × NotIn 0 (x ∷ ys)
  objects = NotIn-split 0 xs (x ∷ ys) nonnull

  last-ne : last_or xs 0 ≢ x
  last-ne e = NotIn-last_or x xs 0 (λ q. objects.1.0 (sym q)) away.0 (sym e)

  unlink-eq :
      unlink x ls
      ≡ init_link x
          (link_prev (link_next ls (last_or xs 0) (first_or ys 0)) (first_or ys 0) (last_or xs 0))
  unfolding unlink
  unlink-eq =
      rw (prev-eq, next-eq)
        (rw (link_next_other ls (last_or xs 0) (first_or ys 0) x last-ne, next-eq, prev-eq) refl)

  module _ where
    abbrev before : Links
    before = link_next ls (last_or xs 0) (first_or ys 0)

    abbrev after : Links
    after = link_prev before (first_or ys 0) (last_or xs 0)

    init_link-Segment :
        (m : Links) (p : ℕ) (zs : List ℕ) (n : ℕ)
        → NotIn x zs
        → Segment m p zs n
        → Segment (init_link x m) p zs n
    unfolding init_link
    init_link-Segment m p zs n h s =
        set_next-Segment (set_prev m x 0) x 0 p zs n h (set_prev-Segment m x 0 p zs n h s)

    before_part : Segment (init_link x after) 0 xs (first_or ys 0)
    before_part = init_link-Segment after 0 xs (first_or ys 0) away.0 (
        link_prev-Segment before (first_or ys 0) (last_or xs 0) 0 xs (first_or ys 0)
          (Apart-first xs ys 0 objects.0 away.1)
          (link_next-last ls 0 xs x (first_or ys 0) parts.0.0 objects.0
            (Segment-split ls 0 xs (x ∷ ys) 0 linked).0))

    after_part : Segment (init_link x after) (last_or xs 0) ys 0
    after_part = init_link-Segment after (last_or xs 0) ys 0 parts.0.1.0 (
        link_prev-first before x (last_or xs 0) ys 0 parts.0.1.1 objects.1.1 (
          link_next-Segment ls (last_or xs 0) (first_or ys 0) x ys 0
            (Apart-last xs ys 0 objects.1.1 away.1)
            (Segment-split ls 0 xs (x ∷ ys) 0 linked).1.1.1))

  pub unlink-Segment : Segment (unlink x ls) 0 (xs ++ ys) 0
  unlink-Segment =
      subst (λ m. Segment m 0 (xs ++ ys) 0) (sym unlink-eq)
        (Segment-append (init_link x after) 0 xs ys 0 before_part after_part)

  pub rest-Distinct : Distinct (xs ++ ys)
  rest-Distinct = Distinct-append xs ys parts.0.0 parts.0.1.1 away.1

  pub rest-nonnull : NotIn 0 (xs ++ ys)
  rest-nonnull = NotIn-append 0 xs ys objects.0 objects.1.1

  pub head_after :
      (if first_or (xs ++ x ∷ ys) 0 == x then (ls x).zl_next else first_or (xs ++ x ∷ ys) 0)
      ≡ first_or (xs ++ ys) 0
  head_after = go xs refl
    where
      go :
          (zs : List ℕ)
          → xs ≡ zs
          → (if first_or (zs ++ x ∷ ys) 0 == x then (ls x).zl_next else first_or (zs ++ x ∷ ys) 0)
            ≡ first_or (zs ++ ys) 0
      go [] e = let same : (x == x) ≡ true = ground arith in rw same next-eq
      go (z ∷ zs) e =
          let ne : x ≢ z = (subst (NotIn x) e away.0).0 in
          let other : (z == x) ≡ false = ground (arith, ne) in rw other refl

  pub tail_after :
      (if last_or (xs ++ x ∷ ys) 0 == x then (ls x).zl_prev else last_or (xs ++ x ∷ ys) 0)
      ≡ last_or (xs ++ ys) 0
  tail_after = rw (last_or-append xs (x ∷ ys) 0, last_or-append xs ys 0) (go ys refl)
    where
      go :
          (zs : List ℕ)
          → ys ≡ zs
          → (if last_or zs x == x then (ls x).zl_prev else last_or zs x) ≡ last_or zs (last_or xs 0)
      go [] e = let same : (x == x) ≡ true = ground arith in rw same prev-eq
      go (z ∷ zs) e =
          let apart : NotIn x (z ∷ zs) = subst (NotIn x) e parts.0.1.0 in
          let ne : x ≢ last_or zs z = NotIn-last_or x zs z apart.0 apart.1 in
          let other : (last_or zs z == x) ≡ false = ground (arith, ne) in rw other refl

-- Removing an element of a list of fewer than 2^31 elements gives a list of the others in their order, whether it was the first,
-- the last, the only one or in between.
pub remove-Represents :
    (l : ZList) (ls : Links) (xs : List ℕ) (x : ℕ) (ys : List ℕ)
    → length (xs ++ x ∷ ys) < 2 ^ 31
    → Represents l ls (xs ++ x ∷ ys)
    → Represents (remove x l ls).0 (remove x l ls).1 (xs ++ ys)
unfolding remove
remove-Represents l ls xs x ys small v = record {
  head = rw v.head (head_after ls xs x ys v.linked v.distinct v.nonnull);
  tail = rw v.tail (tail_after ls xs x ys v.linked v.distinct v.nonnull);
  count = omega (arith, v.count, small, length-append xs (x ∷ ys), length-append xs ys);
  linked = unlink-Segment ls xs x ys v.linked v.distinct v.nonnull;
  distinct = rest-Distinct ls xs x ys v.linked v.distinct v.nonnull;
  nonnull = rest-nonnull ls xs x ys v.linked v.distinct v.nonnull;
}
