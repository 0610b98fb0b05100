-- ===== src/ZList/Attaches.antt =====
-- `ZLIST_NAMED_APPEND`, `ZLIST_NAMED_PREPEND`, `ZLIST_NAMED_INSERTAFTER` and `ZLIST_NAMED_MOVETOHEAD` of
-- twapi/include/zlist.h.
use twapi.Base.{
  ℕ, ◌+◌, ◌^◌, ◌<◌, ◌≡◌, ◌≢◌, refl, sym, ◌∙◌, subst, true, false, List, [], ◌∷◌, ◌++◌, length,
  length-append, append_nil, arith, ◌==◌, if◌then◌else◌,
}
use twapi.ZList.Links.{
  Links, ZList, set_prev, init_link, insert_after, append, prepend, remove, move_to_head,
}
use twapi.ZList.Segments.{
  last_or, Segment, NotIn, Distinct, prev-set_prev, next-set_next, prev-set_next,
}
use twapi.ZList.Represents.{
  Represents, NotIn-append, NotIn-split, NotIn-last_or, Distinct-split, Apart-last, Apart-tail,
  last_or-append,
}
use twapi.ZList.Removes.{remove-Represents}
use twapi.ZList.Attached.{
  post_attach-Segment, attached-Distinct, attached-nonnull, pre_attach-Segment,
}

-- An object that is not null and not in the list yet becomes the last one when it is appended, as
-- long as the list keeps fewer than 2^31 elements.
pub append-Represents :
    (l : ZList) (ls : Links) (xs : List ℕ) (x : ℕ)
    → length xs + 1 < 2 ^ 31
    → 0 ≢ x
    → NotIn x xs
    → Represents l ls xs
    → Represents (append x l ls).0 (append x l ls).1 (xs ++ x ∷ [])
unfolding append init_link
append-Represents l ls [] x small here fresh v =
    let none : (l.zlist_count == 0) ≡ true = ground (arith, v.count) in
    rw none (record {
      head = refl;
      tail = refl;
      count = omega (arith, v.count);
      linked = (
        prev-set_next (set_prev ls x 0) x 0 x ∙ prev-set_prev ls x 0,
        (next-set_next (set_prev ls x 0) x 0, tt),
      );
      distinct = (tt, tt);
      nonnull = (here, tt);
    })
append-Represents l ls (y ∷ xs) x small here fresh v =
    let some : (l.zlist_count == 0) ≡ false = ground (arith, v.count) in
    let ys : (y ∷ xs) ++ [] ≡ y ∷ xs = append_nil (y ∷ xs) in
    let linked = subst (λ zs. Segment ls 0 zs 0) (sym ys) v.linked in
    let distinct = subst Distinct (sym ys) v.distinct in
    let nonnull = subst (NotIn 0) (sym ys) v.nonnull in
    let fresh' = subst (NotIn x) (sym ys) fresh in
    rw (some, v.tail)
      (record {
        head = v.head;
        tail = sym (last_or-append xs (x ∷ []) y);
        count = omega (arith, v.count, small, length-append (y ∷ xs) (x ∷ []));
        linked = post_attach-Segment ls y xs x [] linked distinct nonnull fresh' here;
        distinct = attached-Distinct ls y xs x [] linked distinct nonnull fresh' here;
        nonnull = attached-nonnull ls y xs x [] linked distinct nonnull fresh' here;
      })

-- An object that is prepended becomes the first one.
pub prepend-Represents :
    (l : ZList) (ls : Links) (xs : List ℕ) (x : ℕ)
    → length xs + 1 < 2 ^ 31
    → 0 ≢ x
    → NotIn x xs
    → Represents l ls xs
    → Represents (prepend x l ls).0 (prepend x l ls).1 (x ∷ xs)
unfolding prepend init_link
prepend-Represents l ls [] x small here fresh v =
    let none : (l.zlist_count == 0) ≡ true = ground (arith, v.count) in
    rw none (record {
      head = refl;
      tail = refl;
      count = omega (arith, v.count);
      linked = (
        prev-set_next (set_prev ls x 0) x 0 x ∙ prev-set_prev ls x 0,
        (next-set_next (set_prev ls x 0) x 0, tt),
      );
      distinct = (tt, tt);
      nonnull = (here, tt);
    })
prepend-Represents l ls (y ∷ xs) x small here fresh v =
    let some : (l.zlist_count == 0) ≡ false = ground (arith, v.count) in
    rw (some, v.head)
      (record {
        head = refl;
        tail = v.tail;
        count = omega (arith, v.count, small);
        linked = pre_attach-Segment ls y xs x v.linked v.distinct fresh;
        distinct = (fresh, v.distinct);
        nonnull = (here, v.nonnull);
      })

-- An object that is inserted after another one follows it in the list.
pub insert_after-Represents :
    (l : ZList) (ls : Links) (y : ℕ) (xs : List ℕ) (x : ℕ) (ys : List ℕ)
    → length ((y ∷ xs) ++ ys) + 1 < 2 ^ 31
    → 0 ≢ x
    → NotIn x ((y ∷ xs) ++ ys)
    → Represents l ls ((y ∷ xs) ++ ys)
    → Represents
        (insert_after (last_or xs y) x l ls).0
        (insert_after (last_or xs y) x l ls).1
        ((y ∷ xs) ++ x ∷ ys)
unfolding insert_after
insert_after-Represents l ls y xs x ys small here fresh v = record {
  head = v.head;
  tail = rw (v.tail, last_or-append xs ys y, last_or-append xs (x ∷ ys) y) (go ys refl);
  count = omega (arith, v.count, small, length-append (y ∷ xs) ys, length-append (y ∷ xs) (x ∷ ys));
  linked = post_attach-Segment ls y xs x ys v.linked v.distinct v.nonnull fresh here;
  distinct = attached-Distinct ls y xs x ys v.linked v.distinct v.nonnull fresh here;
  nonnull = attached-nonnull ls y xs x ys v.linked v.distinct v.nonnull fresh here;
}
  where
    go :
        (zs : List ℕ)
        → ys ≡ zs
        → (if last_or zs (last_or xs y) == last_or xs y then x else last_or zs (last_or xs y))
          ≡ last_or zs x
    go [] e = let same : (last_or xs y == last_or xs y) ≡ true = ground arith in rw same refl
    go (z ∷ zs) e =
        let split = Distinct-split (y ∷ xs) ys v.distinct in
        let after = Apart-last xs ys y split.1.0 split.1.1 in
        let apart : NotIn (last_or xs y) (z ∷ zs) = subst (NotIn (last_or xs y)) e after in
        let ne : last_or xs y ≢ last_or zs z = NotIn-last_or (last_or xs y) zs z apart.0 apart.1 in
        let other : (last_or zs z == last_or xs y) ≡ false = ground (arith, ne) in rw other refl

-- An element of a list of fewer than 2^31 elements that is moved to the head is the first one, and the
-- others keep their order.
pub move_to_head-Represents :
    (l : ZList) (ls : Links) (xs : List ℕ) (x : ℕ) (ys : List ℕ)
    → length (xs ++ x ∷ ys) < 2 ^ 31
    → Represents l ls (xs ++ x ∷ ys)
    → Represents (move_to_head x l ls).0 (move_to_head x l ls).1 (x ∷ (xs ++ ys))
unfolding move_to_head
move_to_head-Represents l ls xs x ys small v =
    let others = (Distinct-split xs (x ∷ ys) v.distinct) in
    prepend-Represents (remove x l ls).0 (remove x l ls).1 (xs ++ ys) x
      (omega (arith, small, length-append xs (x ∷ ys), length-append xs ys))
      (NotIn-split 0 xs (x ∷ ys) v.nonnull).1.0
      (NotIn-append x xs ys (Apart-tail xs x ys others.1).0 others.0.1.0)
      (remove-Represents l ls xs x ys small v)
