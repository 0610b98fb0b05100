-- ===== src/ZList/Represents.antt =====
-- What it means that a list of twapi/include/zlist.h has given elements, and facts on lists of distinct
-- objects.
use twapi.Base.{
  ℕ, ◌≡◌, ◌≢◌, refl, sym, subst, inl, inr, false, List, [], ◌∷◌, ◌++◌, length, arith, ◌==◌,
  Bool-cases,
}
use twapi.ZList.Links.{Links, ZList, set_prev, set_next, link_prev, link_next}
use twapi.ZList.Segments.{
  first_or, last_or, Segment, NotIn, Distinct, set_prev-first, set_next-last, set_prev_other,
  set_next_other,
}

pub record Represents (l : ZList) (ls : Links) (xs : List ℕ) : Type 0 where
  pub head : l.zlist_head ≡ first_or xs 0
  pub tail : l.zlist_tail ≡ last_or xs 0
  pub count : l.zlist_count ≡ length xs
  pub linked : Segment ls 0 xs 0
  pub distinct : Distinct xs
  pub nonnull : NotIn 0 xs

pub NotIn-append : (x : ℕ) (xs ys : List ℕ) → NotIn x xs → NotIn x ys → NotIn x (xs ++ ys)
NotIn-append x [] ys h k = k
NotIn-append x (y ∷ xs) ys (ne, h) k = (ne, NotIn-append x xs ys h k)

pub NotIn-split : (x : ℕ) (xs ys : List ℕ) → NotIn x (xs ++ ys) → NotIn x xs × NotIn x ys
NotIn-split x [] ys h = (tt, h)
NotIn-split x (y ∷ xs) ys (ne, h) = let (a, b) = NotIn-split x xs ys h in ((ne, a), b)

pub NotIn-last_or : (x : ℕ) (xs : List ℕ) (p : ℕ) → x ≢ p → NotIn x xs → x ≢ last_or xs p
NotIn-last_or x [] p ne h = ne
NotIn-last_or x (y ∷ xs) p ne (ne', h) = NotIn-last_or x xs y ne' h

pub NotIn-first_or : (x : ℕ) (xs : List ℕ) (n : ℕ) → x ≢ n → NotIn x xs → x ≢ first_or xs n
NotIn-first_or x [] n ne h = ne
NotIn-first_or x (y ∷ xs) n ne (ne', h) = ne'

-- No object of the first list is in the second.
abbrev pub Apart : List ℕ → List ℕ → Type 0
Apart [] ys = Unit
Apart (x ∷ xs) ys = NotIn x ys × Apart xs ys

pub Distinct-append :
    (xs ys : List ℕ) → Distinct xs → Distinct ys → Apart xs ys → Distinct (xs ++ ys)
Distinct-append [] ys d e a = e
Distinct-append (x ∷ xs) ys (h, d) e (n, a) =
    (NotIn-append x xs ys h n, Distinct-append xs ys d e a)

pub Distinct-split :
    (xs ys : List ℕ) → Distinct (xs ++ ys) → (Distinct xs × Distinct ys) × Apart xs ys
Distinct-split [] ys d = ((tt, d), tt)
Distinct-split (x ∷ xs) ys (h, d) =
    let (h0, h1) = NotIn-split x xs ys h in
    let ((d0, d1), a) = Distinct-split xs ys d in (((h0, d0), d1), (h1, a))

pub Apart-last : (xs ys : List ℕ) (p : ℕ) → NotIn p ys → Apart xs ys → NotIn (last_or xs p) ys
Apart-last [] ys p h a = h
Apart-last (x ∷ xs) ys p h (n, a) = Apart-last xs ys x n a

pub Apart-first : (xs ys : List ℕ) (n : ℕ) → NotIn n xs → Apart xs ys → NotIn (first_or ys n) xs
Apart-first [] ys n h a = tt
Apart-first (x ∷ xs) [] n h a = h
Apart-first (x ∷ xs) (y ∷ ys) n (ne, h) ((ne', k), a) =
    ((λ e. ne' (sym e)), Apart-first xs (y ∷ ys) n h a)

pub Apart-tail : (xs : List ℕ) (y : ℕ) (ys : List ℕ) → Apart xs (y ∷ ys) → NotIn y xs × Apart xs ys
Apart-tail [] y ys a = (tt, tt)
Apart-tail (x ∷ xs) y ys ((ne, h), a) =
    let (k, b) = Apart-tail xs y ys a in (((λ e. ne (sym e)), k), (h, b))

pub Apart-one : (xs : List ℕ) (x : ℕ) → NotIn x xs → Apart xs (x ∷ [])
Apart-one [] x h = tt
Apart-one (y ∷ xs) x (ne, h) = (((λ e. ne (sym e)), tt), Apart-one xs x h)

pub last_or-append : (xs ys : List ℕ) (p : ℕ) → last_or (xs ++ ys) p ≡ last_or ys (last_or xs p)
last_or-append [] ys p = refl
last_or-append (x ∷ xs) ys p = last_or-append xs ys x

-- A test for a null pointer that is not one.
pub link_prev-set_prev : (ls : Links) (x v : ℕ) → 0 ≢ x → link_prev ls x v ≡ set_prev ls x v
unfolding link_prev
link_prev-set_prev ls x v ne = let e : (x == 0) ≡ false = ground (arith, ne) in rw e refl

pub link_next-set_next : (ls : Links) (x v : ℕ) → 0 ≢ x → link_next ls x v ≡ set_next ls x v
unfolding link_next
link_next-set_next ls x v ne = let e : (x == 0) ≡ false = ground (arith, ne) in rw e refl

-- The ends of a segment are linked to other objects.
pub link_prev-first :
    (ls : Links) (p p' : ℕ) (xs : List ℕ) (n : ℕ)
    → Distinct xs
    → NotIn 0 xs
    → Segment ls p xs n
    → Segment (link_prev ls (first_or xs 0) p') p' xs n
link_prev-first ls p p' [] n d h s = tt
link_prev-first ls p p' (x ∷ xs) n (k, d) (ne, h) s =
    subst (λ m. Segment m p' (x ∷ xs) n) (sym (link_prev-set_prev ls x p' ne))
      (set_prev-first ls p p' x xs n k s)

pub link_next-last :
    (ls : Links) (p : ℕ) (xs : List ℕ) (n n' : ℕ)
    → Distinct xs
    → NotIn 0 xs
    → Segment ls p xs n
    → Segment (link_next ls (last_or xs 0) n') p xs n'
link_next-last ls p [] n n' d h s = tt
link_next-last ls p (x ∷ xs) n n' (k, d) (ne, h) s =
    subst (λ m. Segment m p (x ∷ xs) n')
      (sym (link_next-set_next ls (last_or xs x) n' (NotIn-last_or 0 xs x ne h)))
      (set_next-last ls p x xs n n' k d s)

pub link_next_other : (ls : Links) (x v y : ℕ) → x ≢ y → link_next ls x v y ≡ ls y
unfolding link_next
link_next_other ls x v y ne = elim (Bool-cases (x == 0)) [
  | inl e ↦ rw e refl
  | inr e ↦ rw e (set_next_other ls x v y ne)
]

pub link_prev_other : (ls : Links) (x v y : ℕ) → x ≢ y → link_prev ls x v y ≡ ls y
unfolding link_prev
link_prev_other ls x v y ne = elim (Bool-cases (x == 0)) [
  | inl e ↦ rw e refl
  | inr e ↦ rw e (set_prev_other ls x v y ne)
]
