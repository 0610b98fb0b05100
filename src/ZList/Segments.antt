-- ===== src/ZList/Segments.antt =====
-- A segment of a doubly linked list of twapi/include/zlist.h, as a relation between links and a list of
-- objects, and what assignments to links do to it.
use twapi.Base.{
  ℕ, ◌≡◌, ◌≢◌, refl, sym, ◌∙◌, ap, inl, inr, true, false, List, [], ◌∷◌, ◌++◌, arith, ◌==◌,
  Bool-cases,
}
use twapi.ZList.Links.{Links, set_prev, set_next, link_prev, link_next}

abbrev pub first_or : List ℕ → ℕ → ℕ
first_or [] n = n
first_or (x ∷ xs) n = x

abbrev pub last_or : List ℕ → ℕ → ℕ
last_or [] p = p
last_or (x ∷ xs) p = last_or xs x

-- The objects `xs` are linked to each other, to `p` before them and to `n` after them.
abbrev pub Segment : Links → ℕ → List ℕ → ℕ → Type 0
Segment ls p [] n = Unit
Segment ls p (x ∷ xs) n =
    ((ls x).zl_prev ≡ p) × (((ls x).zl_next ≡ first_or xs n) × Segment ls x xs n)

abbrev pub NotIn : ℕ → List ℕ → Type 0
NotIn x [] = Unit
NotIn x (y ∷ ys) = (x ≢ y) × NotIn x ys

abbrev pub Distinct : List ℕ → Type 0
Distinct [] = Unit
Distinct (x ∷ xs) = NotIn x xs × Distinct xs

pub prev-set_prev : (ls : Links) (x v : ℕ) → (set_prev ls x v x).zl_prev ≡ v
prev-set_prev ls x v = let same : (x == x) ≡ true = ground arith in rw same refl

pub next-set_next : (ls : Links) (x v : ℕ) → (set_next ls x v x).zl_next ≡ v
next-set_next ls x v = let same : (x == x) ≡ true = ground arith in rw same refl

pub prev-set_next : (ls : Links) (x v y : ℕ) → (set_next ls x v y).zl_prev ≡ (ls y).zl_prev
prev-set_next ls x v y = elim (Bool-cases (y == x)) [ inl e ↦ rw e refl | inr e ↦ rw e refl ]

pub next-set_prev : (ls : Links) (x v y : ℕ) → (set_prev ls x v y).zl_next ≡ (ls y).zl_next
next-set_prev ls x v y = elim (Bool-cases (y == x)) [ inl e ↦ rw e refl | inr e ↦ rw e refl ]

pub set_prev_other : (ls : Links) (x v y : ℕ) → x ≢ y → set_prev ls x v y ≡ ls y
set_prev_other ls x v y ne = let e : (y == x) ≡ false = ground (arith, ne) in rw e refl

pub set_next_other : (ls : Links) (x v y : ℕ) → x ≢ y → set_next ls x v y ≡ ls y
set_next_other ls x v y ne = let e : (y == x) ≡ false = ground (arith, ne) in rw e refl

-- Links that agree on the objects of a segment.
abbrev Agree : Links → Links → List ℕ → Type 0
Agree ls ls' [] = Unit
Agree ls ls' (x ∷ xs) = (ls' x ≡ ls x) × Agree ls ls' xs

Segment-Agree :
    (ls ls' : Links) (p : ℕ) (xs : List ℕ) (n : ℕ)
    → Agree ls ls' xs
    → Segment ls p xs n
    → Segment ls' p xs n
Segment-Agree ls ls' p [] n a s = tt
Segment-Agree ls ls' p (x ∷ xs) n (e, a) (s0, (s1, s)) =
    (ap (λ l. l.zl_prev) e ∙ s0, (ap (λ l. l.zl_next) e ∙ s1, Segment-Agree ls ls' x xs n a s))

set_prev-Agree : (ls : Links) (x v : ℕ) (xs : List ℕ) → NotIn x xs → Agree ls (set_prev ls x v) xs
set_prev-Agree ls x v [] h = tt
set_prev-Agree ls x v (y ∷ ys) (ne, h) = (set_prev_other ls x v y ne, set_prev-Agree ls x v ys h)

set_next-Agree : (ls : Links) (x v : ℕ) (xs : List ℕ) → NotIn x xs → Agree ls (set_next ls x v) xs
set_next-Agree ls x v [] h = tt
set_next-Agree ls x v (y ∷ ys) (ne, h) = (set_next_other ls x v y ne, set_next-Agree ls x v ys h)

module _ (ls : Links) (x v p : ℕ) (xs : List ℕ) (n : ℕ) (h : NotIn x xs) where
  pub set_prev-Segment : Segment ls p xs n → Segment (set_prev ls x v) p xs n
  set_prev-Segment s = Segment-Agree ls (set_prev ls x v) p xs n (set_prev-Agree ls x v xs h) s

  pub set_next-Segment : Segment ls p xs n → Segment (set_next ls x v) p xs n
  set_next-Segment s = Segment-Agree ls (set_next ls x v) p xs n (set_next-Agree ls x v xs h) s

  pub link_prev-Segment : Segment ls p xs n → Segment (link_prev ls x v) p xs n
  unfolding link_prev
  link_prev-Segment s = elim (Bool-cases (x == 0)) [
    | inl e ↦ rw e s
    | inr e ↦ rw e (set_prev-Segment s)
  ]

  pub link_next-Segment : Segment ls p xs n → Segment (link_next ls x v) p xs n
  unfolding link_next
  link_next-Segment s = elim (Bool-cases (x == 0)) [
    | inl e ↦ rw e s
    | inr e ↦ rw e (set_next-Segment s)
  ]

NotIn-last : (x y : ℕ) (ys : List ℕ) → x ≢ y → NotIn x ys → x ≢ last_or ys y
NotIn-last x y [] ne h = ne
NotIn-last x y (z ∷ zs) ne (ne', h) = NotIn-last x z zs ne' h

-- The object after the last one changes.
pub set_next-last :
    (ls : Links) (p x : ℕ) (xs : List ℕ) (n n' : ℕ)
    → NotIn x xs
    → Distinct xs
    → Segment ls p (x ∷ xs) n
    → Segment (set_next ls (last_or xs x) n') p (x ∷ xs) n'
set_next-last ls p x [] n n' h d (s0, (s1, s)) =
    (prev-set_next ls x n' x ∙ s0, (next-set_next ls x n', tt))
set_next-last ls p x (y ∷ ys) n n' (ne, h) (h', d) (s0, (s1, s)) =
    let same = set_next_other ls (last_or ys y) n' x (λ e. NotIn-last x y ys ne h (sym e)) in
    (
      ap (λ l. l.zl_prev) same ∙ s0,
      (ap (λ l. l.zl_next) same ∙ s1, set_next-last ls x y ys n n' h' d s),
    )

-- The object before the first one changes.
pub set_prev-first :
    (ls : Links) (p p' x : ℕ) (xs : List ℕ) (n : ℕ)
    → NotIn x xs
    → Segment ls p (x ∷ xs) n
    → Segment (set_prev ls x p') p' (x ∷ xs) n
set_prev-first ls p p' x xs n h (s0, (s1, s)) =
    (prev-set_prev ls x p', (next-set_prev ls x p' x ∙ s1, set_prev-Segment ls x p' x xs n h s))

pub next-last :
    (ls : Links) (p x : ℕ) (xs : List ℕ) (n : ℕ)
    → Segment ls p (x ∷ xs) n
    → (ls (last_or xs x)).zl_next ≡ n
next-last ls p x [] n (s0, (s1, s)) = s1
next-last ls p x (y ∷ ys) n (s0, (s1, s)) = next-last ls x y ys n s

pub Segment-append :
    (ls : Links) (p : ℕ) (xs ys : List ℕ) (n : ℕ)
    → Segment ls p xs (first_or ys n)
    → Segment ls (last_or xs p) ys n
    → Segment ls p (xs ++ ys) n
Segment-append ls p [] ys n s t = t
Segment-append ls p (x ∷ []) ys n (s0, (s1, s)) t = (s0, (s1, t))
Segment-append ls p (x ∷ y ∷ xs) ys n (s0, (s1, s)) t =
    (s0, (s1, Segment-append ls x (y ∷ xs) ys n s t))

pub Segment-split :
    (ls : Links) (p : ℕ) (xs ys : List ℕ) (n : ℕ)
    → Segment ls p (xs ++ ys) n
    → Segment ls p xs (first_or ys n) × Segment ls (last_or xs p) ys n
Segment-split ls p [] ys n s = (tt, s)
Segment-split ls p (x ∷ []) ys n (s0, (s1, s)) = ((s0, (s1, tt)), s)
Segment-split ls p (x ∷ y ∷ xs) ys n (s0, (s1, s)) =
    let (a, b) = Segment-split ls x (y ∷ xs) ys n s in ((s0, (s1, a)), b)
