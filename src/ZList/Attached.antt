-- ===== src/ZList/Attached.antt =====
-- `ZLINK_NAMED_POSTATTACH` and `ZLINK_NAMED_PREATTACH` of twapi/include/zlist.h.
use twapi.Base.{ℕ, ◌≡◌, ◌≢◌, refl, sym, ◌∙◌, ap, subst, List, [], ◌∷◌, ◌++◌}
use twapi.ZList.Links.{Links, set_prev, set_next, link_prev, link_next, post_attach, pre_attach}
use twapi.ZList.Segments.{
  first_or, last_or, Segment, NotIn, Distinct, prev-set_prev, next-set_next, prev-set_next,
  next-set_prev, set_prev_other, set_next_other, set_prev-Segment, set_next-Segment,
  link_prev-Segment, set_next-last, set_prev-first, next-last, Segment-append, Segment-split,
}
use twapi.ZList.Represents.{
  NotIn-append, NotIn-split, NotIn-last_or, NotIn-first_or, Apart, Distinct-append, Distinct-split,
  Apart-last, Apart-first, link_prev-first, link_prev_other,
}

-- `t` is the last object before `x`, and the objects of `ys` come after it.
module _ (ls : Links) (y : ℕ) (xs : List ℕ) (x : ℕ) (ys : List ℕ)
    (linked : Segment ls 0 ((y ∷ xs) ++ ys) 0) (distinct : Distinct ((y ∷ xs) ++ ys))
    (nonnull : NotIn 0 ((y ∷ xs) ++ ys)) (fresh : NotIn x ((y ∷ xs) ++ ys)) (here : 0 ≢ x) where
  abbrev t : ℕ
  t = last_or xs y

  parts : (Distinct (y ∷ xs) × Distinct ys) × Apart (y ∷ xs) ys
  parts = Distinct-split (y ∷ xs) ys distinct

  halves : Segment ls 0 (y ∷ xs) (first_or ys 0) × Segment ls t ys 0
  halves = Segment-split ls 0 (y ∷ xs) ys 0 linked

  new : NotIn x (y ∷ xs) × NotIn x ys
  new = NotIn-split x (y ∷ xs) ys fresh

  objects : NotIn 0 (y ∷ xs) × NotIn 0 ys
  objects = NotIn-split 0 (y ∷ xs) ys nonnull

  x-ne : x ≢ t
  x-ne = NotIn-last_or x xs y new.0.0 new.0.1

  b-ne : first_or ys 0 ≢ x
  b-ne e = NotIn-first_or x ys 0 (λ q. here (sym q)) new.1 (sym e)

  abbrev linked_to : Links
  linked_to = set_next (set_next (set_prev ls x t) x (first_or ys 0)) t x

  new_next : (linked_to x).zl_next ≡ first_or ys 0
  new_next =
      ap (λ k. k.zl_next)
        (set_next_other (set_next (set_prev ls x t) x (first_or ys 0)) t x x (λ e. x-ne (sym e)))
      ∙ next-set_next (set_prev ls x t) x (first_or ys 0)

  new_prev : (linked_to x).zl_prev ≡ t
  new_prev =
      prev-set_next (set_next (set_prev ls x t) x (first_or ys 0)) t x x
      ∙ prev-set_next (set_prev ls x t) x (first_or ys 0) x
      ∙ prev-set_prev ls x t

  post_attach-eq : post_attach t x ls ≡ link_prev linked_to (first_or ys 0) x
  unfolding post_attach
  post_attach-eq =
      rw (next-set_prev ls x t t, next-last ls 0 y xs (first_or ys 0) halves.0, new_next) refl

  before_part : Segment (link_prev linked_to (first_or ys 0) x) 0 (y ∷ xs) x
  before_part =
      link_prev-Segment linked_to (first_or ys 0) x 0 (y ∷ xs) x
        (Apart-first (y ∷ xs) ys 0 objects.0 parts.1)
        (set_next-last _ 0 y xs (first_or ys 0) x parts.0.0.0 parts.0.0.1 (
          set_next-Segment (set_prev ls x t) x (first_or ys 0) 0 (y ∷ xs) (first_or ys 0) new.0
            (set_prev-Segment ls x t 0 (y ∷ xs) (first_or ys 0) new.0 halves.0)))

  after_part : Segment (link_prev linked_to (first_or ys 0) x) x ys 0
  after_part = link_prev-first linked_to t x ys 0 parts.0.1 objects.1 (
      set_next-Segment _ t x t ys 0 (Apart-last xs ys y parts.1.0 parts.1.1) (
        set_next-Segment (set_prev ls x t) x (first_or ys 0) t ys 0 new.1
          (set_prev-Segment ls x t t ys 0 new.1 halves.1)))

  new_part : Segment (link_prev linked_to (first_or ys 0) x) t (x ∷ ys) 0
  new_part =
      let same = link_prev_other linked_to (first_or ys 0) x x b-ne in
      (ap (λ k. k.zl_prev) same ∙ new_prev, (ap (λ k. k.zl_next) same ∙ new_next, after_part))

  pub post_attach-Segment : Segment (post_attach t x ls) 0 ((y ∷ xs) ++ x ∷ ys) 0
  post_attach-Segment =
      subst (λ m. Segment m 0 ((y ∷ xs) ++ x ∷ ys) 0) (sym post_attach-eq)
        (Segment-append (link_prev linked_to (first_or ys 0) x) 0 (y ∷ xs) (x ∷ ys) 0 before_part
          new_part)

  pub attached-Distinct : Distinct ((y ∷ xs) ++ x ∷ ys)
  attached-Distinct =
      Distinct-append (y ∷ xs) (x ∷ ys) parts.0.0 (new.1, parts.0.1) (more (y ∷ xs) new.0 parts.1)
    where
      more : (zs : List ℕ) → NotIn x zs → Apart zs ys → Apart zs (x ∷ ys)
      more [] h a = tt
      more (z ∷ zs) (ne, h) (n, a) = (((λ e. ne (sym e)), n), more zs h a)

  pub attached-nonnull : NotIn 0 ((y ∷ xs) ++ x ∷ ys)
  attached-nonnull = NotIn-append 0 (y ∷ xs) (x ∷ ys) objects.0 (here, objects.1)

module _ (ls : Links) (y : ℕ) (xs : List ℕ) (x : ℕ) (linked : Segment ls 0 (y ∷ xs) 0)
    (distinct : Distinct (y ∷ xs)) (fresh : NotIn x (y ∷ xs)) where
  abbrev linked_from : Links
  linked_from = set_prev (set_prev (set_next ls x y) x 0) y x

  same_link : linked_from x ≡ set_prev (set_next ls x y) x 0 x
  same_link = set_prev_other (set_prev (set_next ls x y) x 0) y x x (λ e. fresh.0 (sym e))

  first_prev : (linked_from x).zl_prev ≡ 0
  first_prev = ap (λ k. k.zl_prev) same_link ∙ prev-set_prev (set_next ls x y) x 0

  pre_attach-eq : pre_attach y x ls ≡ linked_from
  unfolding pre_attach link_next
  pre_attach-eq = rw (prev-set_next ls x y y, linked.0, first_prev) refl

  pub pre_attach-Segment : Segment (pre_attach y x ls) 0 (x ∷ y ∷ xs) 0
  pre_attach-Segment =
      subst (λ m. Segment m 0 (x ∷ y ∷ xs) 0) (sym pre_attach-eq)
        (
          first_prev,
          (
            ap (λ k. k.zl_next) same_link
                ∙ next-set_prev (set_next ls x y) x 0 x
                ∙ next-set_next ls x y,
            set_prev-first _ 0 x y xs 0 distinct.0 (
                set_prev-Segment (set_next ls x y) x 0 0 (y ∷ xs) 0 fresh
                  (set_next-Segment ls x y 0 (y ∷ xs) 0 fresh linked)),
          ),
        )
