-- ===== src/Parseargs/Leftovers.antt =====
-- The arguments that `Twapi_ParseargsObjCmd` of twapi/base/parseargs.c leaves in the variable.
use twapi.Base.{
  ◌≤◌, ◌<◌, ◌^◌, ◌≡◌, refl, sym, ap, subst, ◌∙◌, inl, inr, Bool, true, false, none, some, List, [],
  ◌∷◌, ◌++◌, arith, length, ◌==◌, Bool-cases, Option-cases, replicate, if◌then◌else◌, append_assoc,
  append_nil,
}
use twapi.Parseargs.Tcl.{
  first_byte, Tcl, done, done-eq, failed-ne-done, crashed-ne-done, Result-cases,
}
use twapi.Parseargs.Descriptor.{OptionDescriptor}
use twapi.Parseargs.Scan.{
  Arg, operand, terminator, unknown, switch, valued, Switches, Scanned, give, pass_on, classify,
  scan,
}
use twapi.Parseargs.Values.{collect}
use twapi.Parseargs.Command.{Parsed, int_below, finish, parse_argv, set_vars}

-- The first list is the second with elements left out.
data Sublist {A : Type 0} : List A → List A → Type 0 where
  nothing_left : Sublist [] []
  left_out : (x : A) {xs ys : List A} → Sublist xs ys → Sublist xs (x ∷ ys)
  left_in : (x : A) {xs ys : List A} → Sublist xs ys → Sublist (x ∷ xs) (x ∷ ys)

Sublist-all : {A : Type 0} (xs : List A) → Sublist xs xs
Sublist-all [] = nothing_left
Sublist-all (x ∷ xs) = left_in x (Sublist-all xs)

length-Sublist : {A : Type 0} {xs ys : List A} → Sublist xs ys → length xs ≤ length ys
length-Sublist nothing_left = omega arith
length-Sublist (left_out x s) = omega (arith, length-Sublist s)
length-Sublist (left_in x s) = omega (arith, length-Sublist s)

module _ {Obj Vars : Type 0} (tcl : Tcl Obj Vars) (opts : List (OptionDescriptor Obj))
    (ig : Bool) where
  -- What is passed on, and what is left behind the options, come from the arguments in order; only
  -- an ignored option is passed on.
  Kept : List Obj → List Obj → Scanned Obj × List Obj → Type 0
  Kept before argv (st, rest) =
      (kept : List Obj) × (st.newargv ≡ before ++ kept)
      × Sublist (kept ++ rest) argv
      × (ig ≡ false → kept ≡ [])

  Kept-none :
      (st : Scanned Obj) (argv rest : List Obj)
      → Sublist rest argv
      → Kept st.newargv argv (st, rest)
  unfolding Kept
  Kept-none st argv rest s = ([], sym (append_nil st.newargv), s, λ _. refl)

  Kept-one :
      (a : Obj) (before argv : List Obj) (r : Scanned Obj × List Obj)
      → ig ≡ true
      → Kept (before ++ a ∷ []) argv r
      → Kept before (a ∷ argv) r
  unfolding Kept
  Kept-one a before argv r on (kept, e, s, _) =
      (a ∷ kept, e ∙ append_assoc before (a ∷ []) kept, left_in a s, λ off. cc)

  Kept-skip :
      (a : Obj) (before argv : List Obj) (r : Scanned Obj × List Obj)
      → Kept before argv r
      → Kept before (a ∷ argv) r
  unfolding Kept
  Kept-skip a before argv r (kept, e, s, k) = (kept, e, left_out a s, k)

  Keeps : List Obj → Type 0
  Keeps argv =
      (st : Scanned Obj) (r : Scanned Obj × List Obj)
      → scan tcl opts ig argv st ≡ done r
      → Kept st.newargv argv r

  last-Keeps : (a : Obj) → Keeps (a ∷ [])
  unfolding Keeps scan
  last-Keeps a st r h = go (classify tcl opts a) refl
    where
      ends :
          (x : Scanned Obj × List Obj)
          → done x ≡ done r
          → Kept st.newargv (a ∷ []) x
          → Kept st.newargv (a ∷ []) r
      ends x e k = subst (Kept st.newargv (a ∷ [])) (done-eq x r e) k

      go : (k : Arg) → classify tcl opts a ≡ k → Kept st.newargv (a ∷ []) r
      go operand e = ends _ (rw (scan, e) at h) (Kept-none st _ _ (Sublist-all (a ∷ [])))
      go terminator e = ends _ (rw (scan, e) at h) (Kept-none st _ _ (left_out a nothing_left))
      go unknown e = elim (Bool-cases ig) [
        | inl on ↦
            ends _ (rw (scan, e, on) at h)
              (Kept-one a st.newargv [] _ on (Kept-none (pass_on a st) [] [] nothing_left))
        | inr off ↦ absurd (failed-ne-done _ r (rw (scan, e, off) at h))
      ]
      go (switch j) e =
          ends _ (rw (scan, e) at h)
            (Kept-none (give j (tcl.from_boolean true) st) _ _ (left_out a nothing_left))
      go (valued j) e = absurd (failed-ne-done _ r (rw (scan, e) at h))

  next-Keeps : (a b : Obj) (rest : List Obj) → Keeps (b ∷ rest) → Keeps rest → Keeps (a ∷ b ∷ rest)
  unfolding Keeps scan
  next-Keeps a b rest one two st r h = go (classify tcl opts a) refl
    where
      ends :
          (x : Scanned Obj × List Obj)
          → done x ≡ done r
          → Sublist x.1 (a ∷ b ∷ rest)
          → x.0 ≡ st
          → Kept st.newargv (a ∷ b ∷ rest) r
      ends x e k same =
          subst (Kept st.newargv (a ∷ b ∷ rest)) (done-eq x r e)
            (subst (λ s. Kept s.newargv (a ∷ b ∷ rest) x) same (Kept-none x.0 _ x.1 k))

      go : (k : Arg) → classify tcl opts a ≡ k → Kept st.newargv (a ∷ b ∷ rest) r
      go operand e = ends _ (rw (scan, e) at h) (Sublist-all (a ∷ b ∷ rest)) refl
      go terminator e = ends _ (rw (scan, e) at h) (left_out a (Sublist-all (b ∷ rest))) refl
      go unknown e = elim (Bool-cases ig) [
        | inl on ↦ elim (Bool-cases (first_byte (tcl.to_string b) == 45)) [
          | inl dash ↦
              Kept-one a st.newargv (b ∷ rest) r on
                (one (pass_on a st) r (rw (scan, e, on, dash) at h))
          | inr value ↦ Kept-one a st.newargv (b ∷ rest) r on (
              Kept-one b _ rest r on
                (two (pass_on b (pass_on a st)) r (rw (scan, e, on, value) at h)))
        ]
        | inr off ↦ absurd (failed-ne-done _ r (rw (scan, e, off) at h))
      ]
      go (switch j) e =
          Kept-skip a _ _ r (one (give j (tcl.from_boolean true) st) r (rw (scan, e) at h))
      go (valued j) e =
          Kept-skip a _ _ r (Kept-skip b _ _ r (two (give j b st) r (rw (scan, e) at h)))

  scan-Keeps : (argv : List Obj) → Keeps argv
  unfolding Keeps scan
  scan-Keeps [] st r h =
      subst (Kept st.newargv []) (done-eq (st, []) r h) (Kept-none st [] [] nothing_left)
  scan-Keeps (a ∷ []) st r h = last-Keeps a st r h
  scan-Keeps (a ∷ b ∷ rest) st r h =
      next-Keeps a b rest (scan-Keeps (b ∷ rest)) (scan-Keeps rest) st r h

module _ {Obj Vars : Type 0} (tcl : Tcl Obj Vars) (argv_var : Obj) (sw : Switches) where
  -- The last thing that a call has done: the arguments that are left are put into the variable.
  abbrev pub Stored : Parsed Obj Vars → Type 0
  Stored p = (vars : Vars) × (tcl.set_var vars argv_var (tcl.from_list p.leftover) ≡ some p.vars)

  finish-leftover :
      (ret : List (Obj × Obj)) (newargv rest : List Obj) (vars : Vars) (p : Parsed Obj Vars)
      → finish tcl argv_var sw ret newargv rest vars ≡ done p
      → (p.leftover ≡ newargv ++ rest) × (int_below sw.maxleftover (length rest) ≡ false) × Stored p
  unfolding finish
  finish-leftover ret newargv rest vars p h =
      elim (Bool-cases (int_below sw.maxleftover (length rest))) [
        | inl many ↦ absurd (failed-ne-done _ p (rw (finish, many) at h))
        | inr few ↦ elim (Option-cases (if sw.setvars then set_vars tcl ret vars else some vars)) [
          | inl e ↦ absurd (failed-ne-done _ p (rw (finish, few, e) at h))
          | inr (vars', e) ↦
              elim (Option-cases (tcl.set_var vars' argv_var (tcl.from_list (newargv ++ rest)))) [
                | inl e' ↦ absurd (failed-ne-done _ p (rw (finish, few, e, e') at h))
                | inr (vars'', e') ↦
                    let same = done-eq _ p (rw (finish, few, e, e') at h) in
                    (ap (λ q. q.leftover) (sym same), few, subst Stored same (vars', e'))
              ]
        ]
      ]

  -- What a call that succeeds has found.
  pub record Found (opts : List (OptionDescriptor Obj)) (argv : List Obj) (p : Parsed Obj Vars)
      : Type 0 where
    pub st : Scanned Obj
    pub rest : List Obj
    pub scanned :
        scan tcl opts sw.ignoreunknown argv
          (record { values = replicate (length opts) none; newargv = [] })
        ≡ done (st, rest)
    pub leftover : p.leftover ≡ st.newargv ++ rest
    pub few : int_below sw.maxleftover (length rest) ≡ false
    pub stored : Stored p

  pub parse_argv-Found :
      (opts : List (OptionDescriptor Obj)) (argv : List Obj) (vars : Vars) (p : Parsed Obj Vars)
      → parse_argv tcl argv_var opts sw argv vars ≡ done p
      → Found opts argv p
  unfolding parse_argv
  parse_argv-Found opts argv vars p h =
      elim (Result-cases (
        scan tcl opts sw.ignoreunknown argv
          (record { values = replicate (length opts) none; newargv = [] }))) [
            | inl ((st, rest), e) ↦ elim (Result-cases (collect tcl sw opts st.values)) [
              | inl (ret, e') ↦
                  let (l, f, w) =
                    finish-leftover ret st.newargv rest vars p (rw (parse_argv, e, e') at h) in
                  record { st = st; rest = rest; scanned = e; leftover = l; few = f; stored = w }
              | inr (inl (x, e')) ↦ absurd (failed-ne-done x p (rw (parse_argv, e, e') at h))
              | inr (inr e') ↦ absurd (crashed-ne-done p (rw (parse_argv, e, e') at h))
            ]
            | inr (inl (x, e)) ↦ absurd (failed-ne-done x p (rw (parse_argv, e) at h))
            | inr (inr e) ↦ absurd (crashed-ne-done p (rw (parse_argv, e) at h))
          ]

-- When option parsing succeeds, what it leaves in the argument variable are arguments of that
-- variable, in their order, with others left out.
parse_argv-Sublist :
    {Obj Vars : Type 0} (tcl : Tcl Obj Vars) (argv_var : Obj) (opts : List (OptionDescriptor Obj))
    (sw : Switches) (argv : List Obj) (vars : Vars) (p : Parsed Obj Vars)
    → parse_argv tcl argv_var opts sw argv vars ≡ done p
    → Sublist p.leftover argv
unfolding Kept Keeps
parse_argv-Sublist tcl argv_var opts sw argv vars p h =
    let f = parse_argv-Found tcl argv_var sw opts argv vars p h in
    let (kept, e, s, _) = scan-Keeps tcl opts sw.ignoreunknown argv _ _ f.scanned in
    subst (λ xs. Sublist xs argv) (sym (f.leftover ∙ ap (λ xs. xs ++ f.rest) e)) s

-- When option parsing without `-ignoreunknown` succeeds, for a limit `-maxleftover` that is not
-- negative and fewer than 2^31 arguments, at most that many arguments are left in the variable.
pub parse_argv-maxleftover :
    {Obj Vars : Type 0} (tcl : Tcl Obj Vars) (argv_var : Obj) (opts : List (OptionDescriptor Obj))
    (sw : Switches) (argv : List Obj) (vars : Vars) (p : Parsed Obj Vars)
    → parse_argv tcl argv_var opts sw argv vars ≡ done p
    → sw.ignoreunknown ≡ false
    → sw.maxleftover < 2 ^ 31
    → length argv < 2 ^ 31
    → length p.leftover ≤ sw.maxleftover
unfolding Kept Keeps
parse_argv-maxleftover tcl argv_var opts sw argv vars p h strict limit short =
    let f = parse_argv-Found tcl argv_var sw opts argv vars p h in
    let (kept, e, s, k) = scan-Keeps tcl opts sw.ignoreunknown argv _ _ f.scanned in
    let all : p.leftover ≡ f.rest = f.leftover ∙ ap (λ xs. xs ++ f.rest) (e ∙ k strict) in
    let fewer : length f.rest ≤ length argv =
      subst (λ xs. length xs ≤ length argv) all
        (length-Sublist (parse_argv-Sublist tcl argv_var opts sw argv vars p h)) in
    subst (λ xs. length xs ≤ sw.maxleftover) (sym all) (ground (arith, f.few))
