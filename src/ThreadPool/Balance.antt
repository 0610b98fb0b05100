-- ===== src/ThreadPool/Balance.antt =====
-- The balance of registrations that are made and freed in twapi/base/threadpool.c.
use twapi.Base.{
  ℕ, suc, ◌+◌, ◌-◌, ◌%◌, ◌^◌, ◌<◌, ◌≡◌, refl, sym, ap, subst, inl, inr, Bool, true, false, some,
  List, [], ◌∷◌, length, arith, ltb, ◌==◌, Bool-cases, Option-cases, one_if,
}
use twapi.ThreadPool.Registrations.{
  Registration, Context, registration_unref, remove_registration, locate_registration, shutdown,
  register, unregister, registration_callback, Operation, registering, unregistering, signalling,
  operate, operate_all, new_context,
}

-- A registration that the thread pool and the list refer to.
abbrev pub live : ℕ → ℕ → Registration
live id h = record { id = id; handle = some h; tp_handle = true; has_context = true; nrefs = 2 }

abbrev pub IsLive : Registration → Type 0
IsLive r = (h : ℕ) × (r ≡ live r.id h)

abbrev pub AllLive : List Registration → Type 0
AllLive [] = Unit
AllLive (r ∷ rs) = IsLive r × AllLive rs

abbrev pub count : ℕ → List ℕ → ℕ
count i [] = 0
count i (j ∷ js) = one_if (j == i) + count i js

abbrev pub ids : List Registration → List ℕ
ids [] = []
ids (r ∷ rs) = r.id ∷ ids rs

-- Each registration so far is on the list, or was freed once; each on the list has a reference to the
-- context.
pub record IsBalanced (base : ℕ) (c : Context) : Type 0 where
  pub refs : c.nrefs ≡ (base + length c.threadpool_registrations) % 2 ^ 32
  pub all_live : AllLive c.threadpool_registrations
  pub balance :
      (i : ℕ)
      → count i (ids c.threadpool_registrations) + count i c.freed ≡ one_if (ltb i c.next_id)

pub record IsRemoved (r : Registration) (rs rest : List Registration) : Type 0 where
  pub is_live : IsLive r
  pub others : AllLive rest
  pub shorter : suc (length rest) ≡ length rs
  pub counts : (i : ℕ) → one_if (r.id == i) + count i (ids rest) ≡ count i (ids rs)

pub locate_registration-IsRemoved :
    (id : ℕ) (rs : List Registration) (r : Registration)
    → AllLive rs
    → locate_registration id rs ≡ some r
    → IsRemoved r rs (remove_registration r.id rs)
unfolding locate_registration remove_registration
locate_registration-IsRemoved id [] r a h = cc
locate_registration-IsRemoved id (x ∷ rs) r (l, a) h = elim (Bool-cases (x.id == id)) [
  | inl hit ↦
      let e : x ≡ r = some-eq (rw (locate_registration, hit) at h) in
      subst (λ y. IsRemoved y (x ∷ rs) (remove_registration y.id (x ∷ rs))) e
        (let same : (x.id == x.id) ≡ true = ground arith in
          rw (remove_registration, same)
            (record { is_live = l; others = a; shorter = refl; counts = λ i. refl }))
  | inr miss ↦
      let v = locate_registration-IsRemoved id rs r a (rw (locate_registration, miss) at h) in
      elim (Bool-cases (x.id == r.id)) [
        | inr other ↦
            rw (remove_registration, other)
              (record {
                is_live = v.is_live;
                others = (l, v.others);
                shorter = omega (arith, v.shorter);
                counts = λ i. omega (arith, v.counts i);
              })
        | inl same ↦
            rw (remove_registration, same)
              (record {
                is_live = v.is_live;
                others = a;
                shorter = refl;
                counts = λ i.
                    let e : x.id ≡ r.id = ground (arith, same) in
                    ap (λ j. one_if (j == i) + count i (ids rs)) (sym e);
              })
      ]
]
  where
    some-eq : {y z : Registration} → some y ≡ some z → y ≡ z
    some-eq q = cc

-- What the shutdown of a live registration does.
pub record IsShutDown (r : Registration) (c c' : Context) : Type 0 where
  pub list : c'.threadpool_registrations ≡ remove_registration r.id c.threadpool_registrations
  pub context : c'.nrefs ≡ (c.nrefs + (2 ^ 32 - 1)) % 2 ^ 32
  pub frees : c'.freed ≡ r.id ∷ c.freed
  pub same_id : c'.next_id ≡ c.next_id

pub shutdown-IsShutDown :
    (has_handler : Bool) (r : Registration) (c : Context)
    → IsLive r
    → IsShutDown r c (shutdown has_handler r c)
unfolding shutdown registration_unref
shutdown-IsShutDown has_handler r c (h, e) =
    subst (λ x. IsShutDown x c (shutdown has_handler x c)) (sym e) (go has_handler)
  where
    go : (b : Bool) → IsShutDown (live r.id h) c (shutdown b (live r.id h) c)
    go true = record { list = refl; context = refl; frees = refl; same_id = refl }
    go false = record { list = refl; context = refl; frees = refl; same_id = refl }

pub shutdown-IsBalanced :
    (base : ℕ) (has_handler : Bool) (id : ℕ) (r : Registration) (c : Context)
    → locate_registration id c.threadpool_registrations ≡ some r
    → IsBalanced base c
    → IsBalanced base (shutdown has_handler r c)
shutdown-IsBalanced base has_handler id r c e v =
    let m = locate_registration-IsRemoved id c.threadpool_registrations r v.all_live e in
    let d = shutdown-IsShutDown has_handler r c m.is_live in
    record {
      refs = rw d.list (omega (arith, d.context, v.refs, m.shorter));
      all_live = rw d.list m.others;
      balance = λ i. rw (d.list, d.frees, d.same_id) (omega (arith, v.balance i, m.counts i));
    }

count-next : (i n : ℕ) → one_if (n == i) + one_if (ltb i n) ≡ one_if (ltb i (n + 1))
count-next i n = ground arith

register-IsBalanced :
    (base : ℕ) (has_handler ok : Bool) (h : ℕ) (c : Context)
    → IsBalanced base c
    → IsBalanced base (register 0 has_handler ok h c)
unfolding register registration_unref shutdown remove_registration
register-IsBalanced base has_handler true h c v = record {
  refs = omega (arith, v.refs);
  all_live = ((h, refl), v.all_live);
  balance = λ i. omega (arith, v.balance i, count-next i c.next_id);
}
register-IsBalanced base true false h c v =
    let same : (c.next_id == c.next_id) ≡ true = ground arith in
    rw same (record {
      refs = omega (arith, v.refs);
      all_live = v.all_live;
      balance = λ i. omega (arith, v.balance i, count-next i c.next_id);
    })
register-IsBalanced base false false h c v =
    let same : (c.next_id == c.next_id) ≡ true = ground arith in
    rw same (record {
      refs = omega (arith, v.refs);
      all_live = v.all_live;
      balance = λ i. omega (arith, v.balance i, count-next i c.next_id);
    })

unregister-IsBalanced :
    (base : ℕ) (has_handler : Bool) (id : ℕ) (c : Context)
    → IsBalanced base c
    → IsBalanced base (unregister has_handler id c)
unfolding unregister
unregister-IsBalanced base has_handler id c v =
    elim (Option-cases (locate_registration id c.threadpool_registrations)) [
      | inl e ↦ rw (unregister, e) v
      | inr (r, e) ↦ rw (unregister, e) (shutdown-IsBalanced base has_handler id r c e v)
    ]

registration_callback-IsBalanced :
    (base : ℕ) (id : ℕ) (c : Context)
    → IsBalanced base c
    → IsBalanced base (registration_callback id c)
unfolding registration_callback
registration_callback-IsBalanced base id c v =
    elim (Option-cases (locate_registration id c.threadpool_registrations)) [
      | inl e ↦ rw (registration_callback, e) v
      | inr (r, e) ↦
          rw (registration_callback, e)
            (record { refs = v.refs; all_live = v.all_live; balance = v.balance })
    ]

pub operate_all-IsBalanced :
    (base : ℕ) (has_handler : Bool) (os : List Operation) (c : Context)
    → IsBalanced base c
    → IsBalanced base (operate_all has_handler os c)
unfolding operate_all operate
operate_all-IsBalanced base has_handler [] c v = v
operate_all-IsBalanced base has_handler (registering ok h ∷ os) c v =
    operate_all-IsBalanced base has_handler os _ (register-IsBalanced base has_handler ok h c v)
operate_all-IsBalanced base has_handler (unregistering id ∷ os) c v =
    operate_all-IsBalanced base has_handler os _ (unregister-IsBalanced base has_handler id c v)
operate_all-IsBalanced base has_handler (signalling id ∷ os) c v =
    operate_all-IsBalanced base has_handler os _ (registration_callback-IsBalanced base id c v)

pub new_context-IsBalanced : (base : ℕ) → base < 2 ^ 32 → IsBalanced base (new_context base)
new_context-IsBalanced base lt = record {
  refs = omega (arith, lt);
  all_live = tt;
  balance = λ i. ground arith;
}
