-- ===== src/Callbacks/Counts.antt =====
-- What the operations of twapi/base/async.c do to the count of one callback.
use twapi.Base.{
  ℕ, zero, suc, ◌+◌, ◌-◌, ◌%◌, ◌^◌, ◌≡◌, refl, sym, subst, ◌≢◌, inl, inr, ◌≤◌, Bool, false, Option,
  none, some, List, [], ◌∷◌, ◌++◌, arith, ◌==◌, Bool-cases, if◌then◌else◌, one_if,
}
use twapi.Callbacks.Queue.{
  Callback, Place, fresh, unable, unsupported, sent, waiting, gave_up, owning, left, Slot, System,
  set_slot, delete_callback, unref, Request,
}

-- How often a callback stands on the queue, and in the event that is handled.
abbrev pub count : ℕ → List ℕ → ℕ
count c [] = 0
count c (d ∷ q) = one_if (c == d) + count c q

abbrev pub busy : ℕ → Option ℕ → ℕ
busy c none = 0
busy c (some d) = one_if (c == d)

abbrev pub pending : System → ℕ → ℕ
pending s c = count c s.queue + busy c s.handling

-- The reference that a thread holds.
abbrev pub shares : Place → ℕ
shares fresh = 0
shares unable = 0
shares unsupported = 0
shares sent = 0
shares (waiting r) = 1
shares gave_up = 1
shares owning = 1
shares left = 0

-- At most how often the callback is pending.
abbrev handed : Place → ℕ
handed fresh = 0
handed unable = 0
handed unsupported = 0
handed sent = 1
handed (waiting r) = 1
handed gave_up = 1
handed owning = 1
handed left = 1

-- How often the callback was deleted, where it is pending `n` times.
abbrev due : ℕ → Place → ℕ
due n fresh = 0
due n unable = 1
due n unsupported = 0
due n sent = 1 - n
due n (waiting r) = 0
due n gave_up = 0
due n owning = 0
due n left = 1 - n

pub record IsCounted (n : ℕ) (x : Slot) : Type 0 where
  pub refs : x.callback.nrefs ≡ n + shares x.place
  pub once : n ≤ handed x.place
  pub deletions : x.callback.deletions ≡ due n x.place

abbrev pub slot : Callback → Place → Slot
slot cb p = record { callback = cb; place = p }

pub count-append :
    (c : ℕ) (q : List ℕ) (d : ℕ) → count c (q ++ d ∷ []) ≡ count c q + one_if (c == d)
count-append c [] d = omega arith
count-append c (e ∷ q) d = omega (arith, count-append c q d)

pub one_if_other : (d c : ℕ) → d ≢ c → one_if (d == c) ≡ 0
one_if_other d c ne = ground (arith, ne)

pub one_if_self : (c : ℕ) → one_if (c == c) ≡ 1
one_if_self c = ground arith

-- One slot changes.
pub change :
    (slots : ℕ → Slot) (c : ℕ) (x : Slot) (p p' : ℕ → ℕ)
    → ((d : ℕ) → d ≢ c → p' d ≡ p d)
    → IsCounted (p' c) x
    → ((d : ℕ) → IsCounted (p d) (slots d))
    → (d : ℕ) → IsCounted (p' d) (set_slot slots c x d)
change slots c x p p' keep now all d = elim (Bool-cases (d == c)) [
  | inl same ↦
      subst (λ b. IsCounted (p' d) (if b then x else slots d)) (sym same)
        (subst (λ e. IsCounted (p' e) x) (ground (arith, same)) now)
  | inr other ↦
      subst (λ b. IsCounted (p' d) (if b then x else slots d)) (sym other)
        (subst (λ n. IsCounted n (slots d)) (sym (keep d (ground (arith, other)))) (all d))
]

-- The last reference is given up, or another one.
unref-last :
    (cb : Callback)
    → cb.nrefs ≡ 1
    → ((unref 1 cb).nrefs ≡ 0) × ((unref 1 cb).deletions ≡ cb.deletions + 1)
unfolding unref delete_callback
unref-last cb e = (ground (arith, e), ground (arith, e))

unref-other :
    (cb : Callback)
    → cb.nrefs ≡ 2
    → ((unref 1 cb).nrefs ≡ 1) × ((unref 1 cb).deletions ≡ cb.deletions)
unfolding unref delete_callback
unref-other cb e = (ground (arith, e), ground (arith, e))

-- What each operation does to its slot.
pub queue-IsCounted :
    (r : Request) (cb : Callback) (n : ℕ) (h : Bool)
    → cb.nrefs ≡ 0
    → cb.deletions ≡ 0
    → n ≡ 1
    → IsCounted n (
        slot
          (record cb {
            nrefs = (cb.nrefs + (if r.timeout then 2 else 1)) % 2 ^ 32;
            has_context = h;
          })
          (if r.timeout then waiting r.wants_response else sent))
queue-IsCounted r cb n h e0 e1 en = elim (Bool-cases r.timeout) [
  | inl t ↦ rw t (record { refs = omega (arith, e0, en); once = omega (arith, en); deletions = e1 })
  | inr t ↦ rw t (record {
    refs = omega (arith, e0, en);
    once = omega (arith, en);
    deletions = omega (arith, e1, en);
  })
]

pub fresh-IsCounted :
    (n : ℕ) (x : Slot)
    → x.place ≡ fresh
    → IsCounted n x
    → (n ≡ 0) × (x.callback.nrefs ≡ 0) × (x.callback.deletions ≡ 0)
fresh-IsCounted n x e v =
    let le : n ≤ 0 = subst (λ p. n ≤ handed p) e v.once in
    let refs : x.callback.nrefs ≡ n + 0 = subst (λ p. x.callback.nrefs ≡ n + shares p) e v.refs in
    (
      omega (arith, le),
      omega (arith, le, refs),
      subst (λ p. x.callback.deletions ≡ due n p) e v.deletions,
    )

last-IsCounted :
    (n : ℕ) (cb : Callback) (p : Place)
    → IsCounted (suc n) (slot cb p)
    → n ≡ 0
    → shares p ≡ 0
    → due (suc n) p ≡ 1 - suc n
    → due n p ≡ 1 - n
    → IsCounted n (slot (unref 1 (record cb { has_context = false })) p)
last-IsCounted n cb p v en es d1 d0 =
    let (u0, u1) = unref-last (record cb { has_context = false }) (omega (arith, v.refs, en, es)) in
    record {
      refs = omega (arith, u0, en, es);
      once = omega (arith, v.once);
      deletions = omega (arith, u1, v.deletions, d1, d0, en);
    }

held-IsCounted :
    (n : ℕ) (cb : Callback) (p : Place)
    → IsCounted (suc n) (slot cb p)
    → handed p ≡ 1
    → shares p ≡ 1
    → (due (suc n) p ≡ 0) × (due n p ≡ 0)
    → IsCounted n (slot (unref 1 (record cb { has_context = false })) p)
held-IsCounted n cb p v eh es (d1, d0) =
    let (u0, u1) =
      unref-other (record cb { has_context = false }) (omega (arith, v.refs, v.once, eh, es)) in
    record {
      refs = omega (arith, u0, v.once, eh, es);
      once = omega (arith, v.once);
      deletions = omega (arith, u1, v.deletions, d1, d0);
    }

pub finish-IsCounted :
    (n : ℕ) (cb : Callback) (p : Place)
    → IsCounted (suc n) (slot cb p)
    → IsCounted n (slot (unref 1 (record cb { has_context = false })) p)
finish-IsCounted n cb fresh v = absurd (omega (arith, v.once))
finish-IsCounted n cb unable v = absurd (omega (arith, v.once))
finish-IsCounted n cb unsupported v = absurd (omega (arith, v.once))
finish-IsCounted n cb sent v = last-IsCounted n cb sent v (omega (arith, v.once)) refl refl refl
finish-IsCounted n cb (waiting r) v = held-IsCounted n cb (waiting r) v refl refl (refl, refl)
finish-IsCounted n cb gave_up v = held-IsCounted n cb gave_up v refl refl (refl, refl)
finish-IsCounted n cb owning v = held-IsCounted n cb owning v refl refl (refl, refl)
finish-IsCounted n cb left v = last-IsCounted n cb left v (omega (arith, v.once)) refl refl refl

-- A thread that waited gives up its reference.
pub leave-IsCounted :
    (n : ℕ) (cb : Callback) (p : Place)
    → IsCounted n (slot cb p)
    → handed p ≡ 1
    → shares p ≡ 1
    → due n p ≡ 0
    → IsCounted n (slot (unref 1 cb) left)
leave-IsCounted zero cb p v eh es d =
    let (u0, u1) = unref-last cb (omega (arith, v.refs, es)) in
    record {
      refs = omega (arith, u0);
      once = omega arith;
      deletions = omega (arith, u1, v.deletions, d);
    }
leave-IsCounted (suc n) cb p v eh es d =
    let (u0, u1) = unref-other cb (omega (arith, v.refs, v.once, eh, es)) in
    record {
      refs = omega (arith, u0, v.once, eh);
      once = omega (arith, v.once, eh);
      deletions = omega (arith, u1, v.deletions, d, v.once, eh);
    }
