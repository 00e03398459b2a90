-- ===== src/Cache/Instants.antt =====
-- Entries of Valkey as time goes on.
use presslabz.Base.{
  ℕ, ◌≡◌, refl, sym, ap, inl, inr, Bool, true, false, Option, none, some, List, String, leb,
  if◌then◌else◌, Bool-cases, arith,
}
use presslabz.Cache.Valkey.{Value, Entry, absent, holds, set_of, get, smembers, at_instant}
use presslabz.Cache.Entries.{Lasts, IsSetLike}

-- A set that is kept at least as long as something that is still there is still there.
module _ (u t : ℕ) (alive : leb u t ≡ false) where
  pub at_instant-smembers : (e : Entry) → Lasts u e → smembers (at_instant t e) ≡ smembers e
  at_instant-smembers absent h = refl
  at_instant-smembers (holds v d) h = elim (Bool-cases (leb d t)) [
    | inl e ↦ rw e refl
    | inr e ↦ rw e refl
  ]
  at_instant-smembers (set_of xs none) h = refl
  at_instant-smembers (set_of xs (some d)) h =
      let later : leb d t ≡ false = ground (arith, alive, h) in rw later refl

  pub at_instant-Lasts : (e : Entry) → Lasts u e → Lasts u (at_instant t e)
  at_instant-Lasts absent h = tt
  at_instant-Lasts (holds v d) h = elim (Bool-cases (leb d t)) [ inl e ↦ rw e tt | inr e ↦ rw e tt ]
  at_instant-Lasts (set_of xs none) h = tt
  at_instant-Lasts (set_of xs (some d)) h =
      let later : leb d t ≡ false = ground (arith, alive, h) in rw later h

pub gone : {v : Value} {u : ℕ} → absent ≡ holds v u → ⊥
gone h = cc

gone_set : {xs : List String} {d : Option ℕ} {v : Value} {u : ℕ} → set_of xs d ≡ holds v u → ⊥
gone_set h = cc

nothing : {v : Value} → none ≡ some v → ⊥
nothing h = cc

abbrev until_of : Entry → ℕ
until_of (holds v u) = u
until_of absent = 0
until_of (set_of xs d) = 0

at_held :
    (t : ℕ) (w : Value) (d : ℕ) (v : Value) (u : ℕ) (b : Bool)
    → leb d t ≡ b
    → (if b then absent else holds w d) ≡ holds v u
    → (holds w d ≡ holds v u) × (leb u t ≡ false)
at_held t w d v u true e h = absurd (gone h)
at_held t w d v u false e h = (h, rw (sym (ap until_of h)) e)

pub at_instant-holds :
    (t : ℕ) (e : Entry) (v : Value) (u : ℕ)
    → at_instant t e ≡ holds v u
    → (e ≡ holds v u) × (leb u t ≡ false)
at_instant-holds t absent v u h = absurd (cc)
at_instant-holds t (holds w d) v u h = at_held t w d v u (leb d t) refl h
at_instant-holds t (set_of xs none) v u h = absurd (cc)
at_instant-holds t (set_of xs (some d)) v u h =
    absurd (elim (Bool-cases (leb d t)) [ inl e ↦ gone (rw e at h) | inr e ↦ gone_set (rw e at h) ])

pub at_instant-IsSetLike : (t : ℕ) (e : Entry) → IsSetLike e → IsSetLike (at_instant t e)
at_instant-IsSetLike t absent h = tt
at_instant-IsSetLike t (set_of xs none) h = tt
at_instant-IsSetLike t (set_of xs (some d)) h = elim (Bool-cases (leb d t)) [
  | inl e ↦ rw e tt
  | inr e ↦ rw e tt
]
at_instant-IsSetLike t (holds v d) h = absurd h

pub at_instant-get :
    (t : ℕ) (e : Entry) (v : Value) → get (at_instant t e) ≡ some v → get e ≡ some v
at_instant-get t absent v h = h
at_instant-get t (set_of xs none) v h = h
at_instant-get t (set_of xs (some d)) v h = elim (Bool-cases (leb d t)) [
  | inl e ↦ rw e at h
  | inr e ↦ rw e at h
]
at_instant-get t (holds w d) v h = elim (Bool-cases (leb d t)) [
  | inl e ↦ absurd (nothing (rw e at h))
  | inr e ↦ rw e at h
]
