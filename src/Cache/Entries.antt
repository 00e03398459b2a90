-- ===== src/Cache/Entries.antt =====
-- Entries of Valkey: what the commands on a set do to its members and to the time it is kept.
use presslabz.Base.{
  str_eq_eq, str_eq_refl, ℕ, ◌≤◌, ◌≡◌, refl, ◌∙◌, subst, ap, ◌⊎◌, inl, inr, false, not, Option,
  none, some, List, [], ◌∷◌, String, str_eq, if◌then◌else◌, In, here, there, filter-In, any-In,
  Bool-cases,
}
use presslabz.Cache.Valkey.{
  Entry, absent, holds, set_of, smembers, has, without, with_member, set_or_absent, without_member,
  kept_until,
}

-- A law of a command at the key that it was given.
pub at_own {ℓ} : {A : Type ℓ} (k : String) (x y z : A) → x ≡ (if str_eq k k then y else z) → x ≡ y
at_own k x y z law = law ∙ ap (λ b. if b then y else z) (str_eq_refl k)

-- The key goes no earlier than `u`, if it is a set.
abbrev pub Lasts : ℕ → Entry → Type 0
Lasts u absent = Unit
Lasts u (holds v until) = Unit
Lasts u (set_of xs none) = Unit
Lasts u (set_of xs (some until)) = u ≤ until

In-set_or_absent :
    (x : String) (xs : List String) (d : Option ℕ) → In x xs → In x (smembers (set_or_absent xs d))
In-set_or_absent x [] d m = elim m [ ]
In-set_or_absent x (y ∷ ys) d m = m

pub In-without_member :
    (x y : String) (e : Entry)
    → str_eq x y ≡ false
    → In x (smembers e)
    → In x (smembers (without_member y e))
In-without_member x y absent d m = elim m [ ]
In-without_member x y (holds v u) d m = elim m [ ]
In-without_member x y (set_of xs u) d m =
    In-set_or_absent x (without y xs) u (filter-In (λ z. not (str_eq z y)) m (ap not d))

pub In-with_member :
    (x y : String) (e : Entry) → In x (smembers e) → In x (smembers (with_member y e))
In-with_member x y absent m = elim m [ ]
In-with_member x y (holds v u) m = elim m [ ]
In-with_member x y (set_of xs u) m = elim (Bool-cases (has y xs)) [
  | inl e ↦ rw e m
  | inr e ↦ rw e (there m)
]

Lasts-set_or_absent :
    (u : ℕ) (xs ys : List String) (d : Option ℕ)
    → Lasts u (set_of xs d)
    → Lasts u (set_or_absent ys d)
Lasts-set_or_absent u xs [] d h = tt
Lasts-set_or_absent u xs (y ∷ ys) none h = tt
Lasts-set_or_absent u xs (y ∷ ys) (some d) h = h

pub Lasts-without_member :
    (u : ℕ) (y : String) (e : Entry) → Lasts u e → Lasts u (without_member y e)
Lasts-without_member u y absent h = tt
Lasts-without_member u y (holds v d) h = tt
Lasts-without_member u y (set_of xs d) h = Lasts-set_or_absent u xs (without y xs) d h

pub Lasts-with_member : (u : ℕ) (y : String) (e : Entry) → Lasts u e → Lasts u (with_member y e)
Lasts-with_member u y absent h = tt
Lasts-with_member u y (holds v d) h = tt
Lasts-with_member u y (set_of xs none) h = tt
Lasts-with_member u y (set_of xs (some d)) h = h

pub Lasts-kept_until : (u d : ℕ) (e : Entry) → u ≤ d → Lasts u (kept_until d e)
Lasts-kept_until u d absent h = tt
Lasts-kept_until u d (holds v x) h = tt
Lasts-kept_until u d (set_of xs x) h = h

pub smembers-kept_until : (d : ℕ) (e : Entry) → smembers (kept_until d e) ≡ smembers e
smembers-kept_until d absent = refl
smembers-kept_until d (holds v x) = refl
smembers-kept_until d (set_of xs x) = refl

-- The key holds no string, so that the commands on sets do not fail.
abbrev pub IsSetLike : Entry → Type 0
IsSetLike absent = Unit
IsSetLike (holds v until) = ⊥
IsSetLike (set_of xs until) = Unit

pub IsSetLike-with_member : (y : String) (e : Entry) → IsSetLike e → IsSetLike (with_member y e)
IsSetLike-with_member y absent h = tt
IsSetLike-with_member y (set_of xs d) h = tt
IsSetLike-with_member y (holds v d) h = absurd h

IsSetLike-set_or_absent : (xs : List String) (d : Option ℕ) → IsSetLike (set_or_absent xs d)
IsSetLike-set_or_absent [] d = tt
IsSetLike-set_or_absent (x ∷ xs) d = tt

pub IsSetLike-without_member :
    (y : String) (e : Entry) → IsSetLike e → IsSetLike (without_member y e)
IsSetLike-without_member y absent h = tt
IsSetLike-without_member y (set_of xs d) h = IsSetLike-set_or_absent (without y xs) d
IsSetLike-without_member y (holds v d) h = absurd h

pub IsSetLike-kept_until : (d : ℕ) (e : Entry) → IsSetLike e → IsSetLike (kept_until d e)
IsSetLike-kept_until d absent h = tt
IsSetLike-kept_until d (set_of xs x) h = tt
IsSetLike-kept_until d (holds v x) h = absurd h

with_member-In :
    (x : String) (xs : List String) (d : Option ℕ) → In x (smembers (with_member x (set_of xs d)))
with_member-In x xs d = elim (Bool-cases (has x xs)) [
  | inl e ↦
      let (y, m, same) = any-In (λ z. str_eq z x) xs e in
      rw e (subst (λ z. In z xs) (str_eq_eq y x same) m)
  | inr e ↦ rw e here
]

pub In-with_member_self : (x : String) (e : Entry) → IsSetLike e → In x (smembers (with_member x e))
In-with_member_self x absent h = here
In-with_member_self x (set_of xs d) h = with_member-In x xs d
In-with_member_self x (holds v d) h = absurd h

pub In_head : (x y : String) (xs : List String) → In x (y ∷ xs) → In x xs ⊎ (x ≡ y)
In_head x y xs here = inr refl
In_head x y xs (there m) = inl m

pub with_member-In_only :
    (x y : String) (e : Entry) → In x (smembers (with_member y e)) → In x (smembers e) ⊎ (x ≡ y)
with_member-In_only x y absent here = inr refl
with_member-In_only x y absent (there m) = elim m [ ]
with_member-In_only x y (holds v u) m = elim m [ ]
with_member-In_only x y (set_of xs u) m = elim (Bool-cases (has y xs)) [
  | inl e ↦ inl (rw e at m)
  | inr e ↦ In_head x y xs (rw e at m)
]
