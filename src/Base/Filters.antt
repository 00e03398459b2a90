-- ===== src/Base/Filters.antt =====
-- `filter` by a Boolean test, and `find`, the first element that passes one.
use Prim.Native.Nat.{◌≤◌}
use mathlib.Core.Path.{◌≡◌, refl, subst}
use mathlib.Core.Logic.{inl, inr}
use mathlib.Core.Bool.{Bool, true, false}
use mathlib.Core.Option.{Option, none, some}
use mathlib.Core.List.{List, [], ◌∷◌}
use native.Mathlib.Omega.{arith}
use presslabz.Base.Tests.{if◌then◌else◌, Bool-cases}
use presslabz.Base.Lists.{In, here, there, length, any}

module _ {ℓ} {A : Type ℓ} where
  abbrev pub filter : (A → Bool) → List A → List A
  filter p [] = []
  filter p (x ∷ xs) = let rest = filter p xs in if p x then x ∷ rest else rest

  abbrev pub find : (A → Bool) → List A → Option A
  find p [] = none
  find p (x ∷ xs) = let rest = find p xs in if p x then some x else rest

  abbrev keep : Bool → A → List A → List A
  keep true x rest = x ∷ rest
  keep false x rest = rest

  In-keep :
      (p : A → Bool) {x y : A} {xs rest : List A} (b : Bool)
      → p y ≡ b
      → (In x rest → In x xs × (p x ≡ true))
      → In x (if b then y ∷ rest else rest)
      → In x (y ∷ xs) × (p x ≡ true)
  In-keep p true e ih here = (here, e)
  In-keep p true e ih (there n) = let (a, b) = ih n in (there a, b)
  In-keep p false e ih n = let (a, b) = ih n in (there a, b)

  pub In-filter : (p : A → Bool) {x : A} (xs : List A) → In x (filter p xs) → In x xs × (p x ≡ true)
  In-filter p [] m = elim m [ ]
  In-filter p {x} (y ∷ xs) m = In-keep p (p y) refl (λ n. In-filter p xs n) m

  filter-In_head : (p : A → Bool) {x : A} (xs : List A) → p x ≡ true → In x (filter p (x ∷ xs))
  filter-In_head p xs e = rw e here

  filter-In_tail :
      (p : A → Bool) {x : A} (y : A) (xs : List A) → In x (filter p xs) → In x (filter p (y ∷ xs))
  filter-In_tail p y xs m = elim (Bool-cases (p y)) [ inl e ↦ rw e (there m) | inr e ↦ rw e m ]

  pub filter-In : (p : A → Bool) {x : A} {xs : List A} → In x xs → p x ≡ true → In x (filter p xs)
  filter-In p {x} (here {xs = xs}) e = filter-In_head p xs e
  filter-In p (there {y = y} {xs = xs} m) e = filter-In_tail p y xs (filter-In p m e)

  pub length-filter_le : (p : A → Bool) (xs : List A) → length (filter p xs) ≤ length xs
  length-filter_le p [] = omega arith
  length-filter_le p (x ∷ xs) = ground (arith, length-filter_le p xs)

  pub find-In : (p : A → Bool) {x : A} (xs : List A) → find p xs ≡ some x → In x xs × (p x ≡ true)
  find-In p [] e = cc
  find-In p {x} (y ∷ xs) e = elim (Bool-cases (p y)) [
    | inl h ↦
        let same : some y ≡ some x = rw h at e in
        let eq : y ≡ x = cc in (subst (λ z. In z (y ∷ xs)) eq here, subst (λ z. p z ≡ true) eq h)
    | inr h ↦ let (a, b) = find-In p xs (rw h at e) in (there a, b)
  ]

  -- A find that fails has seen no element that passes.
  pub find-none : (p : A → Bool) {x : A} {xs : List A} → find p xs ≡ none → In x xs → p x ≡ false
  find-none p {x} (e) (here {xs = xs}) = ground arith
  find-none p e (there {y = y} {xs = xs} m) = find-none p {xs = xs} (ground arith) m

  pub find-none_intro :
      (p : A → Bool) (xs : List A) → ((x : A) → In x xs → p x ≡ false) → find p xs ≡ none
  find-none_intro p [] h = refl
  find-none_intro p (x ∷ xs) h = rw (h x here) (find-none_intro p xs (λ y m. h y (there m)))

  pub any-In : (p : A → Bool) (xs : List A) → any p xs ≡ true → (x : A) × In x xs × (p x ≡ true)
  any-In p [] h = absurd (cc)
  any-In p (x ∷ xs) h = elim (Bool-cases (p x)) [
    | inl e ↦ (x, here, e)
    | inr e ↦ let (y, m, d) = any-In p xs (ground arith) in (y, there m, d)
  ]

  pub In-any : (p : A → Bool) {x : A} {xs : List A} → In x xs → p x ≡ true → any p xs ≡ true
  In-any p here e = rw e
  In-any p (there m) e = ground (arith, In-any p m e)
