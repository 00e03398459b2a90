-- ===== src/Hooks/Order.antt =====
-- packages/core/src/hooks.ts: `byPriority` sorts, and leaves nothing out.
use presslabz.Base.{
  suc, ◌<◌, ◌≤◌, ltb, ◌⊎◌, ◌≡◌, refl, sym, ◌∙◌, ap, inl, inr, Bool, true, false, List, [], ◌∷◌, All,
  In, here, there, filter, length, Bool-cases, arith,
}
use presslabz.Hooks.Registry.{Registration, comes_before, insert_by_priority, by_priority}

module _ {A : Type 0} where
  -- An element of a list behind its head, or of another list there.
  under_head : {x r : A} {xs ys : List A} → (In x xs → In x ys) → In x (r ∷ xs) → In x (r ∷ ys)
  under_head f here = here
  under_head f (there m) = there (f m)

  past : {x r y : A} {ys : List A} → In x (r ∷ ys) → In x (r ∷ y ∷ ys)
  past here = here
  past (there m) = there (there m)

  second :
      {x r y : A} {xs ys : List A} → (In x xs → In x (r ∷ ys)) → In x (y ∷ xs) → In x (r ∷ y ∷ ys)
  second f here = there here
  second f (there m) = past (f m)

module _ {H : Type 0} where
  -- `r` has the lower priority, or the same and was not registered later than `x`.
  abbrev pub IsInTurn : Registration H → Registration H → Type 0
  IsInTurn r x = (r.priority < x.priority) ⊎ ((r.priority ≡ x.priority) × (r.order ≤ x.order))

  -- Each of the handlers is in turn with all that come later.
  abbrev pub IsOrdered : List (Registration H) → Type 0
  IsOrdered [] = Unit
  IsOrdered (r ∷ rs) = All (IsInTurn r) rs × IsOrdered rs

  abbrev Ordered : List (Registration H) → Type 0
  Ordered [] = Unit
  Ordered (r ∷ rs) = All (λ x. comes_before x r ≡ false) rs × Ordered rs

  before_asym : (a b : Registration H) → comes_before a b ≡ true → comes_before b a ≡ false
  before_asym a b h = ground arith

  before_trans :
      (a b c : Registration H)
      → comes_before a b ≡ false
      → comes_before b c ≡ false
      → comes_before a c ≡ false
  before_trans a b c h g = ground arith

  All-later :
      (x r : Registration H) (xs : List (Registration H))
      → comes_before x r ≡ false
      → All (λ y. comes_before y x ≡ false) xs
      → All (λ y. comes_before y r ≡ false) xs
  All-later x r [] h a = tt
  All-later x r (y ∷ ys) h (a, as') = (before_trans y x r a h, All-later x r ys h as')

  All-insert :
      (x r : Registration H) (xs : List (Registration H))
      → comes_before r x ≡ false
      → All (λ y. comes_before y x ≡ false) xs
      → All (λ y. comes_before y x ≡ false) (insert_by_priority r xs)
  unfolding insert_by_priority
  All-insert x r [] h a = (h, tt)
  All-insert x r (y ∷ ys) h (a, b) = elim (Bool-cases (comes_before y r)) [
    | inl e ↦ rw e (a, All-insert x r ys h b)
    | inr e ↦ rw e (h, (a, b))
  ]

  insert-Ordered :
      (r : Registration H) (xs : List (Registration H))
      → Ordered xs
      → Ordered (insert_by_priority r xs)
  unfolding insert_by_priority
  insert-Ordered r [] h = (tt, tt)
  insert-Ordered r (x ∷ xs) (a, b) = elim (Bool-cases (comes_before x r)) [
    | inl e ↦ rw e (All-insert x r xs (before_asym x r e) a, insert-Ordered r xs b)
    | inr e ↦ rw e ((e, All-later x r xs e a), (a, b))
  ]

  pub by_priority-Ordered : (rs : List (Registration H)) → Ordered (by_priority rs)
  unfolding by_priority
  by_priority-Ordered [] = tt
  by_priority-Ordered (r ∷ rs) = insert-Ordered r (by_priority rs) (by_priority-Ordered rs)

  All-filter :
      (p : Registration H → Bool) (r : Registration H) (xs : List (Registration H))
      → All (λ y. comes_before y r ≡ false) xs
      → All (λ y. comes_before y r ≡ false) (filter p xs)
  All-filter p r [] h = tt
  All-filter p r (x ∷ xs) (a, b) = elim (Bool-cases (p x)) [
    | inl e ↦ rw e (a, All-filter p r xs b)
    | inr e ↦ rw e (All-filter p r xs b)
  ]

  insert-least :
      (r : Registration H) (xs : List (Registration H))
      → All (λ y. comes_before y r ≡ false) xs
      → insert_by_priority r xs ≡ r ∷ xs
  unfolding insert_by_priority
  insert-least r [] h = refl
  insert-least r (x ∷ xs) (a, b) = rw a refl

  filter-insert_kept :
      (p : Registration H → Bool) (r : Registration H) (xs : List (Registration H))
      → p r ≡ true
      → Ordered xs
      → filter p (insert_by_priority r xs) ≡ insert_by_priority r (filter p xs)
  unfolding insert_by_priority
  filter-insert_kept p r [] e h = rw e refl
  filter-insert_kept p r (x ∷ xs) e (a, b) = elim (Bool-cases (comes_before x r)) [
    | inl c ↦ elim (Bool-cases (p x)) [
      | inl d ↦ rw c (rw d (rw c (ap (λ ys. x ∷ ys) (filter-insert_kept p r xs e b))))
      | inr d ↦ rw c (rw d (filter-insert_kept p r xs e b))
    ]
    | inr c ↦ elim (Bool-cases (p x)) [
      | inl d ↦ rw c (rw e (rw d (rw c refl)))
      | inr d ↦ rw c (
          rw e
            (rw d (sym (insert-least r (filter p xs) (All-filter p r xs (All-later x r xs c a))))))
    ]
  ]

  filter-insert_dropped :
      (p : Registration H → Bool) (r : Registration H) (xs : List (Registration H))
      → p r ≡ false
      → filter p (insert_by_priority r xs) ≡ filter p xs
  unfolding insert_by_priority
  filter-insert_dropped p r [] e = rw e refl
  filter-insert_dropped p r (x ∷ xs) e = elim (Bool-cases (comes_before x r)) [
    | inl c ↦ elim (Bool-cases (p x)) [
      | inl d ↦ rw c (rw d (ap (λ ys. x ∷ ys) (filter-insert_dropped p r xs e)))
      | inr d ↦ rw c (rw d (filter-insert_dropped p r xs e))
    ]
    | inr c ↦ rw c (rw e refl)
  ]

  -- Sorting the handlers that pass a test is leaving out the others from the sorted ones.
  pub by_priority-filter :
      (p : Registration H → Bool) (rs : List (Registration H))
      → by_priority (filter p rs) ≡ filter p (by_priority rs)
  unfolding by_priority
  by_priority-filter p [] = refl
  by_priority-filter p (r ∷ rs) = elim (Bool-cases (p r)) [
    | inl e ↦ rw e (
        ap (insert_by_priority r) (by_priority-filter p rs)
        ∙ sym (filter-insert_kept p r (by_priority rs) e (by_priority-Ordered rs)))
    | inr e ↦ rw e (by_priority-filter p rs ∙ sym (filter-insert_dropped p r (by_priority rs) e))
  ]

  insert-In :
      (x r : Registration H) (xs : List (Registration H))
      → In x (insert_by_priority r xs)
      → In x (r ∷ xs)
  unfolding insert_by_priority
  insert-In x r [] m = m
  insert-In x r (y ∷ ys) m = elim (Bool-cases (comes_before y r)) [
    | inl e ↦ second (insert-In x r ys) (rw e at m)
    | inr e ↦ rw e at m
  ]

  pub by_priority-In :
      (x : Registration H) (rs : List (Registration H)) → In x (by_priority rs) → In x rs
  unfolding by_priority
  by_priority-In x [] m = m
  by_priority-In x (r ∷ rs) m = under_head (by_priority-In x rs) (insert-In x r (by_priority rs) m)

  length-insert :
      (r : Registration H) (xs : List (Registration H))
      → length (insert_by_priority r xs) ≡ suc (length xs)
  unfolding insert_by_priority
  length-insert r [] = refl
  length-insert r (x ∷ xs) = elim (Bool-cases (comes_before x r)) [
    | inl e ↦ rw e (ap suc (length-insert r xs))
    | inr e ↦ rw e refl
  ]

  pub length-by_priority : (rs : List (Registration H)) → length (by_priority rs) ≡ length rs
  unfolding by_priority
  length-by_priority [] = refl
  length-by_priority (r ∷ rs) = length-insert r (by_priority rs) ∙ ap suc (length-by_priority rs)

  not_before-IsInTurn : (r x : Registration H) → comes_before x r ≡ false → IsInTurn r x
  not_before-IsInTurn r x e = elim (Bool-cases (ltb r.priority x.priority)) [
    | inl l ↦ inl (ground (arith, l))
    | inr g ↦ inr (ground (arith, g, e), ground (arith, g, e))
  ]

  All-IsInTurn :
      (r : Registration H) (xs : List (Registration H))
      → All (λ x. comes_before x r ≡ false) xs
      → All (IsInTurn r) xs
  All-IsInTurn r [] h = tt
  All-IsInTurn r (x ∷ xs) (a, b) = (not_before-IsInTurn r x a, All-IsInTurn r xs b)

  Ordered-IsOrdered : (rs : List (Registration H)) → Ordered rs → IsOrdered rs
  Ordered-IsOrdered [] h = tt
  Ordered-IsOrdered (r ∷ rs) (a, b) = (All-IsInTurn r rs a, Ordered-IsOrdered rs b)

  -- The handlers run by priority and, at the same priority, in the order that they were
  -- registered; each is run, as often as it was registered: for any test on registrations, as
  -- many of the sorted ones pass as of the registered ones.
  pub by_priority-IsSorted :
      (p : Registration H → Bool) (rs : List (Registration H))
      → IsOrdered (by_priority rs) × (length (filter p (by_priority rs)) ≡ length (filter p rs))
  by_priority-IsSorted p rs = (
    Ordered-IsOrdered (by_priority rs) (by_priority-Ordered rs),
    ap length (sym (by_priority-filter p rs)) ∙ length-by_priority (filter p rs),
  )
