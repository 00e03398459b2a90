-- ===== src/Content/Write/Publish/Claimed.antt =====
-- The rows that a publication pass claims are those that are due, each of them once.
use presslabz.Base.{
  ◌≡◌, refl, sym, true, List, [], ◌∷◌, arith, Bool-cases, inl, inr, ◌==◌, ==_iff, In, here, there,
  In-any,
}
use presslabz.Content.Rows.{ContentRow}
use presslabz.Content.Database.{unique_by}
use presslabz.Content.Write.Publish.{insert_due, sort_due, goes_first}

-- Rows of a table with a primary key are the same if their ids are.
pub unique-In :
    {a b : ContentRow} (rows : List ContentRow)
    → unique_by (λ a b. a.id == b.id) rows ≡ true
    → In a rows
    → In b rows
    → a.id ≡ b.id
    → a ≡ b
unique-In [] u m n e = elim m [ ]
unique-In (x ∷ rows) u here here e = refl
unique-In {b = b} (x ∷ rows) u here (there n) e =
    absurd (ground (arith, u, In-any (λ (y : ContentRow). x.id == y.id) n ((==_iff x.id b.id).1 e)))
unique-In {a = a} (x ∷ rows) u (there m) here e =
    absurd (
      ground (arith, u, In-any (λ (y : ContentRow). x.id == y.id) m ((==_iff x.id a.id).1 (sym e))))
unique-In (x ∷ rows) u (there m) (there n) e = unique-In rows (ground (arith, u)) m n e

In-insert_due_self : (r : ContentRow) (xs : List ContentRow) → In r (insert_due r xs)
unfolding insert_due
In-insert_due_self r [] = here
In-insert_due_self r (x ∷ xs) = elim (Bool-cases (goes_first x r)) [
  | inl e ↦ rw e (there (In-insert_due_self r xs))
  | inr e ↦ rw e here
]

In-insert_due :
    {y : ContentRow} (r : ContentRow) {xs : List ContentRow} → In y xs → In y (insert_due r xs)
unfolding insert_due
In-insert_due {y} r (here {xs = xs}) = elim (Bool-cases (goes_first y r)) [
  | inl e ↦ rw e here
  | inr e ↦ rw e (there here)
]
In-insert_due r (there {y = x} {xs = xs} m) = elim (Bool-cases (goes_first x r)) [
  | inl e ↦ rw e (there (In-insert_due r m))
  | inr e ↦ rw e (there (there m))
]

pub In-sort_due : {y : ContentRow} {xs : List ContentRow} → In y xs → In y (sort_due xs)
unfolding sort_due
In-sort_due (here {xs = xs}) = In-insert_due_self _ (sort_due xs)
In-sort_due (there {y = x} m) = In-insert_due x (In-sort_due m)

In-cons :
    {y : ContentRow} (x : ContentRow) (xs ys : List ContentRow)
    → (In y xs → In y ys)
    → In y (x ∷ xs)
    → In y (x ∷ ys)
In-cons x xs ys h here = here
In-cons x xs ys h (there m) = there (h m)

In-swap :
    {y : ContentRow} (a b : ContentRow) (xs : List ContentRow)
    → In y (a ∷ b ∷ xs)
    → In y (b ∷ a ∷ xs)
In-swap a b xs here = there here
In-swap a b xs (there here) = here
In-swap a b xs (there (there m)) = there (there m)

insert_due-In :
    {y : ContentRow} (r : ContentRow) (xs : List ContentRow)
    → In y (insert_due r xs)
    → In y (r ∷ xs)
unfolding insert_due
insert_due-In r [] m = m
insert_due-In r (x ∷ xs) m = elim (Bool-cases (goes_first x r)) [
  | inl e ↦ In-swap x r xs (In-cons x (insert_due r xs) (r ∷ xs) (insert_due-In r xs) (rw e at m))
  | inr e ↦ rw e at m
]

pub sort_due-In : {y : ContentRow} (xs : List ContentRow) → In y (sort_due xs) → In y xs
unfolding sort_due
sort_due-In [] m = m
sort_due-In (x ∷ xs) m =
    In-cons x (sort_due xs) xs (sort_due-In xs) (insert_due-In x (sort_due xs) m)
