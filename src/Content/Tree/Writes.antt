-- ===== src/Content/Tree/Writes.antt =====
-- What a row looks like after an update, an insert and a delete, and the forests these leave.
use presslabz.Base.{
  ◌≡◌, refl, ap, false, not, Option, none, some, List, [], ◌∷◌, ◌++◌, arith, ◌==◌, Bool-cases, inl,
  inr, map, filter, if◌then◌else◌,
}
use presslabz.Access.Ownership.{Uuid}
use presslabz.Content.Rows.{ContentRow}
use presslabz.Content.Tree.{find_row, parent_at, parent_of_row}

abbrev pub written : (ContentRow → ContentRow) → Option ContentRow → Option ContentRow
written f none = none
written f (some r) = some (f r)

pub find_row-map :
    (g : ContentRow → ContentRow)
    → ((r : ContentRow) → (g r).id ≡ r.id)
    → (x : Uuid) (rows : List ContentRow) → find_row x (map g rows) ≡ written g (find_row x rows)
unfolding find_row
find_row-map g same x [] = refl
find_row-map g same x (r ∷ rows) = elim (Bool-cases (r.id == x)) [
  | inl e ↦ ground (arith, e, same r)
  | inr e ↦ ground (arith, e, same r, find_row-map g same x rows)
]

-- The rows but one.
abbrev pub without : Uuid → List ContentRow → List ContentRow
without id rows = filter (λ r. not (r.id == id)) rows

pub find_row-without :
    (id x : Uuid) (rows : List ContentRow)
    → x == id ≡ false
    → find_row x (without id rows) ≡ find_row x rows
unfolding find_row
find_row-without id x [] ne = refl
find_row-without id x (r ∷ rows) ne = elim (Bool-cases (r.id == id)) [
  | inl e ↦ ground (arith, e, ne, find_row-without id x rows ne)
  | inr e ↦ ground (arith, e, ne, find_row-without id x rows ne)
]

pub find_row-without_self :
    (id : Uuid) (rows : List ContentRow) → find_row id (without id rows) ≡ none
unfolding find_row
find_row-without_self id [] = refl
find_row-without_self id (r ∷ rows) = elim (Bool-cases (r.id == id)) [
  | inl e ↦ ground (arith, e, find_row-without_self id rows)
  | inr e ↦ ground (arith, e, find_row-without_self id rows)
]

pub find_row-append :
    (x : Uuid) (rows : List ContentRow) (row r : ContentRow)
    → find_row x rows ≡ some r
    → find_row x (rows ++ row ∷ []) ≡ some r
unfolding find_row
find_row-append x [] row r e = absurd (cc)
find_row-append x (y ∷ rows) row r e = elim (Bool-cases (y.id == x)) [
  | inl h ↦ ground (arith, e, h)
  | inr h ↦ ground (arith, e, h, find_row-append x rows row r (ground (arith, e, h)))
]

pub find_row-append_new :
    (x : Uuid) (rows : List ContentRow) (row : ContentRow)
    → find_row x rows ≡ none
    → find_row x (rows ++ row ∷ []) ≡ (if row.id == x then some row else none)
unfolding find_row
find_row-append_new x [] row e = refl
find_row-append_new x (y ∷ rows) row e = elim (Bool-cases (y.id == x)) [
  | inl h ↦ absurd (ground (arith, e, h))
  | inr h ↦ ground (arith, e, h, find_row-append_new x rows row (ground (arith, e, h)))
]

pub parent_at-found :
    (rows : List ContentRow) (id : Uuid) {r : ContentRow}
    → find_row id rows ≡ some r
    → parent_at rows id ≡ some r.parent_id
unfolding parent_at
parent_at-found rows id found = ap parent_of_row found
