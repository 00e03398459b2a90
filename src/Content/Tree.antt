-- ===== src/Content/Tree.antt =====
-- `assertUsableParent` and `subtreeHeight` of packages/db/src/repositories/contents.ts: where a
-- document may be placed in the tree of pages.
pub mod Depth
pub mod Descent
pub mod Height
pub mod Placement
pub mod Moves
pub mod Writes
use presslabz.Base.{
  ℕ, zero, suc, ◌+◌, Bool, true, false, not, ◌&&◌, ◌||◌, Option, none, some, List, [], ◌∷◌, String,
  str_eq, ltb, leb, ◌==◌, if◌then◌else◌, any, filter, find, map,
}
use presslabz.Access.Ownership.{Uuid}
use presslabz.Content.Rows.{
  ContentRow, ContentConflictReason, parent_cycle, parent_too_deep, parent_not_found,
  parent_mismatch,
}

abbrev pub max_hierarchy_depth : ℕ
max_hierarchy_depth = 8

-- `select … where id = … limit 1`
unfoldable pub find_row : Uuid → List ContentRow → Option ContentRow
find_row id rows = find (λ r. r.id == id) rows

-- The parent column of a document: nothing if there is no such row.
abbrev pub parent_of_row : Option ContentRow → Option (Option Uuid)
parent_of_row none = none
parent_of_row (some r) = some r.parent_id

unfoldable pub parent_at : List ContentRow → Uuid → Option (Option Uuid)
parent_at rows id = parent_of_row (find_row id rows)

pub record ParentCheck : Type 0 where
  pub child_id : Option Uuid
  pub parent_id : Uuid
  pub type : String
  pub locale : String

pub data Walked : Type 0 where
  reached : (depth : ℕ) → Walked
  refused : ContentConflictReason → Walked

abbrev pub is_child : Option Uuid → Uuid → Bool
is_child none id = false
is_child (some child) id = id == child

-- `depth === 1 && (ancestor.type !== check.type || ancestor.locale !== check.locale)`
abbrev pub is_mismatch : ParentCheck → ℕ → ContentRow → Bool
is_mismatch check depth ancestor =
    depth == 1
    && (not (str_eq ancestor.type check.type) || not (str_eq ancestor.locale check.locale))

-- The `while` loop. `depth` is the variable before the round, and grows by one in each, so the
-- guard in it stops the loop after nine rounds; `fuel` counts the rounds that may remain.
unfoldable pub walk : ℕ → List ContentRow → ParentCheck → Option Uuid → ℕ → Walked
walk fuel rows check none depth = reached depth
walk zero rows check (some id) depth = refused parent_too_deep
walk (suc fuel) rows check (some id) depth = elim (is_child check.child_id id) [
  | true ↦ refused parent_cycle
  | false ↦ elim (ltb (max_hierarchy_depth + 1) (suc depth)) [
    | true ↦ refused parent_too_deep
    | false ↦ elim (find_row id rows) [
      | none ↦ refused parent_not_found
      | some ancestor ↦ elim (is_mismatch check (suc depth) ancestor) [
        | true ↦ refused parent_mismatch
        | false ↦ walk fuel rows check ancestor.parent_id (suc depth)
      ]
    ]
  ]
]

abbrev pub has_parent_in : List Uuid → ContentRow → Bool
has_parent_in ids row = elim row.parent_id [ none ↦ false | some p ↦ any (λ id. id == p) ids ]

-- The join of the recursive query: the rows whose parent is one of the working table's.
unfoldable pub children : List ContentRow → List Uuid → List Uuid
children rows ids = map (λ r. r.id) (filter (has_parent_in ids) rows)

-- The recursive part of the query, one round for each level: a level is joined again only while
-- its depth is at most the limit, and `max(depth)` is the last level that holds a row. Depths
-- grow by one, so nine rounds are all that the query makes.
unfoldable pub last_level : ℕ → List ContentRow → List Uuid → ℕ → ℕ
last_level zero rows ids depth = depth
last_level (suc rounds) rows ids depth = elim (leb depth max_hierarchy_depth) [
  | true ↦ elim (children rows ids) [
    | [] ↦ depth
    | next ∷ others ↦ last_level rounds rows (next ∷ others) (suc depth)
  ]
  | false ↦ depth
]

-- `coalesce(max(depth), 1)`: a document that is not there has height one.
unfoldable pub subtree_height : List ContentRow → Uuid → ℕ
subtree_height rows child_id = elim (find_row child_id rows) [
  | none ↦ 1
  | some row ↦ last_level (max_hierarchy_depth + 1) rows (child_id ∷ []) 1
]

abbrev pub height_of : List ContentRow → Option Uuid → ℕ
height_of rows none = 1
height_of rows (some child_id) = subtree_height rows child_id

abbrev pub check_height : ℕ → Walked → Option ContentConflictReason
check_height height (refused reason) = some reason
check_height height (reached depth) =
    if ltb max_hierarchy_depth (depth + height) then some parent_too_deep else none

-- The reason for which the placement is refused, if it is.
unfoldable pub assert_usable_parent : List ContentRow → ParentCheck → Option ContentConflictReason
assert_usable_parent rows check =
    check_height (height_of rows check.child_id)
      (walk (max_hierarchy_depth + 2) rows check (some check.parent_id) 0)
