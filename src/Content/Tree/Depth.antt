-- ===== src/Content/Tree/Depth.antt =====
-- The depth of a document in the tree of pages, and what the walk up from a parent finds.
use presslabz.Base.{
  ℕ, zero, suc, ◌+◌, ◌≤◌, ◌≡◌, false, Option, none, some, List, arith, Option-cases, inl, inr,
}
use presslabz.Access.Ownership.{Uuid}
use presslabz.Content.Rows.{ContentRow}
use presslabz.Content.Tree.{
  find_row, parent_at, max_hierarchy_depth, ParentCheck, reached, walk, is_child,
}

-- `x` is at depth `d`: a root is at depth one.
pub data HasDepth (rows : List ContentRow) : Uuid → ℕ → Type 0 where
  root : {x : Uuid} → parent_at rows x ≡ some none → HasDepth rows x 1
  under :
      {x : Uuid} {d : ℕ} (p : Uuid)
      → parent_at rows x ≡ some (some p)
      → HasDepth rows p d
      → HasDepth rows x (suc d)

-- Every document has a path to a root, so none is its own ancestor, and no path is longer than a
-- URL can express.
abbrev pub IsForest : List ContentRow → Type 0
IsForest rows =
    (x : Uuid) (p : Option Uuid)
    → parent_at rows x ≡ some p
    → (d : ℕ) × HasDepth rows x d × (d ≤ max_hierarchy_depth)

-- The path from `x` to its root, which does not pass through the child that is to be placed.
pub data Avoids (rows : List ContentRow) (child : Option Uuid) : Uuid → ℕ → Type 0 where
  root :
      {x : Uuid} → is_child child x ≡ false → parent_at rows x ≡ some none → Avoids rows child x 1
  under :
      {x : Uuid} {d : ℕ} (p : Uuid)
      → is_child child x ≡ false
      → parent_at rows x ≡ some (some p)
      → Avoids rows child p d
      → Avoids rows child x (suc d)

module _ (rows : List ContentRow) (check : ParentCheck) where
  -- A round that goes on.
  walk_step :
      (fuel : ℕ) (x : Uuid) (depth d : ℕ)
      → walk (suc fuel) rows check (some x) depth ≡ reached d
      → (r : ContentRow) × (find_row x rows ≡ some r)
        × (is_child check.child_id x ≡ false)
        × (walk fuel rows check r.parent_id (suc depth) ≡ reached d)
  unfolding walk
  walk_step fuel x depth d e = elim (Option-cases (find_row x rows)) [
    | inl gone ↦ absurd (ground (arith, gone))
    | inr (r, found) ↦ (r, found, ground arith, ground (arith, found))
  ]

  pub walk-Avoids :
      (fuel : ℕ) (x : Uuid) (depth d : ℕ)
      → walk fuel rows check (some x) depth ≡ reached d
      → (e : ℕ) × Avoids rows check.child_id x e × (d ≡ depth + e)
  walk-Avoids zero x depth d e = absurd (unfold walk in ground arith)
  walk-Avoids (suc fuel) x depth d e =
      let (r, found, other, rest) = walk_step fuel x depth d e in
      elim (Option-cases r.parent_id) [
        | inl top ↦ (
          1,
          root other (unfold parent_at in rw (found, top)),
          unfold walk in ground (arith, rest, top),
        )
        | inr (p, up) ↦
            let (k, above, sum) = walk-Avoids fuel p (suc depth) d (rw up at rest) in
            (suc k, under p other (unfold parent_at in rw (found, up)) above, omega arith)
      ]
