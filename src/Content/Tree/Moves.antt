-- ===== src/Content/Tree/Moves.antt =====
-- How the depths change when one document is placed elsewhere, and when documents are written
-- without being moved.
use presslabz.Base.{
  ℕ, suc, ◌+◌, ◌≤◌, ◌≡◌, ◌≢◌, ◌⊎◌, subst, sym, ◌∙◌, Option, some, List, arith, ◌==◌, ==_iff,
  Bool-cases, inl, inr,
}
use presslabz.Access.Ownership.{Uuid}
use presslabz.Content.Rows.{ContentRow}
use presslabz.Content.Tree.{parent_at, max_hierarchy_depth}
use presslabz.Content.Tree.Depth.{HasDepth, root, under, IsForest}
use presslabz.Content.Tree.Descent.{Descends, self, below}

-- Writes that leave every parent as it is keep the forest.
pub HasDepth-same_parents :
    (rows rows' : List ContentRow) {x : Uuid} {d : ℕ}
    → ((y : Uuid) → parent_at rows' y ≡ parent_at rows y)
    → HasDepth rows x d
    → HasDepth rows' x d
HasDepth-same_parents rows rows' {x} same (root e) = root (same x ∙ e)
HasDepth-same_parents rows rows' {x} same (under p e h) =
    under p (same x ∙ e) (HasDepth-same_parents rows rows' same h)

pub IsForest-same_parents :
    (rows rows' : List ContentRow)
    → ((y : Uuid) → parent_at rows' y ≡ parent_at rows y)
    → IsForest rows
    → IsForest rows'
IsForest-same_parents rows rows' same forest x p e =
    let (d, h, b) = forest x p (sym (same x) ∙ e) in (d, HasDepth-same_parents rows rows' same h, b)

-- `c` moves to depth `e + 1`, and no other document has a new parent.
module _ (rows rows' : List ContentRow) (c : Uuid) (e : ℕ)
    (same : (y : Uuid) → y ≢ c → parent_at rows' y ≡ parent_at rows y)
    (top : HasDepth rows' c (suc e)) where
  abbrev Moved : Uuid → ℕ → Type 0
  Moved x d =
      HasDepth rows' x d ⊎ ((k : ℕ) × Descends rows c x k × (k ≤ d) × HasDepth rows' x (e + k))

  at_c : {x : Uuid} (d : ℕ) → x ≡ c → 1 ≤ d → Moved x d
  at_c {x} d eq b = inr (
    1,
    subst (λ y. Descends rows c y 1) (sym eq) self,
    b,
    subst (λ y. HasDepth rows' y (e + 1)) (sym eq)
        (subst (λ n. HasDepth rows' c n) (omega arith) top),
  )

  HasDepth-Moved : {x : Uuid} {d : ℕ} → HasDepth rows x d → Moved x d
  HasDepth-Moved {x} (root h) = elim (Bool-cases (x == c)) [
    | inl eq ↦ at_c 1 ((==_iff x c).0 eq) (omega arith)
    | inr ne ↦ inl (root (same x (λ eq. ground arith) ∙ h))
  ]
  HasDepth-Moved {x} (under {d = d} p h up) = elim (Bool-cases (x == c)) [
    | inl eq ↦ at_c (suc d) ((==_iff x c).0 eq) (omega arith)
    | inr ne ↦
        let step = same x (λ eq. ground arith) ∙ h in
        elim (HasDepth-Moved up) [
          | inl kept ↦ inl (under p step kept)
          | inr (k, below_c, b, moved) ↦ inr (
            suc k,
            below p h below_c,
            omega arith,
            subst (λ n. HasDepth rows' x n) (omega arith) (under p step moved),
          )
        ]
  ]

  -- The rows stay a forest if `c` leaves room for what lies below it.
  pub IsForest-move :
      IsForest rows
      → ((x : Uuid) (p : Option Uuid)
          → parent_at rows' x ≡ some p
          → (q : Option Uuid) × (parent_at rows x ≡ some q))
      → ((x : Uuid) (k : ℕ)
          → Descends rows c x k
          → k ≤ max_hierarchy_depth
          → e + k ≤ max_hierarchy_depth)
      → IsForest rows'
  IsForest-move forest old room x p here =
      let (q, there) = old x p here in
      let (d, h, b) = forest x q there in
      elim (HasDepth-Moved h) [
        | inl kept ↦ (d, kept, b)
        | inr (k, below_c, low, moved) ↦ (e + k, moved, room x k below_c (omega arith))
      ]
