-- ===== src/Content/Tree/Descent.antt =====
-- `subtreeHeight` counts at least as many levels as any document lies below the one it is asked
-- about.
use presslabz.Base.{
  ℕ, zero, suc, ◌+◌, ◌≤◌, ◌≡◌, refl, subst, sym, ap, true, Option, some, List, [], ◌∷◌, arith, ◌==◌,
  ==_iff, filter, map, List-cases, Option-cases, inl, inr, In, here, In-any, filter-In, In-map,
  find-In,
}
use presslabz.Access.Ownership.{Uuid}
use presslabz.Content.Rows.{ContentRow}
use presslabz.Content.Tree.{
  find_row, parent_at, max_hierarchy_depth, has_parent_in, children, last_level, subtree_height,
}

-- `x` is `c`, at level one, or stands under it, one level lower than its parent.
pub data Descends (rows : List ContentRow) (c : Uuid) : Uuid → ℕ → Type 0 where
  self : Descends rows c c 1
  below :
      {x : Uuid} {k : ℕ} (p : Uuid)
      → parent_at rows x ≡ some (some p)
      → Descends rows c p k
      → Descends rows c x (suc k)

none_below : (rows : List ContentRow) → filter (has_parent_in []) rows ≡ []
none_below [] = refl
none_below (r ∷ rows) = ground (arith, none_below rows)

module _ (rows : List ContentRow) where
  abbrev level : ℕ → List Uuid → List Uuid
  level zero ids = ids
  level (suc j) ids = level j (children rows ids)

  level-suc : (j : ℕ) (ids : List Uuid) → level (suc j) ids ≡ children rows (level j ids)
  level-suc zero ids = refl
  level-suc (suc j) ids = level-suc j (children rows ids)

  pub find_row-In : {x : Uuid} {r : ContentRow} → find_row x rows ≡ some r → In r rows × (r.id ≡ x)
  unfolding find_row
  find_row-In {x} {r} e =
      let (m, same) = find-In (λ r. r.id == x) rows e in (m, (==_iff r.id x).0 same)

  pub parent_at-row :
      (x : Uuid) (p : Option Uuid)
      → parent_at rows x ≡ some p
      → (r : ContentRow) × (find_row x rows ≡ some r) × (r.parent_id ≡ p)
  unfolding parent_at
  parent_at-row x p e = elim (Option-cases (find_row x rows)) [
    | inl gone ↦ absurd (ground (arith, gone))
    | inr (r, found) ↦ (r, found, ground (arith, found))
  ]

  has_parent_in-In :
      (r : ContentRow) (p : Uuid) (ids : List Uuid)
      → r.parent_id ≡ some p
      → In p ids
      → has_parent_in ids r ≡ true
  has_parent_in-In r p ids up m = ground (arith, up, In-any (λ id. id == p) m ((==_iff p p).1 refl))

  In-children :
      {x : Uuid} (p : Uuid) (ids : List Uuid)
      → parent_at rows x ≡ some (some p)
      → In p ids
      → In x (children rows ids)
  unfolding children
  In-children {x} p ids e m =
      let (r, found, up) = parent_at-row x (some p) e in
      let (at, same) = find_row-In found in
      subst (λ y. In y (map (λ (r : ContentRow). r.id) (filter (has_parent_in ids) rows))) same
        (In-map (λ (r : ContentRow). r.id)
          (filter-In (has_parent_in ids) at (has_parent_in-In r p ids up m)))

  Descends-In-level :
      (c : Uuid) {x : Uuid} {k : ℕ}
      → Descends rows c x k
      → (j : ℕ) × (k ≡ suc j) × In x (level j (c ∷ []))
  Descends-In-level c self = (0, refl, here)
  Descends-In-level c (below {x = x} p e d) =
      let (j, same, m) = Descends-In-level c d in
      (suc j, ap suc same, subst (λ l. In x l) (sym (level-suc j (c ∷ []))) (In-children p _ e m))

  children_nil : children rows [] ≡ []
  unfolding children
  children_nil = ap (map (λ (r : ContentRow). r.id)) (none_below rows)

  level_nil : (j : ℕ) → level j [] ≡ []
  level_nil zero = refl
  level_nil (suc j) = rw children_nil (level_nil j)

  pub last_level-ge_depth :
      (rounds : ℕ) (ids : List Uuid) (depth : ℕ) → depth ≤ last_level rounds rows ids depth
  unfolding last_level
  last_level-ge_depth zero ids depth = omega arith
  last_level-ge_depth (suc n) ids depth = elim (List-cases (children rows ids)) [
    | inl e ↦ ground (arith, e)
    | inr (y, ys, e) ↦ ground (arith, e, last_level-ge_depth n (y ∷ ys) (suc depth))
  ]

  last_level_next :
      (n : ℕ) (ids : List Uuid) (depth : ℕ) (y : Uuid) (ys : List Uuid) (k : ℕ)
      → children rows ids ≡ y ∷ ys
      → depth + suc k ≤ suc max_hierarchy_depth
      → suc depth + k ≤ last_level n rows (y ∷ ys) (suc depth)
      → depth + suc k ≤ last_level (suc n) rows ids depth
  unfolding last_level
  last_level_next n ids depth y ys k e b ih = ground (arith, e)

  last_level-ge :
      (rounds : ℕ) (ids : List Uuid) (depth j : ℕ) (x : Uuid)
      → In x (level j ids)
      → j ≤ rounds
      → depth + j ≤ suc max_hierarchy_depth
      → depth + j ≤ last_level rounds rows ids depth
  last_level-ge rounds ids depth zero x m h b = omega (arith, last_level-ge_depth rounds ids depth)
  last_level-ge zero ids depth (suc j) x m h b = absurd (omega arith)
  last_level-ge (suc n) ids depth (suc j) x m h b = elim (List-cases (children rows ids)) [
    | inl e ↦
        let gone : In x (level j []) = subst (λ l. In x (level j l)) e m in
        let none_left : In x [] = subst (λ l. In x l) (level_nil j) gone in elim none_left [ ]
    | inr (y, ys, e) ↦
        let at : In x (level j (y ∷ ys)) = subst (λ l. In x (level j l)) e m in
        last_level_next n ids depth y ys j e (omega arith)
          (last_level-ge n (y ∷ ys) (suc depth) j x at (omega arith) (omega arith))
  ]

  -- A document at level `k` below `c`, up to the first level past the limit.
  pub Descends-le-subtree_height :
      (c x : Uuid) (k : ℕ) (r : ContentRow)
      → find_row c rows ≡ some r
      → Descends rows c x k
      → k ≤ suc max_hierarchy_depth
      → k ≤ subtree_height rows c
  unfolding subtree_height
  Descends-le-subtree_height c x k r found d b =
      let (j, same, m) = Descends-In-level c d in
      rw (found, subtree_height)
        (omega (arith, last_level-ge 9 (c ∷ []) 1 j x m (omega arith) (omega arith), same))
