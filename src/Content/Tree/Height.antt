-- ===== src/Content/Tree/Height.antt =====
-- `subtreeHeight` is the lowest level on which a document stands, counted from the one asked about.
use presslabz.Base.{
  ℕ, zero, suc, ◌≤◌, ◌≡◌, refl, subst, sym, ap, true, Option, none, some, List, [], ◌∷◌, arith,
  ◌==◌, ==_iff, filter, map, any, List-cases, Bool-cases, Option-cases, inl, inr, In, here, there,
  any-In, In-filter, leb,
}
use presslabz.Access.Ownership.{Uuid}
use presslabz.Content.Rows.{ContentRow}
use presslabz.Content.Tree.{
  find_row, parent_at, max_hierarchy_depth, has_parent_in, children, last_level, subtree_height,
  height_of,
}
use presslabz.Content.Tree.Descent.{
  Descends, self, below, Descends-le-subtree_height, last_level-ge_depth,
}

In-map_from :
    {x : Uuid} (rs : List ContentRow)
    → In x (map (λ (r : ContentRow). r.id) rs)
    → (r : ContentRow) × In r rs × (r.id ≡ x)
In-map_from [] m = elim m [ ]
In-map_from (r ∷ rs) here = (r, here, refl)
In-map_from (r ∷ rs) (there m) = let (q, at, e) = In-map_from rs m in (q, there at, e)

has_parent_in-some :
    (ids : List Uuid) (r : ContentRow)
    → has_parent_in ids r ≡ true
    → (p : Uuid) × (r.parent_id ≡ some p) × In p ids
has_parent_in-some ids r e = elim (Option-cases r.parent_id) [
  | inl none' ↦ absurd (ground (arith, none', e))
  | inr (p, up) ↦
      let found : any (λ id. id == p) ids ≡ true = rw up at e in
      let (q, m, same) = any-In (λ id. id == p) ids found in
      (p, up, subst (λ y. In y ids) ((==_iff q p).0 same) m)
]

-- No two rows have one id.
abbrev pub HasUniqueIds : List ContentRow → Type 0
HasUniqueIds rows = (r : ContentRow) → In r rows → find_row r.id rows ≡ some r

module _ (rows : List ContentRow) (c : Uuid) where
  Descends-pos : {x : Uuid} {k : ℕ} → Descends rows c x k → 1 ≤ k
  Descends-pos self = omega arith
  Descends-pos (below p e d) = omega arith

  -- On the way down to a level, every level above it is passed.
  Descends-at :
      (j : ℕ) {x : Uuid} {k : ℕ}
      → Descends rows c x k
      → 1 ≤ j
      → j ≤ k
      → (y : Uuid) × Descends rows c y j
  Descends-at j {x} self a b = (c, subst (λ n. Descends rows c c n) (omega arith) self)
  Descends-at j {x} (below {k = k} p e d) a b = elim (Bool-cases (j == suc k)) [
    | inl same ↦
        (x, subst (λ n. Descends rows c x n) (sym ((==_iff j (suc k)).0 same)) (below p e d))
    | inr other ↦ Descends-at j d a (ground (arith, other))
  ]

  pub Descends-le_height :
      (x : Uuid) (k : ℕ) (r : ContentRow)
      → find_row c rows ≡ some r
      → Descends rows c x k
      → subtree_height rows c ≤ max_hierarchy_depth
      → k ≤ subtree_height rows c
  Descends-le_height x k r found d low = elim (Bool-cases (leb k (suc max_hierarchy_depth))) [
    | inl b ↦ Descends-le-subtree_height rows c x k r found d (ground (arith, b))
    | inr b ↦
        let (y, at) = Descends-at 9 d (omega arith) (ground (arith, b)) in
        absurd (omega (arith, low, Descends-le-subtree_height rows c y 9 r found at (omega arith)))
  ]

  module _ (unique : HasUniqueIds rows) where
    -- Every one of these stands on the level `k`.
    abbrev AllOn : ℕ → List Uuid → Type 0
    AllOn k ids = (x : Uuid) → In x ids → Descends rows c x k

    children-AllOn : (k : ℕ) (ids : List Uuid) → AllOn k ids → AllOn (suc k) (children rows ids)
    unfolding children parent_at
    children-AllOn k ids on x m =
        let (r, at, same) = In-map_from (filter (has_parent_in ids) rows) m in
        let (there', e) = In-filter (has_parent_in ids) rows at in
        let (p, up, from) = has_parent_in-some ids r e in
        let found : find_row x rows ≡ some r =
          subst (λ y. find_row y rows ≡ some r) same (unique r there') in
        below p (rw found (ap some up)) (on p from)

    last_level-reached :
        (rounds : ℕ) (y : Uuid) (ys : List Uuid) (depth : ℕ)
        → AllOn depth (y ∷ ys)
        → (x : Uuid) × Descends rows c x (last_level rounds rows (y ∷ ys) depth)
    unfolding last_level
    last_level-reached zero y ys depth on = (y, on y here)
    last_level-reached (suc n) y ys depth on = elim (Bool-cases (leb depth max_hierarchy_depth)) [
      | inr h ↦ (y, rw (last_level, h) (on y here))
      | inl h ↦ elim (List-cases (children rows (y ∷ ys))) [
        | inl e ↦ (y, rw (last_level, h, e) (on y here))
        | inr (z, zs, e) ↦
            let (x, d) =
              last_level-reached n z zs (suc depth)
                (subst (AllOn (suc depth)) e (children-AllOn depth (y ∷ ys) on)) in
            (x, rw (last_level, h, e) d)
      ]
    ]

    only_self : AllOn 1 (c ∷ [])
    only_self _ here = self
    only_self x (there m) = elim m [ ]

    -- Some document stands on that level.
    pub subtree_height-reached :
        (r : ContentRow)
        → find_row c rows ≡ some r
        → (x : Uuid) × Descends rows c x (subtree_height rows c)
    unfolding subtree_height
    subtree_height-reached r found =
        let (x, d) = last_level-reached 9 c [] 1 only_self in (x, rw (subtree_height, found) d)

pub subtree_height-pos : (rows : List ContentRow) (c : Uuid) → 1 ≤ subtree_height rows c
unfolding subtree_height
subtree_height-pos rows c = elim (Option-cases (find_row c rows)) [
  | inl gone ↦ rw (subtree_height, gone) (omega arith)
  | inr (r, found) ↦ rw (subtree_height, found) (last_level-ge_depth rows 9 (c ∷ []) 1)
]

pub height_of-pos : (rows : List ContentRow) (child : Option Uuid) → 1 ≤ height_of rows child
height_of-pos rows none = omega arith
height_of-pos rows (some c) = subtree_height-pos rows c
