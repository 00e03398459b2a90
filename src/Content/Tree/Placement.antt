-- ===== src/Content/Tree/Placement.antt =====
-- What it means that `assertUsableParent` accepts a parent, and that placing a document there
-- keeps the tree of pages a tree of bounded depth.
use presslabz.Base.{
  subst, ℕ, zero, suc, ◌+◌, ◌≤◌, ◌≡◌, ◌≢◌, ◌↔◌, refl, sym, ap, ◌∙◌, true, false, Option, none, some,
  List, String, str_eq, arith, ◌==◌, ==_iff, Bool-cases, Option-cases, inl, inr,
}
use presslabz.Access.Ownership.{Uuid}
use presslabz.Content.Rows.{ContentRow}
use presslabz.Content.Tree.{
  find_row, parent_at, max_hierarchy_depth, ParentCheck, Walked, reached, refused, walk, is_child,
  is_mismatch, height_of, subtree_height, check_height, assert_usable_parent,
}
use presslabz.Content.Tree.Depth.{HasDepth, root, under, IsForest, Avoids, walk-Avoids}
use presslabz.Content.Tree.Descent.{parent_at-row, Descends}
use presslabz.Content.Tree.Height.{
  Descends-le_height, HasUniqueIds, subtree_height-reached, height_of-pos,
}
use presslabz.Content.Tree.Moves.{IsForest-move}

-- A parent that the document may be placed under: it is there, of the same type and language,
-- its path to the root does not pass through the document, and below it there is room for the
-- document and for each document under it, on whatever level that is.
pub record IsUsable (rows : List ContentRow) (check : ParentCheck) : Type 0 where
  pub depth : ℕ
  pub above : Avoids rows check.child_id check.parent_id depth
  pub room : depth + 1 ≤ max_hierarchy_depth
  pub room_below :
      (c x : Uuid) (k : ℕ) (r : ContentRow)
      → check.child_id ≡ some c
      → find_row c rows ≡ some r
      → Descends rows c x k
      → depth + k ≤ max_hierarchy_depth
  pub parent : ContentRow
  pub there : find_row check.parent_id rows ≡ some parent
  pub same_type : str_eq parent.type check.type ≡ true
  pub same_locale : str_eq parent.locale check.locale ≡ true

-- The height that the code computes leaves room for every document below the child.
room_for :
    (rows : List ContentRow) (child : Option Uuid) (c x : Uuid) (k : ℕ) (r : ContentRow) (d : ℕ)
    → child ≡ some c
    → find_row c rows ≡ some r
    → Descends rows c x k
    → d + height_of rows child ≤ max_hierarchy_depth
    → d + k ≤ max_hierarchy_depth
room_for rows child c x k r d same found down b =
    let height : d + subtree_height rows c ≤ max_hierarchy_depth =
      subst (λ o. d + height_of rows o ≤ max_hierarchy_depth) same b in
    omega (arith, height, Descends-le_height rows c x k r found down (omega (arith, height)))

module _ (rows : List ContentRow) (check : ParentCheck) where
  check_height-none :
      (w : Walked) (h : ℕ)
      → check_height h w ≡ none
      → (d : ℕ) × (w ≡ reached d) × (d + h ≤ max_hierarchy_depth)
  check_height-none (reached d) h e = (d, refl, ground arith)
  check_height-none (refused r) h e = absurd (ground arith)

  walk_first :
      (fuel : ℕ) (x : Uuid) (d : ℕ)
      → walk (suc fuel) rows check (some x) 0 ≡ reached d
      → (r : ContentRow) × (find_row x rows ≡ some r) × (is_mismatch check 1 r ≡ false)
  unfolding walk
  walk_first fuel x d e = elim (Option-cases (find_row x rows)) [
    | inl gone ↦ absurd (ground (arith, gone))
    | inr (r, found) ↦ (r, found, ground (arith, found))
  ]

  pub assert_usable_parent-IsUsable : assert_usable_parent rows check ≡ none → IsUsable rows check
  unfolding assert_usable_parent
  assert_usable_parent-IsUsable e =
      let (d, walked, b) = check_height-none _ _ e in
      let (k', above, sum) = walk-Avoids rows check 10 check.parent_id 0 d walked in
      let (r, found, matches) = walk_first 9 check.parent_id d walked in
      record {
        depth = k';
        above = above;
        room = omega (arith, height_of-pos rows check.child_id);
        room_below = λ c x k row same found' down.
            room_for rows check.child_id c x k row k' same found' down (omega (arith, b, sum));
        parent = r;
        there = found;
        same_type = ground arith;
        same_locale = ground arith;
      }

  walk_next :
      (fuel : ℕ) (x : Uuid) (depth : ℕ) (r : ContentRow)
      → is_child check.child_id x ≡ false
      → find_row x rows ≡ some r
      → is_mismatch check (suc depth) r ≡ false
      → depth ≤ max_hierarchy_depth
      → walk (suc fuel) rows check (some x) depth ≡ walk fuel rows check r.parent_id (suc depth)
  unfolding walk
  walk_next fuel x depth r other found matches b = ground (arith, found)

  mismatch_later : (depth : ℕ) (r : ContentRow) → is_mismatch check (suc (suc depth)) r ≡ false
  mismatch_later depth r = ground arith

  walk_top :
      (fuel depth : ℕ) (r : ContentRow)
      → r.parent_id ≡ none
      → walk fuel rows check r.parent_id (suc depth) ≡ reached (depth + 1)
  unfolding walk
  walk_top fuel depth r up = ground (arith, up)

  Avoids-walk :
      (fuel depth : ℕ) {x : Uuid} {e : ℕ}
      → Avoids rows check.child_id x e
      → ((r : ContentRow) → find_row x rows ≡ some r → is_mismatch check (suc depth) r ≡ false)
      → e ≤ fuel
      → depth + e ≤ suc max_hierarchy_depth
      → walk fuel rows check (some x) depth ≡ reached (depth + e)
  Avoids-walk zero depth (root other e) matches f b = absurd (omega arith)
  Avoids-walk zero depth (under p other e a) matches f b = absurd (omega arith)
  Avoids-walk (suc n) depth {x} (root other e) matches f b =
      let (r, found, up) = parent_at-row rows x none e in
      walk_next n x depth r other found (matches r found) (omega arith) ∙ walk_top n depth r up
  Avoids-walk (suc n) depth {x} (under {d = d} p other e a) matches f b =
      let (r, found, up) = parent_at-row rows x (some p) e in
      let rest =
        Avoids-walk n (suc depth) a (λ r _. mismatch_later depth r) (omega arith) (omega arith) in
      walk_next n x depth r other found (matches r found) (omega arith)
      ∙ rw up (rest ∙ ap reached (omega arith))

  -- The lowest of the documents below the child is on the level that the code computes.
  room-height :
      HasUniqueIds rows
      → (child : Option Uuid) → check.child_id ≡ child
      → (u : IsUsable rows check) → u.depth + height_of rows child ≤ max_hierarchy_depth
  unfolding subtree_height
  room-height unique none same u = u.room
  room-height unique (some c) same u = elim (Option-cases (find_row c rows)) [
    | inl gone ↦ rw (subtree_height, gone) u.room
    | inr (r, found) ↦
        let (x, down) = subtree_height-reached rows c unique r found in
        u.room_below c x (subtree_height rows c) r same found down
  ]

  IsUsable-assert_usable_parent :
      HasUniqueIds rows → IsUsable rows check → assert_usable_parent rows check ≡ none
  unfolding assert_usable_parent
  IsUsable-assert_usable_parent unique u =
      let below = room-height unique check.child_id refl u in
      let walked =
        Avoids-walk 10 0 u.above (λ r found. same_row r found) (omega (arith, u.room))
          (omega (arith, u.room)) in
      rw walked (ground (arith, below))
    where
      same_row :
          (r : ContentRow) → find_row check.parent_id rows ≡ some r → is_mismatch check 1 r ≡ false
      same_row r found = ground (arith, found, u.there, u.same_type, u.same_locale)

  -- Where no two rows have one id, a parent is accepted exactly if it is there, of the type and
  -- the language of the document, its path to the root does not pass through the document, and
  -- the document and every document below it come to stand within the depth limit.
  pub assert_usable_parent_iff :
      HasUniqueIds rows → (assert_usable_parent rows check ≡ none) ↔ IsUsable rows check
  assert_usable_parent_iff unique =
      (assert_usable_parent-IsUsable, IsUsable-assert_usable_parent unique)

Avoids-HasDepth :
    (rows rows' : List ContentRow) (c : Uuid) {x : Uuid} {d : ℕ}
    → ((y : Uuid) → y ≢ c → parent_at rows' y ≡ parent_at rows y)
    → Avoids rows (some c) x d
    → HasDepth rows' x d
Avoids-HasDepth rows rows' c {x} same (root other e) = root (same x (λ eq. ground arith) ∙ e)
Avoids-HasDepth rows rows' c {x} same (under p other e a) =
    under p (same x (λ eq. ground arith) ∙ e) (Avoids-HasDepth rows rows' c same a)

-- A document that moves under an accepted parent, or to the root, leaves the rows a forest.
module _ (rows rows' : List ContentRow) (c : Uuid)
    (same : (y : Uuid) → y ≢ c → parent_at rows' y ≡ parent_at rows y) (q : Option Uuid)
    (old : parent_at rows c ≡ some q) (forest : IsForest rows) where
  present :
      (p : Option Uuid)
      → parent_at rows' c ≡ some p
      → (x : Uuid) (o : Option Uuid) → parent_at rows' x ≡ some o
      → (o' : Option Uuid) × (parent_at rows x ≡ some o')
  present p new x o e = elim (Bool-cases (x == c)) [
    | inl eq ↦ (q, ap (parent_at rows) ((==_iff x c).0 eq) ∙ old)
    | inr ne ↦ (o, sym (same x (λ eq. ground arith)) ∙ e)
  ]

  pub IsForest-to_root : parent_at rows' c ≡ some none → IsForest rows'
  IsForest-to_root new =
      IsForest-move rows rows' c 0 same (root new) forest (present none new)
        (λ x k d b. omega arith)

  pub IsForest-place :
      (p : Uuid) (type locale : String)
      → parent_at rows' c ≡ some (some p)
      → assert_usable_parent rows
          (record { child_id = some c; parent_id = p; type = type; locale = locale })
        ≡ none
      → IsForest rows'
  IsForest-place p type locale new accepted =
      let check : ParentCheck = record {
        child_id = some c;
        parent_id = p;
        type = type;
        locale = locale;
      } in
      let u = assert_usable_parent-IsUsable rows check accepted in
      let (r, found, _) = parent_at-row rows c q old in
      IsForest-move rows rows' c u.depth same
        (under p new (Avoids-HasDepth rows rows' c same u.above)) forest (present (some p) new)
        λ x k d b. u.room_below c x k r refl found d
