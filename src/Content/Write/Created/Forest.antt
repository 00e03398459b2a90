-- ===== src/Content/Write/Created/Forest.antt =====
-- The tree of pages through a creation.
use presslabz.Base.{
  ℕ, suc, ◌+◌, ◌≤◌, ◌≡◌, refl, sym, ap, subst, ◌∙◌, true, Option, none, some, List, [], ◌∷◌, ◌++◌,
  String, arith, Bool-cases, Option-cases, inl, inr, ◌==◌, if◌then◌else◌, here, In-any,
  In-append_right,
}
use presslabz.Access.Ownership.{Uuid}
use presslabz.Content.Rows.{ContentRow, Db}
use presslabz.Content.Database.{Postgres, satisfied, unique_by}
use presslabz.Content.Transaction.{Tx, Result-cases, ok, >>=-eq-ok, ◌>>=◌, ◌>>◌, pure}
use presslabz.Content.Tree.{
  find_row, parent_at, parent_of_row, ParentCheck, assert_usable_parent, max_hierarchy_depth,
}
use presslabz.Content.Tree.Depth.{HasDepth, root, under, IsForest, Avoids}
use presslabz.Content.Tree.Descent.{parent_at-row}
use presslabz.Content.Tree.Placement.{assert_usable_parent-IsUsable}
use presslabz.Content.Tree.Writes.{parent_at-found, find_row-append, find_row-append_new}
use presslabz.Content.References.{MediaIn, media_references_of, sync_media_references}
use presslabz.Content.History.{Draws}
use presslabz.Content.Frame.{sync_media_references-contents}
use presslabz.Content.Write.Create.{
  CreateContentInput, check_parent, group_for, insert_content, create_in_group, create_content,
}
use presslabz.Content.Write.Created.{group_for-contents, check_parent-ok, insert_content-ok}

pub record IsCreated (type : String) (input : CreateContentInput) (db : Db) (row : ContentRow)
    (db' : Db) : Type 0 where
  pub parent : row.parent_id ≡ input.state.parent_id
  pub placed :
      (p : Uuid)
      → input.state.parent_id ≡ some p
      → assert_usable_parent db.contents
          (record { child_id = none; parent_id = p; type = type; locale = input.locale })
        ≡ none
  pub rows : db'.contents ≡ db.contents ++ row ∷ []
  pub fresh : find_row row.id db.contents ≡ none

-- An id that the primary key accepted is none of the others'.
unique-append :
    (rows : List ContentRow) (row : ContentRow)
    → unique_by (λ a b. a.id == b.id) (rows ++ row ∷ []) ≡ true
    → find_row row.id rows ≡ none
unfolding find_row
unique-append [] row e = refl
unique-append (x ∷ rows) row e = elim (Bool-cases (x.id == row.id)) [
  | inl same ↦ absurd (
      ground (
        arith,
        e,
        In-any (λ (b : ContentRow). x.id == b.id) (In-append_right rows {ys = row ∷ []} here) same,
      ))
  | inr other ↦ ground (arith, other, unique-append rows row (ground (arith, e)))
]

module _ (pg : Postgres) (draws : Draws) (type : String) (media_in : MediaIn) where
  create_in_group-IsCreated :
      (input : CreateContentInput) (db : Db) {row : ContentRow} {db' : Db}
      → create_in_group pg draws type media_in input db ≡ ok (row, db')
      → IsCreated type input db row db'
  unfolding create_in_group
  create_in_group-IsCreated input db {row = row} {db' = db'} e =
      let references = media_references_of media_in input.state.blocks input.state.meta in
      let sync : ContentRow → Tx ContentRow =
        λ created. sync_media_references pg created.id references >> pure created in
      let insert : Uuid → Tx ContentRow = λ g. insert_content pg draws type input g >>= sync in
      let check : Tx Unit = check_parent input.state.parent_id type input.locale in
      let (g, db₁, one, rest₁) =
        >>=-eq-ok (group_for pg draws type input.group input.locale) (λ g. check >> insert g) db
          e in
      let (u, db₂, two, rest₂) = >>=-eq-ok check (λ _. insert g) db₁ rest₁ in
      let (created, db₃, three, rest₃) =
        >>=-eq-ok (insert_content pg draws type input g) sync db₂ rest₂ in
      let (v, db₄, four, last) =
        >>=-eq-ok (sync_media_references pg created.id references) (λ _. pure created) db₃ rest₃ in
      let before = group_for-contents pg draws type input.group input.locale db one in
      let (same₂, placed) =
        check_parent-ok pg draws type input.state.parent_id input.locale db₁ two in
      let (is_row, rows, key) = insert_content-ok pg draws type input g db₂ three in
      let kept = sync_media_references-contents pg created.id references db₃ v db₄ four in
      let same : db₄ ≡ db' = ground (arith, last) in
      let row_same : created ≡ row = ground (arith, last) in
      let old : db₂.contents ≡ db.contents = ap (λ (d : Db). d.contents) same₂ ∙ before in
      let all_rows = rows ∙ ap (λ (l : List ContentRow). l ++ created ∷ []) old in
      record {
        parent = ap (λ (r : ContentRow). r.parent_id) (sym row_same ∙ is_row);
        placed = λ p h.
            subst
              (λ l.
                assert_usable_parent l
                  (record { child_id = none; parent_id = p; type = type; locale = input.locale })
                ≡ none)
              before (placed p h);
        rows =
            ap (λ (d : Db). d.contents) (sym same)
            ∙ kept
            ∙ all_rows
            ∙ ap (λ r. db.contents ++ r ∷ []) row_same;
        fresh =
            subst (λ r. find_row r.id db.contents ≡ none) row_same
              (unique-append db.contents created (
                subst (λ l. unique_by (λ a b. a.id == b.id) l ≡ true) all_rows
                  (unfold satisfied in key)));
      }

  pub create_content-IsCreated :
      (input : CreateContentInput) (db : Db) {row : ContentRow} {db' : Db}
      → create_content pg draws type media_in input db ≡ ok (row, db')
      → IsCreated type input db row db'
  unfolding create_content
  create_content-IsCreated input db {row = row} {db' = db'} e =
      elim (Result-cases (create_in_group pg draws type media_in input db)) [
        | inl ((r, d), done) ↦ create_in_group-IsCreated input db (ground (arith, done, e))
        | inr (k, bad) ↦ absurd (ground (arith, bad, e))
      ]

Avoids-HasDepth_any :
    (rows : List ContentRow) {x : Uuid} {d : ℕ} → Avoids rows none x d → HasDepth rows x d
Avoids-HasDepth_any rows (root other e) = root e
Avoids-HasDepth_any rows (under p other e a) = under p e (Avoids-HasDepth_any rows a)

module _ (rows : List ContentRow) (row : ContentRow) (fresh : find_row row.id rows ≡ none) where
  parent_at-append :
      (x : Uuid) (p : Option Uuid)
      → parent_at rows x ≡ some p
      → parent_at (rows ++ row ∷ []) x ≡ some p
  unfolding parent_at
  parent_at-append x p e =
      let (r, found, up) = parent_at-row rows x p e in
      rw (find_row-append x rows row r found) (ap some up)

  parent_at-new :
      (x : Uuid)
      → find_row x rows ≡ none
      → parent_at (rows ++ row ∷ []) x ≡ parent_of_row (if row.id == x then some row else none)
  unfolding parent_at
  parent_at-new x gone = rw (find_row-append_new x rows row gone) refl

  HasDepth-append : {x : Uuid} {d : ℕ} → HasDepth rows x d → HasDepth (rows ++ row ∷ []) x d
  HasDepth-append {x} (root e) = root (parent_at-append x none e)
  HasDepth-append {x} (under p e h) = under p (parent_at-append x (some p) e) (HasDepth-append h)

  IsForest-append :
      IsForest rows
      → ((p : Uuid)
          → row.parent_id ≡ some p
          → (d : ℕ) × HasDepth rows p d × (d + 1 ≤ max_hierarchy_depth))
      → IsForest (rows ++ row ∷ [])
  IsForest-append forest room x p e = elim (Option-cases (find_row x rows)) [
    | inr (r, found) ↦
        let (d, h, b) = forest x r.parent_id (parent_at-found rows x found) in
        (d, HasDepth-append h, b)
    | inl gone ↦ elim (Bool-cases (row.id == x)) [
      | inr ne ↦ absurd (ground (arith, parent_at-new x gone, ne, e))
      | inl eq ↦ elim (Option-cases row.parent_id) [
        | inl top ↦ (1, root (parent_at-new x gone ∙ rw (eq, top) refl), omega arith)
        | inr (q, below) ↦
            let (d, h, b) = room q below in
            (
              suc d,
              under q (parent_at-new x gone ∙ rw (eq, below) refl) (HasDepth-append h),
              omega arith,
            )
      ]
    ]
  ]

-- A creation that succeeds leaves every document with a path of at most eight to a root.
pub create_content-IsForest :
    (pg : Postgres) (draws : Draws) (type : String) (media_in : MediaIn)
    (input : CreateContentInput) (db : Db) {row : ContentRow} {db' : Db}
    → IsForest db.contents
    → create_content pg draws type media_in input db ≡ ok (row, db')
    → IsForest db'.contents
create_content-IsForest pg draws type media_in input db {row = row} forest e =
    let c = create_content-IsCreated pg draws type media_in input db e in
    subst IsForest (sym c.rows) (
      IsForest-append db.contents row c.fresh forest (λ p below.
        let check : ParentCheck = record {
          child_id = none;
          parent_id = p;
          type = type;
          locale = input.locale;
        } in
        let u =
          assert_usable_parent-IsUsable db.contents check (c.placed p (sym c.parent ∙ below)) in
        (u.depth, Avoids-HasDepth_any db.contents u.above, u.room)))
