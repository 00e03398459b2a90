-- ===== src/Content/Write/Removed.antt =====
-- What a deletion that returned has done: the document is gone, its children are roots, and no
-- other row has changed.
pub mod Rows
use presslabz.Base.{
  ℕ, suc, ◌≤◌, ◌≡◌, ◌≢◌, refl, sym, ap, subst, ◌∙◌, Bool, true, false, not, Option, none, some,
  List, arith, Bool-cases, Option-cases, inl, inr, ◌==◌, ==_iff, any, filter, if◌then◌else◌,
}
use presslabz.Access.Ownership.{Uuid}
use presslabz.Content.Rows.{ContentRow, Db}
use presslabz.Content.Database.{Postgres}
use presslabz.Content.Transaction.{Tx, ok, statement, >>=-eq-ok, ◌>>◌, pure}
use presslabz.Content.Tree.{find_row, parent_at}
use presslabz.Content.Tree.Depth.{HasDepth, root, under, IsForest}
use presslabz.Content.Tree.Descent.{parent_at-row, find_row-In}
use presslabz.Content.Tree.Writes.{
  written, find_row-map, without, find_row-without, find_row-without_self,
}
use presslabz.Content.Frame.{Keeps, statement-eq-ok}
use presslabz.Content.Write.Delete.{
  is_parent, orphan_children, remove_content, delete_authorized, drop_group_if_empty, delete_locked,
  delete_content,
}

module _ (pg : Postgres) where
  drop_group_if_empty-contents :
      (group_id : Uuid) → Keeps (λ db. db.contents) (drop_group_if_empty pg group_id)
  unfolding drop_group_if_empty
  drop_group_if_empty-contents group_id db a db' e =
      elim (Bool-cases (any (λ r. r.translation_group_id == group_id) db.contents)) [
        | inl used ↦ ground (arith, used, e)
        | inr empty ↦
            ap (λ (d : Db). d.contents)
              (statement-eq-ok pg
                (λ t. record t { groups = filter (λ g. not (g.id == group_id)) t.groups }) db
                {u = a} {db' = db'} (ground (arith, empty, e)))
      ]

  pub record WasDeleted (id : Uuid) (authorize : Option (ContentRow → Bool)) (db : Db)
      (row : ContentRow) (db' : Db) : Type 0 where
    pub found : find_row id db.contents ≡ some row
    pub allowed : delete_authorized authorize row ≡ true
    pub rows : db'.contents ≡ without id (orphan_children id db.contents)

  delete_locked-rows :
      (current : ContentRow) (authorize : Option (ContentRow → Bool)) (db : Db) {row : ContentRow}
      {db' : Db}
      → delete_locked pg current authorize db ≡ ok (some row, db')
      → (delete_authorized authorize current ≡ true)
        × (row ≡ current)
        × (db'.contents ≡ without current.id (orphan_children current.id db.contents))
  unfolding delete_locked
  delete_locked-rows current authorize db {row = row} {db' = db'} e =
      elim (Bool-cases (delete_authorized authorize current)) [
        | inr refused ↦ absurd (ground (arith, refused, e))
        | inl allowed ↦
            let f : Db → Db = λ d. record d { contents = orphan_children current.id d.contents } in
            let last : Tx (Option ContentRow) =
              drop_group_if_empty pg current.translation_group_id >> pure (some current) in
            let second : Tx (Option ContentRow) =
              statement pg (remove_content current.id) >> last in
            let run : (statement pg f >> second) db ≡ ok (some row, db') =
              ground (arith, allowed, e) in
            let (_, db₁, one, rest₁) = >>=-eq-ok (statement pg f) (λ _. second) db run in
            let (_, db₂, two, rest₂) =
              >>=-eq-ok (statement pg (remove_content current.id)) (λ _. last) db₁ rest₁ in
            let (u, db₃, three, rest₃) =
              >>=-eq-ok (drop_group_if_empty pg current.translation_group_id)
                (λ _. pure (some current)) db₂ rest₂ in
            let same : db₃ ≡ db' = ground (arith, rest₃) in
            (
              allowed,
              ground (arith, rest₃),
              ap (λ (d : Db). d.contents) (sym same)
                  ∙ drop_group_if_empty-contents current.translation_group_id db₂ u db₃ three
                  ∙ ap (λ (d : Db). d.contents)
                      (statement-eq-ok pg (remove_content current.id) db₁ two)
                  ∙ ap (λ (d : Db). without current.id d.contents) (statement-eq-ok pg f db one),
            )
      ]

  -- A deletion that returned a row found that document, was allowed by the caller's rule for it,
  -- and left all other rows, with the document's children made roots.
  pub delete_content-WasDeleted :
      (id : Uuid) (authorize : Option (ContentRow → Bool)) (db : Db) {row : ContentRow} {db' : Db}
      → delete_content pg id authorize db ≡ ok (some row, db')
      → WasDeleted id authorize db row db'
  unfolding delete_content
  delete_content-WasDeleted id authorize db {row = row} {db' = db'} e =
      elim (Option-cases (find_row id db.contents)) [
        | inl gone ↦ absurd (ground (arith, gone, e))
        | inr (current, found) ↦
            let (_, at) = find_row-In db.contents found in
            let (allowed, same, rows) =
              delete_locked-rows current authorize db {row = row} {db' = db'}
                (ground (arith, found, e)) in
            record {
              found = found ∙ ap some (sym same);
              allowed = subst (λ r. delete_authorized authorize r ≡ true) (sym same) allowed;
              rows = rows ∙ ap (λ i. without i (orphan_children i db.contents)) at;
            }
      ]

abbrev pub orphaned : Uuid → ContentRow → ContentRow
orphaned id row = if is_parent id row.parent_id then record row { parent_id = none } else row

orphaned-id : (id : Uuid) (row : ContentRow) → (orphaned id row).id ≡ row.id
orphaned-id id row = elim (Bool-cases (is_parent id row.parent_id)) [
  | inl h ↦ rw h refl
  | inr h ↦ rw h refl
]

module _ (id : Uuid) (rows : List ContentRow) where
  abbrev pub after_removal : List ContentRow
  after_removal = without id (orphan_children id rows)

  pub find_row-removed :
      (x : Uuid) → x ≢ id → find_row x after_removal ≡ written (orphaned id) (find_row x rows)
  find_row-removed x other =
      find_row-without id x (orphan_children id rows) (ground (arith, other))
      ∙ find_row-map (orphaned id) (orphaned-id id) x rows

  parent_at-gone : parent_at after_removal id ≡ none
  unfolding parent_at
  parent_at-gone = rw (find_row-without_self id (orphan_children id rows)) refl

  parent_at-removed :
      (x : Uuid) (p : Option Uuid)
      → x ≢ id
      → parent_at rows x ≡ some p
      → is_parent id p ≡ false
      → parent_at after_removal x ≡ some p
  unfolding parent_at
  parent_at-removed x p other e kept =
      let (r, found, up) = parent_at-row rows x p e in
      rw (find_row-removed x other, found, up, kept) (ap some up)

  parent_at-orphaned :
      (x : Uuid)
      → x ≢ id
      → parent_at rows x ≡ some (some id)
      → parent_at after_removal x ≡ some none
  unfolding parent_at
  parent_at-orphaned x other e =
      let (r, found, up) = parent_at-row rows x (some id) e in
      rw (find_row-removed x other, found, up, (==_iff id id).1 refl) refl

  parent_at-before :
      (x : Uuid) (p : Option Uuid)
      → x ≢ id
      → parent_at after_removal x ≡ some p
      → (q : Option Uuid) × (parent_at rows x ≡ some q)
  unfolding parent_at
  parent_at-before x p other e = elim (Option-cases (find_row x rows)) [
    | inl gone ↦ absurd (ground (arith, rw (find_row-removed x other, gone) at e))
    | inr (r, found) ↦ (r.parent_id, rw found refl)
  ]

  HasDepth-removed :
      {x : Uuid} {d : ℕ}
      → x ≢ id
      → HasDepth rows x d
      → (e : ℕ) × HasDepth after_removal x e × (e ≤ d)
  HasDepth-removed {x} other (root h) =
      (1, root (parent_at-removed x none other h refl), omega arith)
  HasDepth-removed {x} other (under p h up) = elim (Bool-cases (p == id)) [
    | inl eq ↦ (
      1,
      root (parent_at-orphaned x other (h ∙ ap (λ q. some (some q)) ((==_iff p id).0 eq))),
      omega arith,
    )
    | inr ne ↦
        let (e, moved, b) = HasDepth-removed (λ eq. ground arith) up in
        (suc e, under p (parent_at-removed x (some p) other h ne) moved, omega arith)
  ]

  IsForest-removed : IsForest rows → IsForest after_removal
  IsForest-removed forest x p e = elim (Bool-cases (x == id)) [
    | inl eq ↦
        let at : parent_at after_removal id ≡ some p =
          subst (λ z. parent_at after_removal z ≡ some p) ((==_iff x id).0 eq) e in
        absurd (ground (arith, at, parent_at-gone))
    | inr ne ↦
        let other : x ≢ id = λ eq. ground arith in
        let (q, before) = parent_at-before x p other e in
        let (d, h, b) = forest x q before in
        let (c, moved, low) = HasDepth-removed other h in (c, moved, omega arith)
  ]

-- A deletion that succeeds leaves every document with a path of at most eight to a root.
pub delete_content-IsForest :
    (pg : Postgres) (id : Uuid) (authorize : Option (ContentRow → Bool)) (db : Db)
    {row : ContentRow} {db' : Db}
    → IsForest db.contents
    → delete_content pg id authorize db ≡ ok (some row, db')
    → IsForest db'.contents
delete_content-IsForest pg id authorize db forest e =
    let r = delete_content-WasDeleted pg id authorize db e in
    subst IsForest (sym r.rows) (IsForest-removed id db.contents forest)
