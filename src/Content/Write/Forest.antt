-- ===== src/Content/Write/Forest.antt =====
-- The tree of pages through the writes: an update, a publication, an insert and a delete.
use presslabz.Base.{
  ℕ, suc, ◌≡◌, ◌≢◌, refl, sym, ap, subst, ◌∙◌, true, Option, none, some, List, arith, Bool-cases,
  Option-cases, inl, inr, ◌==◌, ==_iff,
}
use presslabz.Access.Ownership.{Uuid}
use presslabz.Content.Rows.{ContentRow, ContentState, Patch, Db}
use presslabz.Content.Database.{Postgres}
use presslabz.Content.Transaction.{ok}
use presslabz.Content.Tree.{find_row, parent_at, parent_of_row, assert_usable_parent}
use presslabz.Content.Tree.Depth.{IsForest}
use presslabz.Content.Tree.Descent.{find_row-In}
use presslabz.Content.Tree.Moves.{IsForest-same_parents}
use presslabz.Content.Tree.Placement.{IsForest-to_root, IsForest-place}
use presslabz.Content.Tree.Writes.{parent_at-found}
use presslabz.Content.Schema.{ContentSchema}
use presslabz.Content.References.{MediaIn}
use presslabz.Content.History.{Draws}
use presslabz.Content.Write.Update.{
  UpdateContentOptions, with_state, update_row, same_parent, update_content,
}
use presslabz.Content.Write.Update.Accepted.{IsAccepted}
use presslabz.Content.Write.Updated.{
  find_row-update, find_row-update_other, update_content-IsUpdated,
}

module _ (rows : List ContentRow) (id : Uuid) (f : ContentRow → ContentRow)
    (keeps_id : (x : ContentRow) → (f x).id ≡ x.id) where
  parent_at-update_other :
      (x : Uuid) → x ≢ id → parent_at (update_row id f rows) x ≡ parent_at rows x
  unfolding parent_at
  parent_at-update_other x other =
      ap parent_of_row (find_row-update_other id x f rows keeps_id other)

  parent_at-update :
      {r : ContentRow}
      → find_row id rows ≡ some r
      → parent_at (update_row id f rows) id ≡ some (f r).parent_id
  unfolding parent_at
  parent_at-update found = ap parent_of_row (find_row-update id f rows keeps_id found)

same_parent-eq : (p q : Option Uuid) → same_parent p q ≡ true → p ≡ q
same_parent-eq none none e = refl
same_parent-eq none (some q) e = absurd (cc)
same_parent-eq (some p) none e = absurd (cc)
same_parent-eq (some p) (some q) e = ap some ((==_iff p q).0 e)

-- A document that keeps its parent, or that moves to the root or under an accepted parent.
module _ (schema : ContentSchema) (rows : List ContentRow) (id : Uuid) (current : ContentRow)
    (patch : Patch) (options : UpdateContentOptions) (next : ContentState) (now version : ℕ) where
  IsForest-update :
      find_row id rows ≡ some current
      → IsAccepted schema rows current patch options next
      → IsForest rows
      → IsForest (update_row id (with_state next now version) rows)
  IsForest-update found accepted forest =
      let set = with_state next now version in
      let rows' = update_row id set rows in
      let (_, at) = find_row-In rows found in
      let others = parent_at-update_other rows id set (λ x. refl) in
      let here = parent_at-update rows id set (λ x. refl) found in
      let before = parent_at-found rows id found in
      elim (Option-cases next.parent_id) [
        | inl top ↦
            IsForest-to_root rows rows' id others current.parent_id before forest
              (here ∙ ap some top)
        | inr (p, below) ↦ elim (Bool-cases (same_parent (some p) current.parent_id)) [
          | inl kept ↦
              IsForest-same_parents rows rows'
                (λ y. elim (Bool-cases (y == id)) [
                  | inl eq ↦
                      subst (λ z. parent_at rows' z ≡ parent_at rows z) (sym ((==_iff y id).0 eq))
                        (here
                          ∙ ap some (below ∙ same_parent-eq (some p) current.parent_id kept)
                          ∙ sym before)
                  | inr ne ↦ others y (λ eq. ground arith)
                ])
                forest
          | inr moved ↦
              IsForest-place rows rows' id others current.parent_id before forest p current.type
                current.locale (here ∙ ap some below)
                (subst
                  (λ c.
                    assert_usable_parent rows (record {
                      child_id = some c;
                      parent_id = p;
                      type = current.type;
                      locale = current.locale;
                    })
                    ≡ none)
                  at (accepted.placed p below moved))
        ]
      ]

-- An update that succeeds leaves every document with a path of at most eight to a root.
pub update_content-IsForest :
    (pg : Postgres) (draws : Draws) (schema : ContentSchema) (media_in : MediaIn) (id : Uuid)
    (patch : Patch) (options : UpdateContentOptions) (db : Db) {row : ContentRow} {db' : Db}
    → IsForest db.contents
    → update_content pg draws schema media_in id patch options db ≡ ok (some row, db')
    → IsForest db'.contents
update_content-IsForest pg draws schema media_in id patch options db forest e =
    let u = update_content-IsUpdated pg draws schema media_in id patch options db e in
    subst IsForest (sym u.rows) (
      IsForest-update schema db.contents id u.current patch options u.next draws.process_now
        (suc u.current.version) u.found u.accepted forest)
