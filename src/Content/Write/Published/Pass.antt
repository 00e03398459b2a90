-- ===== src/Content/Write/Published/Pass.antt =====
-- What follows from a publication pass that succeeded, for the public site and for the next pass.
use presslabz.Base.{
  ℕ, suc, ◌≤◌, ◌≡◌, ◌∙◌, sym, ap, subst, refl, true, Option, none, some, List, [], ◌∷◌, arith,
  Bool-cases, Option-cases, inl, inr, filter, map, In, In-map,
}
use presslabz.Access.Ownership.{Uuid}
use presslabz.Access.Policy.{ContentStatus, published, is_public_status}
use presslabz.Access.Visibility.{is_publicly_visible}
use presslabz.Content.Rows.{ContentRow, Db}
use presslabz.Content.Database.{Postgres, satisfied, contents_pkey}
use presslabz.Content.Transaction.{ok}
use presslabz.Content.Tree.{find_row, parent_at, parent_of_row}
use presslabz.Content.Tree.Depth.{IsForest}
use presslabz.Content.Tree.Moves.{IsForest-same_parents}
use presslabz.Content.Tree.Writes.{find_row-map}
use presslabz.Content.History.{Draws}
use presslabz.Content.Write.Publish.{
  has_come, is_due, sort_due, as_published, publish_each, publish_due_content,
}
use presslabz.Content.Write.Published.{published_if_due, publish_due_content-contents}

not_due_again :
    (process_now now : ℕ) (rows : List ContentRow)
    → filter (is_due now) (map (published_if_due process_now now) rows) ≡ []
not_due_again process_now now [] = refl
not_due_again process_now now (r ∷ rows) = elim (Bool-cases (is_due now r)) [
  | inl e ↦ rw e (not_due_again process_now now rows)
  | inr e ↦ rw (e, e) (not_due_again process_now now rows)
]

is_due-visible :
    (now t : ℕ) (status : ContentStatus) (at : Option ℕ)
    → now ≤ t
    → has_come now at ≡ true
    → is_publicly_visible published at t ≡ true
unfolding is_publicly_visible is_public_status
is_due-visible now t status none b e = absurd (ground arith)
is_due-visible now t status (some at) b e = ground arith

published-id :
    (process_now now : ℕ) (r : ContentRow) → (published_if_due process_now now r).id ≡ r.id
published-id process_now now r = elim (Bool-cases (is_due now r)) [
  | inl e ↦ rw e refl
  | inr e ↦ rw e refl
]

published-parent :
    (process_now now : ℕ) (r : ContentRow)
    → (published_if_due process_now now r).parent_id ≡ r.parent_id
published-parent process_now now r = elim (Bool-cases (is_due now r)) [
  | inl e ↦ rw e refl
  | inr e ↦ rw e refl
]

parent_at-published :
    (process_now now : ℕ) (rows : List ContentRow) (x : Uuid)
    → parent_at (map (published_if_due process_now now) rows) x ≡ parent_at rows x
unfolding parent_at
parent_at-published process_now now rows x =
    ap parent_of_row
      (find_row-map (published_if_due process_now now) (published-id process_now now) x rows)
    ∙ elim (Option-cases (find_row x rows)) [
      | inl gone ↦ rw gone refl
      | inr (r, found) ↦ rw found (ap some (published-parent process_now now r))
    ]

module _ (pg : Postgres) (draws : Draws) (now : ℕ) (db : Db) {rows : List ContentRow} {db' : Db}
    (key : satisfied contents_pkey db ≡ true)
    (run : publish_due_content pg draws now db ≡ ok (rows, db')) where
  -- Once a pass has succeeded, a second pass at the same instant publishes nothing and writes
  -- nothing.
  pub publish_due_content-again : publish_due_content pg draws now db' ≡ ok ([], db')
  unfolding publish_due_content publish_each sort_due
  publish_due_content-again =
      let nothing : filter (is_due now) db'.contents ≡ [] =
        ap (filter (is_due now)) (publish_due_content-contents pg draws now db key run)
        ∙ not_due_again draws.process_now now db.contents in
      rw nothing refl

  -- After a pass that succeeded, every document that was due is stored with the date that it had,
  -- and what is stored may be rendered by the site from the instant of the pass on.
  pub publish_due_content-visible :
      (t : ℕ) (r : ContentRow)
      → now ≤ t
      → In r db.contents
      → is_due now r ≡ true
      → (row : ContentRow) × In row db'.contents
        × (row.id ≡ r.id)
        × (row.published_at ≡ r.published_at)
        × (is_publicly_visible row.status row.published_at t ≡ true)
  publish_due_content-visible t r b m due =
      let all_rows = publish_due_content-contents pg draws now db key run in
      (
        as_published draws.process_now (suc r.version) r,
        subst (λ l. In (as_published draws.process_now (suc r.version) r) l) (sym all_rows)
            (subst (λ x. In x (map (published_if_due draws.process_now now) db.contents))
              (rw due refl) (In-map (published_if_due draws.process_now now) m)),
        refl,
        refl,
        is_due-visible now t r.status r.published_at b (ground (arith, due)),
      )

  -- A pass that succeeds moves no document in the tree of pages.
  pub publish_due_content-IsForest : IsForest db.contents → IsForest db'.contents
  publish_due_content-IsForest forest =
      subst IsForest (sym (publish_due_content-contents pg draws now db key run)) (
        IsForest-same_parents db.contents (map (published_if_due draws.process_now now) db.contents)
          (parent_at-published draws.process_now now db.contents) forest)
