-- ===== src/Content/Write/Versions.antt =====
-- Optimistic locking and the reach of one update.
use presslabz.Base.{ℕ, suc, ◌≡◌, ◌≢◌, ◌∙◌, sym, ap, subst, refl, true, false, some, arith, ◌==◌}
use presslabz.Access.Ownership.{Uuid}
use presslabz.Content.Rows.{ContentRow, ContentState, Patch, Db, stale_version}
use presslabz.Content.Database.{Postgres}
use presslabz.Content.Transaction.{ok, err, conflict}
use presslabz.Content.Tree.{find_row}
use presslabz.Content.Schema.{ContentSchema}
use presslabz.Content.Schema.Merge.{IsValidState, parse_state-IsValidState}
use presslabz.Content.References.{MediaIn}
use presslabz.Content.History.{Draws}
use presslabz.Content.Write.{translate_error}
use presslabz.Content.Write.Update.{
  exactly, UpdateContentOptions, version_matches, with_state, judge, update_locked, update_content,
}
use presslabz.Content.Write.Updated.{
  find_row-update, find_row-update_other, update_content-IsUpdated,
}

-- A state that a type accepted, as a row holds it.
abbrev pub state_of_row : ContentRow → ContentState
state_of_row row = record {
  slug = row.slug;
  title = row.title;
  excerpt = row.excerpt;
  status = row.status;
  blocks = row.blocks;
  meta = row.meta;
  published_at = row.published_at;
  parent_id = row.parent_id;
}

module _ (pg : Postgres) (draws : Draws) (schema : ContentSchema) (media_in : MediaIn)
    (id : Uuid) where
  -- An update that expects another version than the document has is refused as stale, whatever
  -- it would write.
  pub update_content-stale :
      (patch : Patch) (options : UpdateContentOptions) (db : Db) (current : ContentRow) (n : ℕ)
      → find_row id db.contents ≡ some current
      → options.expected_version ≡ exactly n
      → n ≢ current.version
      → update_content pg draws schema media_in id patch options db ≡ err (conflict stale_version)
  unfolding update_content update_locked judge translate_error
  update_content-stale patch options db current n found expects other =
      let no_match : n == current.version ≡ false = ground (arith, other) in
      ground (arith, found, expects, no_match)

  pub update_content-found :
      (patch : Patch) (options : UpdateContentOptions) (db : Db) {row : ContentRow} {db' : Db}
      → update_content pg draws schema media_in id patch options db ≡ ok (some row, db')
      → find_row id db'.contents ≡ some row
  update_content-found patch options db e =
      let u = update_content-IsUpdated pg draws schema media_in id patch options db e in
      let set = with_state u.next draws.process_now (suc u.current.version) in
      ap (find_row id) u.rows
      ∙ find_row-update id set db.contents (λ x. refl) u.found
      ∙ ap some (sym u.returned)

  -- Of two updates that expect one version, the second is refused once the first has succeeded:
  -- no update is lost.
  pub update_content-once :
      (patch₁ patch₂ : Patch) (options₁ options₂ : UpdateContentOptions) (n : ℕ) (db : Db)
      {row : ContentRow} {db' : Db}
      → options₁.expected_version ≡ exactly n
      → options₂.expected_version ≡ exactly n
      → update_content pg draws schema media_in id patch₁ options₁ db ≡ ok (some row, db')
      → update_content pg draws schema media_in id patch₂ options₂ db'
        ≡ err (conflict stale_version)
  update_content-once patch₁ patch₂ options₁ options₂ n db {row = row} {db' = db'} expects₁ expects₂
        e =
      let u = update_content-IsUpdated pg draws schema media_in id patch₁ options₁ db e in
      let matched : n == u.current.version ≡ true =
        subst (λ v. version_matches v u.current.version ≡ true) expects₁ u.accepted.expected in
      let now_at : row.version ≡ suc u.current.version =
        ap (λ (r : ContentRow). r.version) u.returned in
      update_content-stale patch₂ options₂ db' row n (update_content-found patch₁ options₁ db e)
        expects₂ (λ eq. ground (arith, matched, now_at, eq))

  -- An update that succeeds changes no document but its own, whose version grows by one.
  pub update_content-others :
      (patch : Patch) (options : UpdateContentOptions) (db : Db) {row : ContentRow} {db' : Db}
      → update_content pg draws schema media_in id patch options db ≡ ok (some row, db')
      → ((x : Uuid) → x ≢ id → find_row x db'.contents ≡ find_row x db.contents)
        × ((current : ContentRow) × (find_row id db.contents ≡ some current)
            × (row.version ≡ suc current.version)
            × (find_row id db'.contents ≡ some row))
  update_content-others patch options db e =
      let u = update_content-IsUpdated pg draws schema media_in id patch options db e in
      let set = with_state u.next draws.process_now (suc u.current.version) in
      (
        λ x other.
            ap (find_row x) u.rows ∙ find_row-update_other id x set db.contents (λ x. refl) other,
        (
          u.current,
          u.found,
          ap (λ (r : ContentRow). r.version) u.returned,
          update_content-found patch options db e,
        ),
      )

  -- An update that succeeds leaves the document in a state that its type allows: a slug, a
  -- schedule with its date, blocks whose ids differ, no parent unless the type has a tree.
  pub update_content-IsValidState :
      (patch : Patch) (options : UpdateContentOptions) (db : Db) {row : ContentRow} {db' : Db}
      → update_content pg draws schema media_in id patch options db ≡ ok (some row, db')
      → IsValidState schema (state_of_row row)
  update_content-IsValidState patch options db e =
      let u = update_content-IsUpdated pg draws schema media_in id patch options db e in
      subst (λ r. IsValidState schema (state_of_row r)) (sym u.returned)
        (parse_state-IsValidState schema _ u.accepted.state)
