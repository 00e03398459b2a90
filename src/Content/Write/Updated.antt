-- ===== src/Content/Write/Updated.antt =====
-- What an update that returned has done.
pub mod Written
use presslabz.Base.{
  suc, ◌≡◌, ◌≢◌, ==_iff, if◌then◌else◌, refl, sym, ap, ◌∙◌, Option, some, List, arith, Bool-cases,
  Option-cases, inl, inr, ◌==◌,
}
use presslabz.Access.Ownership.{Uuid}
use presslabz.Content.Rows.{ContentRow, ContentState, Patch, Db}
use presslabz.Content.Database.{Postgres}
use presslabz.Content.Transaction.{Result-cases, ok, Tx, statement, gets, ◌>>◌, >>=-eq-ok}
use presslabz.Content.Tree.{find_row}
use presslabz.Content.Schema.{ContentSchema}
use presslabz.Content.References.{MediaIn, media_references_of, sync_media_references}
use presslabz.Content.History.{Draws, insert_content_revision, prune_revisions}
use presslabz.Content.Frame.{
  statement-eq-ok, sync_media_references-contents, insert_content_revision-contents,
  prune_revisions-contents,
}
use presslabz.Content.Tree.Descent.{find_row-In}
use presslabz.Content.Tree.Writes.{find_row-map}
use presslabz.Content.Write.Update.{
  UpdateContentOptions, with_state, update_row, judge, write_state, finish, update_locked,
  update_content,
}
use presslabz.Content.Write.Update.Accepted.{IsAccepted, judge-IsAccepted}

module _ (pg : Postgres) (draws : Draws) (schema : ContentSchema) (media_in : MediaIn) where
  write_state-contents :
      (current : ContentRow) (next : ContentState) (db : Db) {row : Option ContentRow} {db' : Db}
      → write_state pg draws schema media_in current next db ≡ ok (row, db')
      → (db'.contents
          ≡ update_row current.id
              (with_state next draws.process_now (suc current.version))
              db.contents)
        × (row ≡ find_row current.id db'.contents)
  unfolding write_state
  write_state-contents current next db {db' = db'} e =
      let set = with_state next draws.process_now (suc current.version) in
      let f : Db → Db = λ d. record d { contents = update_row current.id set d.contents } in
      let write : Tx Unit = statement pg f in
      let tail : Tx (Option ContentRow) = write >> gets (λ db. find_row current.id db.contents) in
      let (_, db₁, one, rest₁) =
        >>=-eq-ok (insert_content_revision pg draws current)
          (λ _. prune_revisions pg current.id >> tail) db e in
      let (_, db₂, two, rest₂) = >>=-eq-ok (prune_revisions pg current.id) (λ _. tail) db₁ rest₁ in
      let (_, db₃, three, last) =
        >>=-eq-ok write (λ _. gets (λ db. find_row current.id db.contents)) db₂ rest₂ in
      let kept : db₂.contents ≡ db.contents =
        prune_revisions-contents pg draws current.id db₁ _ db₂ two
        ∙ insert_content_revision-contents pg draws current db _ db₁ one in
      let same : db₃ ≡ db' = ground (arith, last) in
      let rows : db'.contents ≡ update_row current.id set db.contents =
        ap (λ (d : Db). d.contents) (sym same ∙ statement-eq-ok pg f db₂ three)
        ∙ ap (update_row current.id set) kept in
      (rows, ground (arith, last))

changed-id :
    (id : Uuid) (f : ContentRow → ContentRow)
    → ((x : ContentRow) → (f x).id ≡ x.id)
    → (x : ContentRow) → (if x.id == id then f x else x).id ≡ x.id
changed-id id f same x = elim (Bool-cases (x.id == id)) [
  | inl h ↦ rw (h) (same x)
  | inr h ↦ rw (h) refl
]

pub find_row-update :
    (id : Uuid) (f : ContentRow → ContentRow) (rows : List ContentRow) {r : ContentRow}
    → ((x : ContentRow) → (f x).id ≡ x.id)
    → find_row id rows ≡ some r
    → find_row id (update_row id f rows) ≡ some (f r)
find_row-update id f rows {r = r} same found =
    let (_, at) = find_row-In rows found in
    find_row-map (λ x. if x.id == id then f x else x) (changed-id id f same) id rows
    ∙ rw (found, (==_iff r.id id).1 at) refl

pub find_row-update_other :
    (id x : Uuid) (f : ContentRow → ContentRow) (rows : List ContentRow)
    → ((x : ContentRow) → (f x).id ≡ x.id)
    → x ≢ id
    → find_row x (update_row id f rows) ≡ find_row x rows
find_row-update_other id x f rows same other =
    find_row-map (λ x. if x.id == id then f x else x) (changed-id id f same) x rows
    ∙ elim (Option-cases (find_row x rows)) [
      | inl gone ↦ rw gone refl
      | inr (r, found) ↦
          let (_, at) = find_row-In rows found in rw (found) (ap some (ground (arith, at, other)))
    ]

-- What an update that returned a row has done: it found the document, accepted the state, and
-- wrote that state over that one row.
pub record IsUpdated (draws : Draws) (schema : ContentSchema) (id : Uuid) (patch : Patch)
    (options : UpdateContentOptions) (db : Db) (row : ContentRow) (db' : Db) : Type 0 where
  pub current : ContentRow
  pub next : ContentState
  pub found : find_row id db.contents ≡ some current
  pub accepted : IsAccepted schema db.contents current patch options next
  pub rows :
      db'.contents
      ≡ update_row id (with_state next draws.process_now (suc current.version)) db.contents
  pub returned : row ≡ with_state next draws.process_now (suc current.version) current

module _ (pg : Postgres) (draws : Draws) (schema : ContentSchema) (media_in : MediaIn) where
  pub finish-rows :
      (before : Db) (current : ContentRow) (next : ContentState) (db : Db) {row : Option ContentRow}
      {db' : Db}
      → finish pg draws schema media_in before current next db ≡ ok (row, db')
      → (db'.contents
          ≡ update_row current.id
              (with_state next draws.process_now (suc current.version))
              db.contents)
        × (row ≡ find_row current.id db'.contents)
  unfolding finish
  finish-rows before current next db {row = row} {db' = db'} e =
      elim (Result-cases (write_state pg draws schema media_in current next db)) [
        | inr (k, bad) ↦ absurd (ground (arith, bad, e))
        | inl ((r, db₁), done) ↦
            let (rows, returned) =
              write_state-contents pg draws schema media_in current next db done in
            let references = media_references_of media_in next.blocks next.meta in
            elim (Result-cases (sync_media_references pg current.id references db₁)) [
              | inr (k, bad) ↦ absurd (ground (arith, done, bad, e))
              | inl ((u, db₂), synced) ↦
                  let same : db₂ ≡ db' = ground (arith, done, synced, e) in
                  let row_same : r ≡ row = ground (arith, done, synced, e) in
                  let kept =
                    ap (λ (d : Db). d.contents) (sym same)
                    ∙ sync_media_references-contents pg current.id references db₁ u db₂ synced in
                  (kept ∙ rows, sym row_same ∙ returned ∙ ap (find_row current.id) (sym kept))
            ]
      ]

  -- An update that returned a row found the document at the expected version, accepted a state
  -- that the type, the caller and the tree of pages allow, and wrote that state over this one row.
  pub update_content-IsUpdated :
      (id : Uuid) (patch : Patch) (options : UpdateContentOptions) (db : Db) {row : ContentRow}
      {db' : Db}
      → update_content pg draws schema media_in id patch options db ≡ ok (some row, db')
      → IsUpdated draws schema id patch options db row db'
  unfolding update_content update_locked
  update_content-IsUpdated id patch options db {row = row} {db' = db'} e =
      elim (Option-cases (find_row id db.contents)) [
        | inl gone ↦ absurd (ground (arith, gone, e))
        | inr (current, found) ↦
            let (_, at) = find_row-In db.contents found in
            elim (Result-cases (judge pg draws schema media_in current patch options db)) [
              | inr (k, bad) ↦ absurd (ground (arith, found, bad, e))
              | inl ((next, db₁), judged) ↦
                  let (accepted, same) =
                    judge-IsAccepted pg draws schema media_in current patch options db judged in
                  let (rows, returned) =
                    finish-rows db current next db₁ {row = some row} {db' = db'}
                      (ground (arith, found, judged, e)) in
                  let set = with_state next draws.process_now (suc current.version) in
                  let rows_id : db'.contents ≡ update_row id set db.contents =
                    rows
                    ∙ ap (λ (d : Db). update_row current.id set d.contents) same
                    ∙ ap (λ i. update_row i set db.contents) at in
                  record {
                    current = current;
                    next = next;
                    found = found;
                    accepted = accepted;
                    rows = rows_id;
                    returned = ground (
                      arith,
                      returned,
                      rows_id,
                      at,
                      find_row-update id set db.contents (λ x. refl) found,
                    );
                  }
            ]
      ]
