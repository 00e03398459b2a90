-- ===== src/Content/Frame.antt =====
-- What the statements of the content writes leave alone.
use presslabz.Base.{
  ◌≡◌, refl, sym, ap, subst, ◌∙◌, true, not, List, [], ◌∷◌, arith, Option-cases, inl, inr, any,
  filter,
}
use presslabz.Access.Ownership.{Uuid}
use presslabz.Content.Rows.{ContentRow, ContentMediaReference, MediaLink, Db}
use presslabz.Content.Database.{Constraint, Postgres, satisfied}
use presslabz.Content.Transaction.{Tx, ok, statement, >>=-eq-ok}
use presslabz.Content.References.{
  links_of, names_link, delete_links, insert_links, sync_media_references,
}
use presslabz.Content.History.{Draws, insert_content_revision, prune_revisions}

-- A write that returns leaves a table, or anything else that can be read, as it was.
abbrev pub Keeps {ℓ} : {A : Type 0} {B : Type ℓ} → (Db → B) → Tx A → Type ℓ
Keeps {A = A} read m = (db : Db) (a : A) (db' : Db) → m db ≡ ok (a, db') → read db' ≡ read db

module _ (pg : Postgres) where
  pub statement-eq-ok :
      (f : Db → Db) (db : Db) {u : Unit} {db' : Db} → statement pg f db ≡ ok (u, db') → db' ≡ f db
  unfolding statement
  statement-eq-ok f db e = elim (Option-cases (pg.violated (f db))) [
    | inl v ↦ ground (arith, v)
    | inr (c, v) ↦ absurd (ground (arith, v))
  ]

  -- A statement that returned left every constraint satisfied.
  pub statement-satisfied :
      (f : Db → Db) (db : Db) {u : Unit} {db' : Db} (c : Constraint)
      → statement pg f db ≡ ok (u, db')
      → satisfied c db' ≡ true
  unfolding statement
  statement-satisfied f db c e = elim (Option-cases (pg.violated (f db))) [
    | inl v ↦
        subst (λ d. satisfied c d ≡ true) (sym (statement-eq-ok f db e))
          (pg.violated_complete (f db) c v)
    | inr (k, v) ↦ absurd (ground (arith, v))
  ]

  pub statement-Keeps {ℓ} :
      {B : Type ℓ} (read : Db → B) (f : Db → Db)
      → ((db : Db) → read (f db) ≡ read db)
      → Keeps read (statement pg f)
  statement-Keeps read f same db a db' e = ap read (statement-eq-ok f db e) ∙ same db

  delete_links-contents : (ls : List MediaLink) → Keeps (λ db. db.contents) (delete_links pg ls)
  unfolding delete_links
  delete_links-contents [] db a db' e = ground arith
  delete_links-contents (l ∷ ls) db a db' e =
      let (_, db₁, first, rest) = >>=-eq-ok (statement pg _) (λ _. delete_links pg ls) db e in
      delete_links-contents ls db₁ a db' rest
      ∙ statement-Keeps (λ d. d.contents) _ (λ d. refl) db _ db₁ first

  insert_links-contents :
      (id : Uuid) (rs : List ContentMediaReference)
      → Keeps (λ db. db.contents) (insert_links pg id rs)
  unfolding insert_links
  insert_links-contents id [] db a db' e = ground arith
  insert_links-contents id (r ∷ rs) db a db' e =
      let (_, db₁, first, rest) = >>=-eq-ok (statement pg _) (λ _. insert_links pg id rs) db e in
      insert_links-contents id rs db₁ a db' rest
      ∙ statement-Keeps (λ d. d.contents) _ (λ d. refl) db _ db₁ first

  pub sync_media_references-contents :
      (id : Uuid) (rs : List ContentMediaReference)
      → Keeps (λ db. db.contents) (sync_media_references pg id rs)
  unfolding sync_media_references
  sync_media_references-contents id rs db a db' e =
      let gone = filter (λ l. not (any (names_link l) rs)) (links_of id db.links) in
      let new = filter (λ r. not (any (λ l. names_link l r) (links_of id db.links))) rs in
      let (_, db₁, first, rest) =
        >>=-eq-ok (delete_links pg gone) (λ _. insert_links pg id new) db e in
      insert_links-contents id new db₁ a db' rest ∙ delete_links-contents gone db _ db₁ first

module _ (pg : Postgres) (draws : Draws) where
  pub insert_content_revision-contents :
      (row : ContentRow) → Keeps (λ db. db.contents) (insert_content_revision pg draws row)
  unfolding insert_content_revision
  insert_content_revision-contents row = statement-Keeps pg (λ d. d.contents) _ (λ d. refl)

  pub prune_revisions-contents : (id : Uuid) → Keeps (λ db. db.contents) (prune_revisions pg id)
  unfolding prune_revisions
  prune_revisions-contents id = statement-Keeps pg (λ d. d.contents) _ (λ d. refl)
