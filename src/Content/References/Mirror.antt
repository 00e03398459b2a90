-- ===== src/Content/References/Mirror.antt =====
-- What the mirror of media references holds after it is brought up to date.
use presslabz.Base.{
  ◌≡◌, ◌∙◌, refl, sym, ap, Bool, true, false, not, ◌&&◌, ◌||◌, List, [], ◌∷◌, ◌++◌, arith,
  Bool-cases, inl, inr, ◌==◌, any, filter, if◌then◌else◌,
}
use presslabz.Access.Ownership.{Uuid}
use presslabz.Content.Rows.{Source, block, meta, ContentMediaReference, MediaLink, Db}
use presslabz.Content.Database.{Postgres, same_source}
use presslabz.Content.Transaction.{ok, statement, >>=-eq-ok}
use presslabz.Content.Frame.{statement-eq-ok}
use presslabz.Content.References.{
  links_of, names_link, same_link, link_of, delete_links, insert_links, sync_media_references,
}

abbrev pub has_link : MediaLink → List MediaLink → Bool
has_link l links = any (same_link l) links

same_source-eq : (a b : Source) → same_source a b ≡ true → a ≡ b
same_source-eq block block e = refl
same_source-eq meta meta e = refl
same_source-eq block meta e = absurd (cc)
same_source-eq meta block e = absurd (cc)

same_source_sym : (a b : Source) → same_source a b ≡ same_source b a
same_source_sym block block = refl
same_source_sym meta meta = refl
same_source_sym block meta = refl
same_source_sym meta block = refl

same_link-eq : (a b : MediaLink) → same_link a b ≡ true → a ≡ b
same_link-eq a b e =
    let one : a.content_id ≡ b.content_id = ground (arith, e) in
    let two : a.media_id ≡ b.media_id = ground (arith, e) in
    let three : a.source ≡ b.source = same_source-eq a.source b.source (ground (arith, e)) in
    λ i. record { content_id = one i; media_id = two i; source = three i }

has_link-filter :
    (p : MediaLink → Bool) (l : MediaLink) (links : List MediaLink)
    → has_link l (filter p links) ≡ has_link l links && p l
has_link-filter p l [] = refl
has_link-filter p l (x ∷ links) = elim (Bool-cases (same_link l x)) [
  | inl e ↦
      let same : p l ≡ p x = ap p (same_link-eq l x e) in
      ground (arith, e, same, has_link-filter p l links)
  | inr e ↦ ground (arith, e, has_link-filter p l links)
]

has_link-append :
    (l y : MediaLink) (links : List MediaLink)
    → has_link l (links ++ y ∷ []) ≡ has_link l links || same_link l y
has_link-append l y [] = ground arith
has_link-append l y (x ∷ links) = ground (arith, has_link-append l y links)

kept_or_named :
    (before own named : Bool)
    → (before && not ((before && own) && not named) || (own && named) && not before)
      ≡ (if own then named else before)
kept_or_named true true true = refl
kept_or_named true true false = refl
kept_or_named true false named = refl
kept_or_named false true true = refl
kept_or_named false true false = refl
kept_or_named false false named = refl

module _ (pg : Postgres) (l : MediaLink) where
  has_link-delete_links :
      (gone : List MediaLink) (db : Db) {u : Unit} {db' : Db}
      → delete_links pg gone db ≡ ok (u, db')
      → has_link l db'.links ≡ has_link l db.links && not (has_link l gone)
  unfolding delete_links
  has_link-delete_links [] db {u = u} {db' = db'} e =
      let same : db ≡ db' = ground (arith, e) in
      ap (λ (d : Db). has_link l d.links) (sym same) ∙ ground arith
  has_link-delete_links (d ∷ gone) db e =
      let f : Db → Db = λ t. record t { links = filter (λ x. not (same_link x d)) t.links } in
      let (_, db₁, one, rest) = >>=-eq-ok (statement pg f) (λ _. delete_links pg gone) db e in
      let first : has_link l db₁.links ≡ has_link l db.links && not (same_link l d) =
        ap (λ (t : Db). has_link l t.links) (statement-eq-ok pg f db one)
        ∙ has_link-filter (λ x. not (same_link x d)) l db.links in
      has_link-delete_links gone db₁ rest ∙ ground (arith, first)

  abbrev is_new : Uuid → List ContentMediaReference → Bool
  is_new content_id rs = any (λ r. same_link l (link_of content_id r)) rs

  has_link-insert_links :
      (content_id : Uuid) (rs : List ContentMediaReference) (db : Db) {u : Unit} {db' : Db}
      → insert_links pg content_id rs db ≡ ok (u, db')
      → has_link l db'.links ≡ has_link l db.links || is_new content_id rs
  unfolding insert_links
  has_link-insert_links content_id [] db {u = u} {db' = db'} e =
      let same : db ≡ db' = ground (arith, e) in
      ap (λ (d : Db). has_link l d.links) (sym same) ∙ ground arith
  has_link-insert_links content_id (r ∷ rs) db e =
      let f : Db → Db = λ t. record t { links = t.links ++ link_of content_id r ∷ [] } in
      let (_, db₁, one, rest) =
        >>=-eq-ok (statement pg f) (λ _. insert_links pg content_id rs) db e in
      let first : has_link l db₁.links ≡ has_link l db.links || same_link l (link_of content_id r) =
        ap (λ (t : Db). has_link l t.links) (statement-eq-ok pg f db one)
        ∙ has_link-append l (link_of content_id r) db.links in
      has_link-insert_links content_id rs db₁ rest ∙ ground (arith, first)

  is_new-names_link :
      (content_id : Uuid) (rs : List ContentMediaReference)
      → is_new content_id rs ≡ l.content_id == content_id && any (names_link l) rs
  is_new-names_link content_id [] = ground arith
  is_new-names_link content_id (r ∷ rs) =
      ground (arith, same_source_sym l.source r.source, is_new-names_link content_id rs)

  -- A reference to `l` is new exactly if the document has no link for it.
  taken :
      (content_id : Uuid) (r : ContentMediaReference) (current : List MediaLink)
      → same_link l (link_of content_id r) ≡ true
      → any (λ x. names_link x r) (links_of content_id current) ≡ has_link l current
  taken content_id r [] e = refl
  taken content_id r (x ∷ current) e = ground (
    arith,
    e,
    same_link-eq l (link_of content_id r) e,
    same_source_sym r.source x.source,
    taken content_id r current e,
  )

  is_new-filter :
      (content_id : Uuid) (current : List MediaLink) (rs : List ContentMediaReference)
      → is_new content_id
          (filter (λ r. not (any (λ x. names_link x r) (links_of content_id current))) rs)
        ≡ is_new content_id rs && not (has_link l current)
  is_new-filter content_id current [] = refl
  is_new-filter content_id current (r ∷ rs) =
      elim (Bool-cases (same_link l (link_of content_id r))) [
        | inl e ↦
            ground (arith, e, taken content_id r current e, is_new-filter content_id current rs)
        | inr e ↦ ground (arith, e, is_new-filter content_id current rs)
      ]

  -- After an update of the mirror that succeeded, a document has a link exactly for each of its
  -- references, and the links of every other document are as they were.
  pub has_link-sync_media_references :
      (content_id : Uuid) (references : List ContentMediaReference) (db : Db) {u : Unit} {db' : Db}
      → sync_media_references pg content_id references db ≡ ok (u, db')
      → has_link l db'.links ≡ (
          if l.content_id == content_id then any (names_link l) references else has_link l db.links)
  unfolding sync_media_references
  has_link-sync_media_references content_id references db e =
      let current = links_of content_id db.links in
      let gone = filter (λ x. not (any (names_link x) references)) current in
      let new = filter (λ r. not (any (λ x. names_link x r) current)) references in
      let (_, db₁, one, rest) =
        >>=-eq-ok (delete_links pg gone) (λ _. insert_links pg content_id new) db e in
      let left = has_link-delete_links gone db one in
      let right = has_link-insert_links content_id new db₁ rest in
      let of_gone = has_link-filter (λ x. not (any (names_link x) references)) l current in
      let of_current = has_link-filter (λ x. x.content_id == content_id) l db.links in
      let of_new = is_new-filter content_id db.links references in
      let named = is_new-names_link content_id references in
      let before = has_link l db.links in
      let own = l.content_id == content_id in
      let gone_eq : has_link l gone ≡ (before && own) && not (any (names_link l) references) =
        of_gone ∙ ap (λ b. b && not (any (names_link l) references)) of_current in
      let new_eq : is_new content_id new ≡ (own && any (names_link l) references) && not before =
        of_new ∙ ap (λ b. b && not before) named in
      right
      ∙ ap (λ b. b || is_new content_id new) left
      ∙ (λ i. before && not (gone_eq i) || new_eq i)
      ∙ kept_or_named before own (any (names_link l) references)
