-- ===== src/Content/Write/Published.antt =====
-- What a publication pass that returned has done: it is one map over the rows.
pub mod Pass
use presslabz.Base.{
  ℕ, suc, ◌≡◌, refl, sym, ap, subst, ◌∙◌, true, List, [], ◌∷◌, arith, Bool-cases, Option-cases, inl,
  inr, ◌==◌, ==_iff, any, filter, map, if◌then◌else◌, In, here, there, In-filter, filter-In, any-In,
  In-any,
}
use presslabz.Content.Rows.{ContentRow, Db}
use presslabz.Content.Database.{Postgres, unique_by, satisfied, contents_pkey}
use presslabz.Content.Transaction.{Tx, ok, statement, >>=-eq-ok, ◌>>=◌, ◌>>◌, pure, gets}
use presslabz.Content.Tree.{find_row}
use presslabz.Content.History.{Draws, insert_content_revision, prune_revisions}
use presslabz.Content.Frame.{
  statement-eq-ok, insert_content_revision-contents, prune_revisions-contents,
}
use presslabz.Content.Write.Update.{update_row}
use presslabz.Content.Write.Publish.{
  is_due, sort_due, as_published, returned, publish_one, publish_each, publish_due_content,
}
use presslabz.Content.Write.Publish.Claimed.{unique-In, In-sort_due, sort_due-In}

-- The row, as a pass at `now` leaves it.
abbrev pub published_if_due : ℕ → ℕ → ContentRow → ContentRow
published_if_due process_now now r =
    if is_due now r then as_published process_now (suc r.version) r else r

map-map :
    (f g : ContentRow → ContentRow) (xs : List ContentRow)
    → map g (map f xs) ≡ map (λ x. g (f x)) xs
map-map f g [] = refl
map-map f g (x ∷ xs) = λ i. g (f x) ∷ map-map f g xs i

map-eq :
    (f g : ContentRow → ContentRow) (xs : List ContentRow)
    → ((x : ContentRow) → In x xs → f x ≡ g x)
    → map f xs ≡ map g xs
map-eq f g [] h = refl
map-eq f g (x ∷ xs) h = rw (h x here) (ap (λ l. g x ∷ l) (map-eq f g xs (λ y m. h y (there m))))

map-same : (xs : List ContentRow) → map (λ x. x) xs ≡ xs
map-same [] = refl
map-same (x ∷ xs) = ap (λ l. x ∷ l) (map-same xs)

module _ (now : ℕ) where
  -- What the pass does to a row, one claimed row after the other.
  abbrev publish_over : ContentRow → ContentRow → ContentRow
  publish_over c r = if r.id == c.id then as_published now (suc c.version) r else r

  abbrev publish_over_all : List ContentRow → ContentRow → ContentRow
  publish_over_all [] r = r
  publish_over_all (c ∷ claimed) r = publish_over_all claimed (publish_over c r)

  abbrev once : ContentRow → ContentRow
  once r = as_published now (suc r.version) r

  steps_done :
      (claimed : List ContentRow) (r : ContentRow)
      → ((c : ContentRow) → In c claimed → c.id ≡ r.id → c ≡ r)
      → publish_over_all claimed (once r) ≡ once r
  steps_done [] r h = refl
  steps_done (c ∷ claimed) r h = elim (Bool-cases (r.id == c.id)) [
    | inl e ↦
        let eq : c ≡ r = h c here (sym ((==_iff r.id c.id).0 e)) in
        rw (e, eq) (steps_done claimed r (λ d m. h d (there m)))
    | inr e ↦ rw (e) (steps_done claimed r (λ d m. h d (there m)))
  ]

  steps_lem :
      (claimed : List ContentRow) (r : ContentRow)
      → ((c : ContentRow) → In c claimed → c.id ≡ r.id → c ≡ r)
      → publish_over_all claimed r ≡ (if any (λ c. r.id == c.id) claimed then once r else r)
  steps_lem [] r h = refl
  steps_lem (c ∷ claimed) r h = elim (Bool-cases (r.id == c.id)) [
    | inl e ↦
        let eq : c ≡ r = h c here (sym ((==_iff r.id c.id).0 e)) in
        rw (e, eq) (steps_done claimed r (λ d m. h d (there m)))
    | inr e ↦ rw (e) (steps_lem claimed r (λ d m. h d (there m)))
  ]

module _ (pg : Postgres) (draws : Draws) where
  publish_one-contents :
      (current : ContentRow) (db : Db) {row : ContentRow} {db' : Db}
      → publish_one pg draws current db ≡ ok (row, db')
      → db'.contents ≡ map (publish_over draws.process_now current) db.contents
  unfolding publish_one
  publish_one-contents current db {row = row} {db' = db'} e =
      let f : Db → Db = λ d. record d {
        contents =
            update_row current.id (as_published draws.process_now (suc current.version)) d.contents;
      } in
      let look : Tx ContentRow = gets (λ db. find_row current.id db.contents) >>= returned in
      let tail : Tx ContentRow = statement pg f >> look in
      let (_, db₁, one, rest₁) =
        >>=-eq-ok (insert_content_revision pg draws current)
          (λ _. prune_revisions pg current.id >> tail) db e in
      let (_, db₂, two, rest₂) = >>=-eq-ok (prune_revisions pg current.id) (λ _. tail) db₁ rest₁ in
      let (_, db₃, three, rest₃) = >>=-eq-ok (statement pg f) (λ _. look) db₂ rest₂ in
      let kept : db₂.contents ≡ db.contents =
        prune_revisions-contents pg draws current.id db₁ _ db₂ two
        ∙ insert_content_revision-contents pg draws current db _ db₁ one in
      let same : db₃ ≡ db' = elim (Option-cases (find_row current.id db₃.contents)) [
        | inl gone ↦ absurd (ground (arith, gone, rest₃))
        | inr (r, found) ↦ ground (arith, found, rest₃)
      ] in
      ap (λ (d : Db). d.contents) (sym same ∙ statement-eq-ok pg f db₂ three)
      ∙ ap (map (publish_over draws.process_now current)) kept

  publish_each-contents :
      (now : ℕ) (claimed : List ContentRow) (db : Db) {rows : List ContentRow} {db' : Db}
      → ((c : ContentRow) → In c claimed → is_due now c ≡ true)
      → publish_each pg draws now claimed db ≡ ok (rows, db')
      → db'.contents ≡ map (publish_over_all draws.process_now claimed) db.contents
  unfolding publish_each
  publish_each-contents now [] db {rows = rows} {db' = db'} due e =
      ap (λ (d : Db). d.contents) {x = db'} {y = db} (ground (arith, e))
      ∙ sym (map-same db.contents)
  publish_each-contents now (c ∷ claimed) db {rows = rows} {db' = db'} due e =
      let rest : ContentRow → Tx (List ContentRow) =
        λ row. publish_each pg draws now claimed >>= λ rows. pure (row ∷ rows) in
      let run : (publish_one pg draws c >>= rest) db ≡ ok (rows, db') = rw (due c here) at e in
      let (row, db₁, one, rest₁) = >>=-eq-ok (publish_one pg draws c) rest db run in
      let (others, db₂, two, last) =
        >>=-eq-ok (publish_each pg draws now claimed) (λ rows. pure (row ∷ rows)) db₁ rest₁ in
      let same : db₂ ≡ db' = ground (arith, last) in
      ap (λ (d : Db). d.contents) (sym same)
      ∙ publish_each-contents now claimed db₁ (λ d m. due d (there m)) two
      ∙ ap (map (publish_over_all draws.process_now claimed)) (publish_one-contents c db one)
      ∙ map-map (publish_over draws.process_now c) (publish_over_all draws.process_now claimed)
          db.contents

  claimed-is_due :
      (now : ℕ) (rows : List ContentRow) (r : ContentRow)
      → unique_by (λ a b. a.id == b.id) rows ≡ true
      → In r rows
      → any (λ c. r.id == c.id) (sort_due (filter (is_due now) rows)) ≡ is_due now r
  claimed-is_due now rows r u m =
      let due = filter (is_due now) rows in
      elim (Bool-cases (is_due now r)) [
        | inl e ↦
            In-any (λ (c : ContentRow). r.id == c.id) (In-sort_due (filter-In (is_due now) m e))
              ((==_iff r.id r.id).1 refl)
            ∙ sym e
        | inr e ↦ elim (Bool-cases (any (λ (c : ContentRow). r.id == c.id) (sort_due due))) [
          | inr none_there ↦ none_there ∙ sym e
          | inl some_there ↦
              let (c, n, same) =
                any-In (λ (c : ContentRow). r.id == c.id) (sort_due due) some_there in
              let (at, is) = In-filter (is_due now) rows (sort_due-In due n) in
              let eq = unique-In rows u m at ((==_iff r.id c.id).0 same) in
              absurd (ground (arith, e, subst (λ z. is_due now z ≡ true) (sym eq) is))
        ]
      ]

  -- A pass that succeeds publishes every row that is due, once, and changes no other row.
  pub publish_due_content-contents :
      (now : ℕ) (db : Db) {rows : List ContentRow} {db' : Db}
      → satisfied contents_pkey db ≡ true
      → publish_due_content pg draws now db ≡ ok (rows, db')
      → db'.contents ≡ map (published_if_due draws.process_now now) db.contents
  unfolding publish_due_content
  publish_due_content-contents now db key e =
      let u : unique_by (λ a b. a.id == b.id) db.contents ≡ true = unfold satisfied in key in
      let due = filter (is_due now) db.contents in
      publish_each-contents now (sort_due due) db
        (λ c m. (In-filter (is_due now) db.contents (sort_due-In due m)).1) e
      ∙ map-eq (publish_over_all draws.process_now (sort_due due))
          (published_if_due draws.process_now now) db.contents
          λ r m.
            steps_lem draws.process_now (sort_due due) r (λ c n same.
              unique-In db.contents u (In-filter (is_due now) db.contents (sort_due-In due n)).0 m
                same)
            ∙ ap (λ b. if b then once draws.process_now r else r)
                (claimed-is_due now db.contents r u m)
