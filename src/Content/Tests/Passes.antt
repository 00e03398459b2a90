-- ===== src/Content/Tests/Passes.antt =====
-- A publication pass over the site, at an instant at which the second page is due.
use presslabz.Base.{◌≡◌, refl, true, some, List, [], ◌∷◌, arith, map, In, here, there}
use presslabz.Access.Visibility.{is_publicly_visible}
use presslabz.Content.Rows.{ContentRow, Db}
use presslabz.Content.Database.{listed_order, satisfied, contents_pkey}
use presslabz.Content.Transaction.{Result, ok, err}
use presslabz.Content.Tree.{find_row}
use presslabz.Content.Write.Publish.{as_published, publish_due_content}
use presslabz.Content.Write.Published.{published_if_due, publish_due_content-contents}
use presslabz.Content.Write.Published.Pass.{publish_due_content-again, publish_due_content-visible}
use presslabz.Content.Tests.{about, site, draws, after_run}

abbrev pass : Result (List ContentRow × Db)
pass = publish_due_content listed_order draws 95 site

abbrev rows_or : Result (List ContentRow × Db) → List ContentRow
rows_or (ok (rows, db)) = rows
rows_or (err e) = []

passes : publish_due_content listed_order draws 95 site ≡ ok (rows_or pass, after_run pass)
unfolding publish_due_content satisfied find_row
passes = refl

key : satisfied contents_pkey site ≡ true
unfolding satisfied
key = refl

pass_publishes_one : rows_or pass ≡ as_published 100 2 about ∷ []
unfolding publish_due_content satisfied find_row
pass_publishes_one = refl

publish_due_content-contents_example :
    (after_run pass).contents ≡ map (published_if_due 100 95) site.contents
publish_due_content-contents_example =
    publish_due_content-contents listed_order draws 95 site key passes

publish_due_content-again_example :
    publish_due_content listed_order draws 95 (after_run pass) ≡ ok ([], after_run pass)
publish_due_content-again_example = publish_due_content-again listed_order draws 95 site key passes

publish_due_content-visible_example :
    (row : ContentRow) × In row (after_run pass).contents
    × (row.id ≡ about.id)
    × (row.published_at ≡ some 90)
    × (is_publicly_visible row.status row.published_at 95 ≡ true)
publish_due_content-visible_example =
    publish_due_content-visible listed_order draws 95 site key passes 95 about (omega arith)
      (there here) refl
