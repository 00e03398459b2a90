-- ===== src/Content/Tests/Updates.antt =====
-- Updates, creations and deletions at the site.
use presslabz.Base.{
  ◌≡◌, ◌↔◌, ◌≤◌, refl, true, Option, none, some, List, [], ◌∷◌, here, there, length,
}
use presslabz.Access.Policy.{draft}
use presslabz.Content.Rows.{end, ContentRow, stale_version, parent_cycle, Db}
use presslabz.Content.Database.{listed_order, satisfied}
use presslabz.Content.Transaction.{Result, ok, err, conflict}
use presslabz.Content.Tree.Height.{HasUniqueIds}
use presslabz.Content.Tree.{
  find_row, walk, subtree_height, last_level, children, ParentCheck, assert_usable_parent,
}
use presslabz.Content.Tree.Depth.{IsForest}
use presslabz.Content.Tree.Placement.{IsUsable, assert_usable_parent_iff}
use presslabz.Content.Schema.{parse_state, merge_patch, to_state, state_of_revision}
use presslabz.Content.Schema.Merge.{state_of_revision-parse, IsValidState}
use presslabz.Content.References.{media_references_of}
use presslabz.Content.History.{revision_of, revisions_of, revision_limit, prune_revisions}
use presslabz.Content.History.Pruning.{prune_revisions-le}
use presslabz.Content.Write.Update.{update_content}
use presslabz.Content.Write.Versions.{
  state_of_row, update_content-once, update_content-IsValidState,
}
use presslabz.Content.Write.Forest.{update_content-IsForest}
use presslabz.Content.Write.Create.{
  open_group, CreateContentInput, join_existing_group, create_content,
}
use presslabz.Content.Write.Created.{IsJoinable, join_existing_group_iff}
use presslabz.Content.Write.Created.Forest.{create_content-IsForest}
use presslabz.Content.Write.Delete.{delete_content}
use presslabz.Content.Write.Removed.{delete_content-IsForest}
use presslabz.Content.Write.Removed.Rows.{IsRemoved, delete_content-IsRemoved}
use presslabz.Content.Tests.{
  schema, home, about, site, draws, nothing, to_top, options, after_run, row_or, site-IsForest,
}

abbrev updated : Result (Option ContentRow × Db)
updated = update_content listed_order draws schema (λ _. []) 2 to_top options site

updates :
    update_content listed_order draws schema (λ _. []) 2 to_top options site
    ≡ ok (some (row_or updated), after_run updated)
unfolding update_content satisfied find_row media_references_of
updates = refl

update_content-IsForest_example : IsForest (after_run updated).contents
update_content-IsForest_example =
    update_content-IsForest listed_order draws schema (λ _. []) 2 to_top options site site-IsForest
      updates

update_content-once_example :
    update_content listed_order draws schema (λ _. []) 2 nothing options (after_run updated)
    ≡ err (conflict stale_version)
update_content-once_example =
    update_content-once listed_order draws schema (λ _. []) 2 to_top nothing options options 1 site
      refl refl updates

update_content-IsValidState_example : IsValidState schema (state_of_row (row_or updated))
update_content-IsValidState_example =
    update_content-IsValidState listed_order draws schema (λ _. []) 2 to_top options site updates

abbrev contact : ContentRow
contact = record home { id = 3; slug = "contact" }

abbrev team : ContentRow
team = record home { id = 4; slug = "team"; parent_id = some 2 }

abbrev pages : List ContentRow
pages = home ∷ about ∷ contact ∷ team ∷ []

-- The second page goes under the third one, with the page below it.
abbrev under_contact : ParentCheck
under_contact = record { child_id = some 2; parent_id = 3; type = "page"; locale = "en" }

pages-HasUniqueIds : HasUniqueIds pages
unfolding find_row
pages-HasUniqueIds _ here = refl
pages-HasUniqueIds _ (there here) = refl
pages-HasUniqueIds _ (there (there here)) = refl
pages-HasUniqueIds _ (there (there (there here))) = refl
pages-HasUniqueIds _ (there (there (there (there m)))) = elim m [ ]

assert_usable_parent_iff_example :
    (assert_usable_parent pages under_contact ≡ none) ↔ IsUsable pages under_contact
assert_usable_parent_iff_example = assert_usable_parent_iff pages under_contact pages-HasUniqueIds

accepts : assert_usable_parent pages under_contact ≡ none
unfolding assert_usable_parent walk find_row subtree_height last_level children
accepts = refl

abbrev under_team : ParentCheck
under_team = record under_contact { parent_id = 4 }

refuses : assert_usable_parent pages under_team ≡ some parent_cycle
unfolding assert_usable_parent walk find_row subtree_height
refuses = refl

abbrev input : CreateContentInput
input = record {
  locale = "en";
  author_id = some 7;
  state = record {
    slug = "team";
    title = "Team";
    excerpt = none;
    status = draft;
    blocks = [];
    meta = end;
    published_at = none;
    parent_id = some 2;
  };
  group = open_group;
}

abbrev row_of_run : Result (ContentRow × Db) → ContentRow
row_of_run (ok (row, db)) = row
row_of_run (err e) = home

abbrev creation : Result (ContentRow × Db)
creation = create_content listed_order draws "page" (λ _. []) input site

creates :
    create_content listed_order draws "page" (λ _. []) input site
    ≡ ok (row_of_run creation, after_run creation)
unfolding create_content satisfied find_row media_references_of assert_usable_parent walk
creates = refl

create_content-IsForest_example : IsForest (after_run creation).contents
create_content-IsForest_example =
    create_content-IsForest listed_order draws "page" (λ _. []) input site site-IsForest creates

join_existing_group_iff_example :
    (join_existing_group listed_order draws "page" 10 (λ _. true) "de" site ≡ ok (10, site))
    ↔ IsJoinable "page" "de" (λ _. true) site 10
join_existing_group_iff_example =
    join_existing_group_iff listed_order draws "page" 10 (λ _. true) "de" site

joins : join_existing_group listed_order draws "page" 10 (λ _. true) "de" site ≡ ok (10, site)
unfolding join_existing_group
joins = refl

abbrev deletion : Result (Option ContentRow × Db)
deletion = delete_content listed_order 1 none site

deletes : delete_content listed_order 1 none site ≡ ok (some (row_or deletion), after_run deletion)
unfolding delete_content satisfied find_row
deletes = refl

delete_content-IsForest_example : IsForest (after_run deletion).contents
delete_content-IsForest_example =
    delete_content-IsForest listed_order 1 none site site-IsForest deletes

delete_content-IsRemoved_example : IsRemoved 1 none site (row_or deletion) (after_run deletion)
delete_content-IsRemoved_example = delete_content-IsRemoved listed_order 1 none site deletes

state_of_revision-parse_example :
    parse_state schema (merge_patch (to_state about) (state_of_revision (revision_of home 60 99)))
    ≡ parse_state schema (to_state home)
state_of_revision-parse_example = state_of_revision-parse schema about home 60 99

abbrev prunes_to : Db
prunes_to = after_run (prune_revisions listed_order 2 (after_run updated))

prunes : prune_revisions listed_order 2 (after_run updated) ≡ ok (tt, prunes_to)
unfolding update_content satisfied find_row media_references_of prune_revisions
prunes = refl

prune_revisions-le_example : length (revisions_of 2 prunes_to.revisions) ≤ revision_limit
prune_revisions-le_example = prune_revisions-le listed_order 2 (after_run updated) prunes
