-- ===== src/Content/Tests/Requests.antt =====
-- Requests to change documents of the site.
use presslabz.Base.{◌≡◌, refl, none, some, []}
use presslabz.Access.Capability.{editor, capabilities_for}
use presslabz.Access.Ownership.{Actor}
use presslabz.Access.Policy.{published, default_access}
use presslabz.Content.Rows.{ContentRow, Patch, null, stale_version}
use presslabz.Content.Database.{listed_order, satisfied}
use presslabz.Content.Tree.{find_row}
use presslabz.Content.Schema.{merge_patch, to_state}
use presslabz.Content.References.{media_references_of}
use presslabz.Content.Write.Update.{update_content}
use presslabz.Content.Routes.{Reply, sent, conflicting, Outcome, patch_content}
use presslabz.Content.Routes.Writes.{well_formed}
use presslabz.Content.Routes.Granted.{
  IsGranted, patch_content-IsGranted, patch_content-date_on_entry,
}
use presslabz.Content.Tests.{schema, about, site, draws, nothing}

abbrev chief : Actor
chief = record { capabilities = capabilities_for editor; id = some 9 }

-- Publish now, with the date taken off.
abbrev publish_it : Patch
publish_it = record nothing { status = some published; published_at = null }

abbrev answered : Outcome
answered =
    patch_content listed_order draws (λ _. []) chief 100 (some schema) (well_formed 2 1 publish_it)
      site

abbrev row_sent : Reply → ContentRow
row_sent (sent row) = row
row_sent _ = about

answers : answered.reply ≡ sent (row_sent answered.reply)
unfolding patch_content update_content satisfied find_row media_references_of
    presslabz.Access.Ownership.allows presslabz.Access.Capability.includes capabilities_for
    mathlib.Core.Bool.decide default_access
answers = refl

patch_content-IsGranted_example : IsGranted schema chief 2 site (row_sent answered.reply) answered
patch_content-IsGranted_example =
    patch_content-IsGranted listed_order draws (λ _. []) chief 100 schema 2 1 publish_it site
      (row_sent answered.reply) answers

patch_content-date_on_entry_example : (row_sent answered.reply).published_at ≡ none
unfolding merge_patch to_state find_row patch_content update_content satisfied media_references_of
    presslabz.Access.Ownership.allows presslabz.Access.Capability.includes capabilities_for
    mathlib.Core.Bool.decide default_access
patch_content-date_on_entry_example =
    patch_content-date_on_entry listed_order draws (λ _. []) chief 100 schema 2 1 publish_it site
      (row_sent answered.reply) about refl answers refl refl

-- A request whose version has passed.
abbrev stale : Outcome
stale =
    patch_content listed_order draws (λ _. []) chief 100 (some schema) (well_formed 2 5 publish_it)
      site

stale_answers : stale.reply ≡ conflicting stale_version
unfolding patch_content update_content satisfied find_row media_references_of
    presslabz.Content.Write.translate_error
stale_answers = refl
