-- ===== src/Content/Tests.antt =====
-- A site of two pages, at which the writes and the listings are run: the root is public, and the
-- page under it is scheduled.
mod Updates
mod Passes
mod Listings
mod Links
mod Requests
use presslabz.Base.{
  ◌+◌, refl, true, Option, none, some, [], ◌∷◌, arith, Bool-cases, inl, inr, subst, sym, ==_iff,
  ◌==◌, length,
}
use presslabz.Access.Policy.{default_access, published, scheduled}
use presslabz.Access.Registry.{ContentType}
use presslabz.Content.Rows.{end, ContentRow, Patch, undefined, null, Db}
use presslabz.Content.Transaction.{Result, ok, err}
use presslabz.Content.Tree.{find_row, parent_at}
use presslabz.Content.Tree.Depth.{HasDepth, root, under, IsForest}
use presslabz.Content.Schema.{ContentSchema}
use presslabz.Content.History.{Draws}
use presslabz.Content.Write.Update.{exactly, UpdateContentOptions}

abbrev pub page : ContentType
page = record { name = "page"; hierarchical = true; base_path = ""; access = default_access }

abbrev pub schema : ContentSchema
schema = record { type = page; parse_meta = some; valid_block = λ _. true }

abbrev pub home : ContentRow
home = record {
  id = 1;
  type = "page";
  locale = "en";
  translation_group_id = 10;
  slug = "home";
  status = published;
  title = "Home";
  excerpt = none;
  blocks = [];
  meta = end;
  author_id = some 7;
  parent_id = none;
  version = 1;
  published_at = some 5;
  updated_at = 5;
}

abbrev pub about : ContentRow
about = record home {
  id = 2;
  translation_group_id = 11;
  slug = "about";
  status = scheduled;
  parent_id = some 1;
  published_at = some 90;
}

abbrev pub site : Db
site = record {
  groups = record { id = 10; type = "page" } ∷ record { id = 11; type = "page" } ∷ [];
  contents = home ∷ about ∷ [];
  revisions = [];
  links = [];
  media = [];
}

abbrev pub draws : Draws
draws = record {
  process_now = 100;
  transaction_now = 99;
  random_uuid = λ db. 50 + length db.revisions + length db.contents;
}

abbrev pub nothing : Patch
nothing = record {
  slug = none;
  title = none;
  excerpt = undefined;
  status = none;
  blocks = none;
  meta = none;
  published_at = undefined;
  parent_id = undefined;
}

abbrev pub to_top : Patch
to_top = record nothing { title = some "About us"; parent_id = null }

abbrev pub options : UpdateContentOptions
options = record { derive = none; authorize = none; expected_version = exactly 1 }

abbrev pub after_run : {A : Type 0} → Result (A × Db) → Db
after_run (ok (a, db)) = db
after_run (err e) = site

abbrev pub row_or : Result (Option ContentRow × Db) → ContentRow
row_or (ok (some row, db)) = row
row_or _ = home

home_depth : HasDepth site.contents 1 1
unfolding parent_at find_row
home_depth = root refl

pub site-IsForest : IsForest site.contents
unfolding parent_at find_row
site-IsForest x p e = elim (Bool-cases (x == 1)) [
  | inl h ↦
      (1, subst (λ y. HasDepth site.contents y 1) (sym ((==_iff x 1).0 h)) home_depth, omega arith)
  | inr h ↦ elim (Bool-cases (x == 2)) [
    | inl k ↦ (
      2,
      subst (λ y. HasDepth site.contents y 2) (sym ((==_iff x 2).0 k)) (under 1 refl home_depth),
      omega arith,
    )
    | inr k ↦ absurd (ground (arith, e, h, k))
  ]
]
