-- ===== src/Content/Write.antt =====
-- The write paths of packages/db/src/repositories/contents.ts. A transaction runs as one step:
-- the row locks that the code takes are what makes it one.
pub mod Update
pub mod Create
pub mod Delete
pub mod Publish
pub mod Updated
pub mod Versions
pub mod Published
pub mod Created
pub mod Removed
pub mod Forest
use presslabz.Base.{List}
use presslabz.Content.Rows.{ContentMediaReference, translation_exists, slug_taken, Db}
use presslabz.Content.Database.{
  contents_group_locale_uq, contents_type_locale_slug_uq, content_media_media_fk,
}
use presslabz.Content.Transaction.{WriteError, conflict, media_missing, violation, Result, ok, err}
use presslabz.Content.References.{absent_media}

-- The `catch` of a write: what the driver reports becomes the error that the check in the
-- transaction would have raised, for the constraints that have one, and any other goes on.
unfoldable pub translate_error : Db → List ContentMediaReference → WriteError → WriteError
translate_error db references (violation contents_group_locale_uq) = conflict translation_exists
translate_error db references (violation contents_type_locale_slug_uq) = conflict slug_taken
translate_error db references (violation content_media_media_fk) =
    media_missing (absent_media db.media references)
translate_error db references e = e

abbrev pub catch_error : {A : Type 0} → Db → List ContentMediaReference → Result A → Result A
catch_error db references (ok a) = ok a
catch_error db references (err e) = err (translate_error db references e)
