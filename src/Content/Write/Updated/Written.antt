-- ===== src/Content/Write/Updated/Written.antt =====
-- `updateContent`: what an update leaves in the tables, column by column.
use presslabz.Base.{suc, ◌≡◌, ◌≢◌, some}
use presslabz.Access.Ownership.{Uuid}
use presslabz.Content.Rows.{ContentRow, Patch, Db}
use presslabz.Content.Tree.{find_row}
use presslabz.Content.Schema.{ContentSchema, parse_state, to_state, merge_patch}
use presslabz.Content.Write.Update.{UpdateContentOptions, derived}
use presslabz.Content.Write.Versions.{state_of_row}

-- The columns that no update touches.
pub record IsSameDocument (before after : ContentRow) : Type 0 where
  pub id : after.id ≡ before.id
  pub type : after.type ≡ before.type
  pub locale : after.locale ≡ before.locale
  pub group : after.translation_group_id ≡ before.translation_group_id
  pub author : after.author_id ≡ before.author_id

pub record IsWritten (schema : ContentSchema) (id : Uuid) (patch : Patch)
    (options : UpdateContentOptions) (db : Db) (row : ContentRow) (db' : Db) : Type 0 where
  pub current : ContentRow
  pub found : find_row id db.contents ≡ some current
  pub state :
      parse_state schema (derived options.derive current (merge_patch (to_state current) patch))
      ≡ some (state_of_row row)
  pub same : IsSameDocument current row
  pub version : row.version ≡ suc current.version
  pub stored : find_row id db'.contents ≡ some row
  pub others : (x : Uuid) → x ≢ id → find_row x db'.contents ≡ find_row x db.contents
