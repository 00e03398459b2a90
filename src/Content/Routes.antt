-- ===== src/Content/Routes.antt =====
-- apps/api/src/content/routes.ts: the handlers that update and delete a document, from the parsed
-- request to the reply and what is announced. The user is there (`requireAuth`), and the type is
-- the registry's answer. What Zod makes of the body is part of the request.
pub mod Writes
pub mod Granted
use presslabz.Base.{
  ℕ, Bool, true, false, ◌&&◌, Option, none, some, List, [], ◌∷◌, str_eq, if◌then◌else◌,
}
use presslabz.Access.Ownership.{Uuid, Actor}
use presslabz.Access.Policy.{ContentStatus, published, can_write, can_delete}
use presslabz.Content.Rows.{
  ContentRow, ContentState, RawState, Patch, undefined, null, value, ContentConflictReason,
  group_not_found, parent_not_found, parent_mismatch, ContentForbiddenReason, ContentMediaReference,
  Db,
}
use presslabz.Content.Database.{Postgres}
use presslabz.Content.Transaction.{
  Result, ok, err, WriteError, conflict, forbidden, media_missing, invalid_state, violation, no_row,
}
use presslabz.Content.Tree.{find_row}
use presslabz.Content.Schema.{ContentSchema}
use presslabz.Content.References.{MediaIn}
use presslabz.Content.History.{Draws}
use presslabz.Content.Write.Update.{UpdateContentOptions, exactly, update_content}
use presslabz.Content.Write.Delete.{delete_content}
use presslabz.Hooks.Events.{
  ContentEvent, ContentAction, ContentTransition, content_deleted, content_event_of,
  transitions_for,
}

pub data Reply : Type 0 where
  sent : (row : ContentRow) → Reply
  no_content not_found unknown_content_type invalid_request expected_version_required : Reply
  not_allowed : (reason : ContentForbiddenReason) → Reply
  unprocessable conflicting : (reason : ContentConflictReason) → Reply
  unprocessable_media : (references : List ContentMediaReference) → Reply
  not_a_state : Reply
  -- The error is thrown again, and the error handler answers.
  thrown : (error : WriteError) → Reply

abbrev pub status_code : Reply → ℕ
status_code (sent row) = 200
status_code no_content = 204
status_code not_found = 404
status_code unknown_content_type = 404
status_code invalid_request = 400
status_code expected_version_required = 400
status_code (not_allowed reason) = 403
status_code (unprocessable reason) = 422
status_code (conflicting reason) = 409
status_code (unprocessable_media references) = 422
status_code not_a_state = 400
status_code (thrown error) = 500

abbrev pub is_unprocessable : ContentConflictReason → Bool
is_unprocessable group_not_found = true
is_unprocessable parent_not_found = true
is_unprocessable parent_mismatch = true
is_unprocessable _ = false

abbrev pub reply_for_write_error : WriteError → Reply
reply_for_write_error (forbidden reason) = not_allowed reason
reply_for_write_error (media_missing references) = unprocessable_media references
reply_for_write_error (conflict reason) =
    if is_unprocessable reason then unprocessable reason else conflicting reason
reply_for_write_error invalid_state = not_a_state
reply_for_write_error (violation constraint) = thrown (violation constraint)
reply_for_write_error no_row = thrown no_row

abbrev pub is_published : ContentStatus → Bool
is_published published = true
is_published _ = false

-- `if (state.status !== 'published' || state.publishedAt !== undefined) return state`
unfoldable pub stamp_publication : ℕ → RawState → RawState
stamp_publication now state = elim state.published_at [
  | undefined ↦
      if is_published state.status then record state { published_at = value now } else state
  | null ↦ state
  | value d ↦ state
]

-- What a request asks for, with what Zod made of its parts.
pub record PatchRequest : Type 0 where
  pub id : Option Uuid
  pub expected_version : Option ℕ
  pub fields : Option Patch

-- The reply, what was announced, and the tables afterwards.
pub record Outcome : Type 0 where
  pub reply : Reply
  pub announced : List (ContentAction × ContentTransition)
  pub db : Db

module _ (type : ContentSchema) (actor : Actor) where
  unfoldable pub may_write : ContentRow → ContentState → Bool
  unfolding can_write
  may_write current next =
      str_eq current.type type.type.name
      && can_write type.type.access
          (record { next_status = next.status; current_status = some current.status }) actor
          current.author_id

  unfoldable pub may_delete : ContentRow → Bool
  unfolding can_delete
  may_delete current =
      str_eq current.type type.type.name
      && can_delete type.type.access current.status actor current.author_id

  abbrev pub derive : ℕ → ContentRow → RawState → RawState
  derive now current merged =
      if is_published current.status then merged else stamp_publication now merged

  abbrev pub update_options : ℕ → ℕ → UpdateContentOptions
  update_options now version = record {
    derive = some (derive now);
    authorize = some may_write;
    expected_version = exactly version;
  }

-- `previousStatus ?? row.status`
abbrev pub previous_status : Option ContentRow → ContentRow → ContentStatus
previous_status none row = row.status
previous_status (some current) row = current.status

-- A transaction that failed leaves no changes: `db` is the tables before it.
abbrev pub reply_update : Db → Option ContentRow → Result (Option ContentRow × Db) → Outcome
reply_update db current (err error) = record {
  reply = reply_for_write_error error;
  announced = [];
  db = db;
}
reply_update db current (ok (none, db')) = record { reply = not_found; announced = []; db = db' }
reply_update db current (ok (some row, db')) = record {
  reply = sent row;
  announced = transitions_for (previous_status current row) (content_event_of row);
  db = db';
}

abbrev pub reply_delete : Db → Result (Option ContentRow × Db) → Outcome
reply_delete db (err error) = record {
  reply = reply_for_write_error error;
  announced = [];
  db = db;
}
reply_delete db (ok (none, db')) = record { reply = not_found; announced = []; db = db' }
reply_delete db (ok (some row, db')) = record {
  reply = no_content;
  announced =
      (content_deleted, record { event = content_event_of row; previous_status = row.status }) ∷ [];
  db = db';
}

module _ (pg : Postgres) (draws : Draws) (media_in : MediaIn) (actor : Actor) (now : ℕ) where
  refused : Reply → Db → Outcome
  refused reply db = record { reply = reply; announced = []; db = db }

  -- `PATCH /content/:type/:id`
  unfoldable pub patch_content : Option ContentSchema → PatchRequest → Db → Outcome
  unfolding refused update_content stamp_publication may_write
  patch_content none request db = refused unknown_content_type db
  patch_content (some type) request db = elim request.id [
    | none ↦ refused invalid_request db
    | some id ↦ elim request.expected_version [
      | none ↦ refused expected_version_required db
      | some version ↦ elim request.fields [
        | none ↦ refused invalid_request db
        | some patch ↦ reply_update db (find_row id db.contents) (
            update_content pg draws type media_in id patch (update_options type actor now version)
              db)
      ]
    ]
  ]

  -- `DELETE /content/:type/:id`
  unfoldable pub remove_content_by : Option ContentSchema → Option Uuid → Db → Outcome
  unfolding refused delete_content may_delete
  remove_content_by none id db = refused unknown_content_type db
  remove_content_by (some type) none db = refused invalid_request db
  remove_content_by (some type) (some id) db =
      reply_delete db (delete_content pg id (some (may_delete type actor)) db)
