-- ===== src/Content/Rows.antt =====
-- The tables of packages/db/src/schema/contents.ts and content-media.ts, and the shapes of
-- packages/db/src/repositories/contents.ts. Rows are compared by id, so an id is a number;
-- instants are milliseconds since the epoch. Columns that no code of these files reads or writes
-- (the search vector, a group's creation date) are left out.
use presslabz.Base.{ℕ, Bool, Option, List, String}
use presslabz.Access.Ownership.{Uuid}
use presslabz.Access.Policy.{ContentStatus}
use presslabz.Blocks.Vocabulary.{Blocks}

-- A JSON value, for the metadata that a content type declares. A number is kept as it is spelt.
mutual
  pub data Json : Type 0 where
    null : Json
    bool : Bool → Json
    number text : String → Json
    array : Items → Json
    object : Fields → Json

  pub data Items : Type 0 where
    nil : Items
    item : Json → Items → Items

  pub data Fields : Type 0 where
    end : Fields
    field : String → Json → Fields → Fields

abbrev pub Meta : Type 0
Meta = Fields

pub record TranslationGroup : Type 0 where
  pub id : Uuid
  pub type : String

pub record ContentRow : Type 0 where
  pub id : Uuid
  pub type : String
  pub locale : String
  pub translation_group_id : Uuid
  pub slug : String
  pub status : ContentStatus
  pub title : String
  pub excerpt : Option String
  pub blocks : Blocks
  pub meta : Meta
  pub author_id : Option Uuid
  pub parent_id : Option Uuid
  pub version : ℕ
  pub published_at : Option ℕ
  pub updated_at : ℕ

pub record RevisionRow : Type 0 where
  pub id : Uuid
  pub content_id : Uuid
  pub slug : String
  pub title : String
  pub excerpt : Option String
  pub status : ContentStatus
  pub blocks : Blocks
  pub meta : Meta
  pub author_id : Option Uuid
  pub parent_id : Option Uuid
  pub published_at : Option ℕ
  pub version : ℕ
  pub created_at : ℕ

pub data Source : Type 0 where
  block meta : Source

pub record MediaLink : Type 0 where
  pub content_id : Uuid
  pub media_id : Uuid
  pub source : Source

-- What one reference names: an asset, where, and the block id or metadata key.
pub data Place : Type 0 where
  block_at : Uuid → Place
  meta_at : String → Place

pub record ContentMediaReference : Type 0 where
  pub media_id : Uuid
  pub source : Source
  pub at : Place

-- The tables that a content write reads and writes.
pub record Db : Type 0 where
  pub groups : List TranslationGroup
  pub contents : List ContentRow
  pub revisions : List RevisionRow
  pub links : List MediaLink
  pub media : List Uuid

pub record ContentState : Type 0 where
  pub slug : String
  pub title : String
  pub excerpt : Option String
  pub status : ContentStatus
  pub blocks : Blocks
  pub meta : Meta
  pub published_at : Option ℕ
  pub parent_id : Option Uuid

-- A key of an object that may hold `null`: absent or `undefined`, `null`, or a value. A patch
-- and the merge of a patch hold these; a state that a schema has parsed does not.
pub data Nullable {ℓ} (A : Type ℓ) : Type ℓ where
  undefined null : Nullable A
  value : A → Nullable A

pub record RawState : Type 0 where
  pub slug : String
  pub title : String
  pub excerpt : Nullable String
  pub status : ContentStatus
  pub blocks : Blocks
  pub meta : Meta
  pub published_at : Nullable ℕ
  pub parent_id : Nullable Uuid

pub record Patch : Type 0 where
  pub slug : Option String
  pub title : Option String
  pub excerpt : Nullable String
  pub status : Option ContentStatus
  pub blocks : Option Blocks
  pub meta : Option Meta
  pub published_at : Nullable ℕ
  pub parent_id : Nullable Uuid

pub data ContentConflictReason : Type 0 where
  group_not_found group_type_mismatch translation_exists slug_taken stale_version :
      ContentConflictReason
  parent_not_found parent_mismatch parent_cycle parent_too_deep : ContentConflictReason

pub data ContentForbiddenReason : Type 0 where
  document_forbidden group_forbidden : ContentForbiddenReason
