-- ===== src/Content/Schema.antt =====
-- The whole-state schema of packages/core/src/content-types.ts (`stateSchema`), the slug rule of
-- packages/core/src/slug.ts, and the merge of packages/db/src/repositories/contents.ts that the
-- schema judges. What Zod checks inside a metadata object is declared by each content type, and
-- what it checks inside one block stands in packages/blocks/src; both are fields here.
pub mod Merge
use Prim.Native.Char.{code}
use Prim.Native.String
use presslabz.Base.{
  ℕ, ◌+◌, Bool, true, false, not, ◌&&◌, ◌||◌, Option, none, some, [], ◌∷◌, String, leb, ltb, ◌==◌,
  if◌then◌else◌, all,
}
use presslabz.Access.Policy.{ContentStatus, scheduled}
use presslabz.Access.Registry.{ContentType}
use presslabz.Blocks.Vocabulary.{Block, has_unique_ids}
use presslabz.Content.Rows.{
  Meta, ContentRow, RevisionRow, ContentState, RawState, Patch, Nullable, undefined, null, value,
}

-- `string.length`, in UTF-16 code units.
abbrev pub js_length : String → ℕ
js_length String.[] = 0
js_length (String.◌∷◌ c s) = (if ltb (code c) 0x10000 then 1 else 2) + js_length s

abbrev is_alphanumeric : ℕ → Bool
is_alphanumeric c = leb b'a' c && leb c b'z' || leb b'0' c && leb c b'9'

-- /^[a-z0-9]+(?:-[a-z0-9]+)*$/, read from the left; `need` says that a letter or digit must come.
unfoldable pub slug_from : Bool → String → Bool
slug_from need String.[] = not need
slug_from need (String.◌∷◌ c s) =
    let within = slug_from false s in
    let after_hyphen = slug_from true s in
    if is_alphanumeric (code c)
    then within
    else if code c == b'-' && not need
    then after_hyphen
    else false

unfoldable pub is_slug : String → Bool
unfolding slug_from
is_slug s = leb 1 (js_length s) && leb (js_length s) 120 && slug_from true s

-- A content type with the parts of it that Zod runs.
pub record ContentSchema : Type 0 where
  pub type : ContentType
  pub parse_meta : Meta → Option Meta
  pub valid_block : Block → Bool

-- `value ?? undefined`
abbrev pub cleared {ℓ} : {A : Type ℓ} → Nullable A → Option A
cleared undefined = none
cleared null = none
cleared (value a) = some a

abbrev fits_excerpt : Nullable String → Bool
fits_excerpt undefined = true
fits_excerpt null = true
fits_excerpt (value s) = leb (js_length s) 1000

-- `scheduleHasDate`
abbrev pub schedule_has_date : ContentStatus → Option ℕ → Bool
schedule_has_date scheduled none = false
schedule_has_date _ _ = true

abbrev pub fits_fields : ContentSchema → RawState → Bool
fits_fields schema raw =
    is_slug raw.slug
    && (leb 1 (js_length raw.title) && leb (js_length raw.title) 300)
    && fits_excerpt raw.excerpt
    && (all schema.valid_block raw.blocks && has_unique_ids raw.blocks)
    && schedule_has_date raw.status (cleared raw.published_at)

-- A type that is not hierarchical has no `parentId` in its shape, and an object schema drops the
-- keys that it does not know.
abbrev pub parsed_state : ContentSchema → RawState → Meta → ContentState
parsed_state schema raw values = record {
  slug = raw.slug;
  title = raw.title;
  excerpt = cleared raw.excerpt;
  status = raw.status;
  blocks = raw.blocks;
  meta = values;
  published_at = cleared raw.published_at;
  parent_id = if schema.type.hierarchical then cleared raw.parent_id else none;
}

unfoldable pub parse_state : ContentSchema → RawState → Option ContentState
unfolding is_slug has_unique_ids
parse_state schema raw = elim (schema.parse_meta raw.meta) [
  | none ↦ none
  | some values ↦ if fits_fields schema raw then some (parsed_state schema raw values) else none
]

-- `row.excerpt ?? undefined`
abbrev pub defined {ℓ} : {A : Type ℓ} → Option A → Nullable A
defined none = undefined
defined (some a) = value a

unfoldable pub to_state : ContentRow → RawState
to_state row = record {
  slug = row.slug;
  title = row.title;
  excerpt = defined row.excerpt;
  status = row.status;
  blocks = row.blocks;
  meta = row.meta;
  published_at = defined row.published_at;
  parent_id = defined row.parent_id;
}

abbrev pub or_kept {ℓ} : {A : Type ℓ} → Option A → A → A
or_kept none kept = kept
or_kept (some a) kept = a

-- A key of the patch that is not `undefined` overwrites, a `null` too.
abbrev pub or_kept_nullable {ℓ} : {A : Type ℓ} → Nullable A → Nullable A → Nullable A
or_kept_nullable undefined kept = kept
or_kept_nullable null kept = null
or_kept_nullable (value a) kept = value a

-- `{ ...toState(current), ...definedEntries(patch) }`
unfoldable pub merge_patch : RawState → Patch → RawState
merge_patch state patch = record {
  slug = or_kept patch.slug state.slug;
  title = or_kept patch.title state.title;
  excerpt = or_kept_nullable patch.excerpt state.excerpt;
  status = or_kept patch.status state.status;
  blocks = or_kept patch.blocks state.blocks;
  meta = or_kept patch.meta state.meta;
  published_at = or_kept_nullable patch.published_at state.published_at;
  parent_id = or_kept_nullable patch.parent_id state.parent_id;
}

-- A column that is null is a `null` of the patch, not an absence.
abbrev pub or_null {ℓ} : {A : Type ℓ} → Option A → Nullable A
or_null none = null
or_null (some a) = value a

-- `stateOfRevision`
unfoldable pub state_of_revision : RevisionRow → Patch
state_of_revision revision = record {
  slug = some revision.slug;
  title = some revision.title;
  excerpt = or_null revision.excerpt;
  status = some revision.status;
  blocks = some revision.blocks;
  meta = some revision.meta;
  published_at = or_null revision.published_at;
  parent_id = or_null revision.parent_id;
}
