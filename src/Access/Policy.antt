-- ===== src/Access/Policy.antt =====
-- packages/core/src/content-types.ts: statuses, operations, and the questions that the policy of a
-- content type answers. A type is reduced to what those questions read of it.
use presslabz.Base.{
  Bool, true, false, ◌||◌, Option, none, some, List, [], ◌∷◌, any, all, filter, if◌then◌else◌,
}
use presslabz.Access.Capability.{
  content_read, content_create, content_update_any, content_update_own, content_delete_any,
  content_delete_own, content_publish,
}
use presslabz.Access.Ownership.{Uuid, Actor, OperationAccess, allows}

pub data ContentStatus : Type 0 where
  draft scheduled published archived trash : ContentStatus

abbrev pub content_statuses : List ContentStatus
content_statuses = draft ∷ scheduled ∷ published ∷ archived ∷ trash ∷ []

unfoldable pub is_publishable : ContentStatus → Bool
is_publishable published = true
is_publishable scheduled = true
is_publishable _ = false

-- `PUBLIC_CONTENT_STATUSES.includes`
unfoldable pub is_public_status : ContentStatus → Bool
is_public_status published = true
is_public_status _ = false

pub data ContentOperation : Type 0 where
  read create update delete publish : ContentOperation

-- `AnyContentType.access`, which every type has whole: what it declares over the defaults.
abbrev pub AccessTable : Type 0
AccessTable = ContentOperation → OperationAccess

unfoldable pub default_access : AccessTable
default_access read = record { everywhere = content_read; own = none }
default_access create = record { everywhere = content_create; own = none }
default_access update = record { everywhere = content_update_any; own = some content_update_own }
default_access delete = record { everywhere = content_delete_any; own = some content_delete_own }
default_access publish = record { everywhere = content_publish; own = none }

-- What an authorization decision reads of a row.
pub record Resource : Type 0 where
  pub author_id : Option Uuid
  pub status : ContentStatus

module _ (access : AccessTable) where
  unfoldable pub can_perform : ContentOperation → Actor → Option Uuid → Bool
  can_perform operation actor author_id = allows (access operation) actor author_id

  unfoldable pub can_read_document : Actor → Resource → Bool
  unfolding is_public_status can_perform
  can_read_document actor resource =
      if can_perform read actor none
      then (if is_public_status resource.status
          then true
          else can_perform update actor resource.author_id)
      else false

-- The status the document has now is absent when the write creates it.
pub record WriteIntent : Type 0 where
  pub next_status : ContentStatus
  pub current_status : Option ContentStatus

abbrev pub base_operation : Option ContentStatus → ContentOperation
base_operation none = create
base_operation (some status) = update

abbrev pub was_publishable : Option ContentStatus → Bool
was_publishable none = false
was_publishable (some status) = is_publishable status

unfoldable pub operations_for_write : WriteIntent → List ContentOperation
unfolding is_publishable
operations_for_write intent =
    if is_publishable intent.next_status || was_publishable intent.current_status
    then base_operation intent.current_status ∷ publish ∷ []
    else base_operation intent.current_status ∷ []

unfoldable pub operations_for_delete : ContentStatus → List ContentOperation
unfolding is_publishable
operations_for_delete status = if is_publishable status then delete ∷ publish ∷ [] else delete ∷ []

pub record DocumentPermissions : Type 0 where
  pub update : Bool
  pub delete : Bool
  pub statuses : List ContentStatus

pub record CreationPermissions : Type 0 where
  pub create : Bool
  pub statuses : List ContentStatus

module _ (access : AccessTable) where
  unfoldable pub can_write : WriteIntent → Actor → Option Uuid → Bool
  unfolding operations_for_write can_perform
  can_write intent actor author_id =
      all (λ operation. can_perform access operation actor author_id) (operations_for_write intent)

  unfoldable pub can_delete : ContentStatus → Actor → Option Uuid → Bool
  unfolding operations_for_delete can_perform
  can_delete status actor author_id =
      all (λ operation. can_perform access operation actor author_id) (operations_for_delete status)

  -- A write that leaves the status of a document as it is.
  unfoldable pub can_edit : Actor → Resource → Bool
  unfolding can_write
  can_edit actor member =
      can_write (record { next_status = member.status; current_status = some member.status }) actor
        member.author_id

  unfoldable pub can_join_translation_group : Actor → List Resource → Bool
  unfolding can_edit
  can_join_translation_group actor members =
      if can_perform access create actor none then any (can_edit actor) members else false

  unfoldable pub permissions_for_document : Actor → Resource → DocumentPermissions
  unfolding can_write can_delete
  permissions_for_document actor resource =
      let allowed = λ (next : ContentStatus).
        can_write (record { next_status = next; current_status = some resource.status }) actor
          resource.author_id in
      record {
        update = allowed resource.status;
        delete = can_delete resource.status actor resource.author_id;
        statuses = filter allowed content_statuses;
      }

  unfoldable pub permissions_for_creation : Actor → CreationPermissions
  unfolding can_write
  permissions_for_creation actor = record {
    create = can_perform access create actor none;
    statuses =
        filter (λ next. can_write (record { next_status = next; current_status = none }) actor none)
          content_statuses;
  }
