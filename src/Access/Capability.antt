-- ===== src/Access/Capability.antt =====
-- packages/core/src/capabilities.ts
use mathlib.Core.Bool.{decide}
use presslabz.Base.{Bool, List, [], ◌∷◌, ◌++◌, any}

pub data Capability : Type 0 where
  content_read content_create content_update_own content_update_any : Capability
  content_delete_own content_delete_any content_publish : Capability
  media_read media_upload media_update_own media_update_any media_delete_any : Capability
  terms_manage users_read users_manage settings_manage plugins_manage : Capability

unfoldable pub Capability-discrete : Discrete Capability
Capability-discrete = hlevel

pub data Role : Type 0 where
  subscriber contributor author editor administrator : Role

-- `includes` and `has`: a read-only set of capabilities is a list that is only searched.
unfoldable pub includes : List Capability → Capability → Bool
unfolding Capability-discrete
includes xs c = any (λ x. decide (Capability-discrete x c)) xs

abbrev pub subscriber_capabilities : List Capability
subscriber_capabilities = content_read ∷ media_read ∷ []

abbrev pub contributor_capabilities : List Capability
contributor_capabilities =
    subscriber_capabilities ++ content_create ∷ content_update_own ∷ content_delete_own ∷ []

abbrev pub author_capabilities : List Capability
author_capabilities =
    contributor_capabilities ++ content_publish ∷ media_upload ∷ media_update_own ∷ []

abbrev pub editor_capabilities : List Capability
editor_capabilities =
    author_capabilities
    ++ content_update_any ∷ content_delete_any ∷ media_update_any ∷ media_delete_any ∷ terms_manage
      ∷ users_read ∷ []

abbrev pub administrator_capabilities : List Capability
administrator_capabilities =
    editor_capabilities ++ users_manage ∷ settings_manage ∷ plugins_manage ∷ []

unfoldable pub capabilities_for : Role → List Capability
capabilities_for subscriber = subscriber_capabilities
capabilities_for contributor = contributor_capabilities
capabilities_for author = author_capabilities
capabilities_for editor = editor_capabilities
capabilities_for administrator = administrator_capabilities

unfoldable pub role_has_capability : Role → Capability → Bool
unfolding capabilities_for includes
role_has_capability role c = includes (capabilities_for role) c
