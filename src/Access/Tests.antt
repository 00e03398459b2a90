-- ===== src/Access/Tests.antt =====
-- The policy at concrete actors and types.
use mathlib.Core.Bool.{decide}
use presslabz.Base.{◌≡◌, refl, ◌↔◌, true, false, some, [], ◌∷◌}
use presslabz.Access.Capability.{
  content_update_own, author, capabilities_for, role_has_capability, includes,
}
use presslabz.Access.Ownership.{Actor, allows, owns}
use presslabz.Access.Policy.{
  draft, published, scheduled, default_access, update, can_perform, Resource, can_write,
}
use presslabz.Access.Registry.{
  ContentType, registry, both_claim, AllFresh, create_content_type_registry,
  create_content_type_registry_iff,
}

abbrev writer : Actor
writer = record { capabilities = capabilities_for author; id = some 7 }

abbrev contribution : Resource
contribution = record { author_id = some 7; status = draft }

abbrev foreign : Resource
foreign = record { author_id = some 8; status = published }

abbrev page : ContentType
page = record { name = "page"; hierarchical = true; base_path = ""; access = default_access }

abbrev post : ContentType
post = record { name = "post"; hierarchical = false; base_path = "blog"; access = default_access }

writer_publishes_own : can_perform default_access update writer (some 7) ≡ true
unfolding can_perform default_access allows owns includes capabilities_for decide
writer_publishes_own = refl

writer_leaves_others : can_perform default_access update writer (some 8) ≡ false
unfolding can_perform default_access allows owns includes capabilities_for decide
writer_leaves_others = refl

second_base_path_is_refused :
    create_content_type_registry (page ∷ record post { base_path = "" } ∷ [])
    ≡ both_claim "page" "post" ""
unfolding create_content_type_registry
second_base_path_is_refused = refl

author_updates_own : role_has_capability author content_update_own ≡ true
unfolding role_has_capability decide
author_updates_own = refl

writer_schedules :
    can_write default_access
      (record { next_status = scheduled; current_status = some draft })
      (record { capabilities = capabilities_for author; id = some 7 })
      (some 7)
    ≡ true
unfolding can_write default_access allows owns includes capabilities_for decide
writer_schedules = refl

create_content_type_registry_iff_example :
    (create_content_type_registry (page ∷ post ∷ []) ≡ registry (page ∷ post ∷ []))
    ↔ (AllFresh [] (page ∷ post ∷ []) × ((page ∷ post ∷ []) ≡ (page ∷ post ∷ [])))
create_content_type_registry_iff_example =
    create_content_type_registry_iff (page ∷ post ∷ []) (page ∷ post ∷ [])
