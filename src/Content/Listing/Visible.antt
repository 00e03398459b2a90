-- ===== src/Content/Listing/Visible.antt =====
-- The listing's filter against the rule that guards one document.
use presslabz.Base.{◌≡◌, true, false, none, some, arith, Option-cases, inl, inr}
use presslabz.Access.Capability.{Capability, includes}
use presslabz.Access.Ownership.{Uuid, Actor, owns, allows}
use presslabz.Access.Policy.{
  AccessTable, Resource, read, update, can_perform, can_read_document, is_public_status,
}
use presslabz.Content.Rows.{ContentRow}
use presslabz.Content.Listing.{is_visible, visible_to}

abbrev pub resource_of : ContentRow → Resource
resource_of row = record { author_id = row.author_id; status = row.status }

module _ (access : AccessTable) (actor : Actor) (row : ContentRow) where
  -- Every document that an actor may open passes the filter of the listing made for them.
  pub can_read_document-is_visible :
      can_read_document access actor (resource_of row) ≡ true
      → is_visible (visible_to access actor) row ≡ true
  unfolding can_read_document is_visible visible_to can_perform allows owns
  can_read_document-is_visible h = elim (Option-cases actor.id) [
    | inl nobody ↦ elim (Option-cases (access update).own) [
      | inl o ↦ ground (arith, nobody, o, h)
      | inr (own, o) ↦ ground (arith, nobody, o, h)
    ]
    | inr (id, is_actor) ↦ elim (Option-cases (access update).own) [
      | inl o ↦ ground (arith, is_actor, o, h)
      | inr (own, o) ↦ elim (Option-cases row.author_id) [
        | inl a ↦ ground (arith, is_actor, o, a, h)
        | inr (author, a) ↦ ground (arith, is_actor, o, a, h)
      ]
    ]
  ]

  -- A listing shows only what its actor may open, if the actor may read and update their own
  -- documents.
  pub is_visible-can_read_document :
      (own : Capability)
      → can_perform access read actor none ≡ true
      → (access update).own ≡ some own
      → includes actor.capabilities own ≡ true
      → is_visible (visible_to access actor) row ≡ true
      → can_read_document access actor (resource_of row) ≡ true
  unfolding can_read_document is_visible visible_to can_perform allows owns
  is_visible-can_read_document own reads declared held h = elim (Option-cases actor.id) [
    | inl nobody ↦ ground (arith, nobody, declared, held, reads, h)
    | inr (id, is_actor) ↦ elim (Option-cases row.author_id) [
      | inl a ↦ ground (arith, is_actor, a, declared, held, reads, h)
      | inr (author, a) ↦ ground (arith, is_actor, a, declared, held, reads, h)
    ]
  ]

  -- An actor who may no longer update their own documents is still listed the ones that they
  -- wrote and that are not public, though each of them is refused when it is opened.
  pub is_visible-unreadable :
      (id : Uuid)
      → actor.id ≡ some id
      → row.author_id ≡ some id
      → is_public_status row.status ≡ false
      → can_perform access update actor (some id) ≡ false
      → (is_visible (visible_to access actor) row ≡ true)
        × (can_read_document access actor (resource_of row) ≡ false)
  unfolding can_read_document is_visible visible_to can_perform allows owns
  is_visible-unreadable id is_actor wrote hidden refused = elim (Option-cases (access update).own) [
    | inl o ↦ (
      ground (arith, is_actor, wrote, o, hidden, refused),
      ground (arith, is_actor, wrote, o, hidden, refused),
    )
    | inr (own, o) ↦ (
      ground (arith, is_actor, wrote, o, hidden, refused),
      ground (arith, is_actor, wrote, o, hidden, refused),
    )
  ]
