-- ===== src/Access/Roles.antt =====
-- packages/core/src/capabilities.ts with the default policy of packages/core/src/content-types.ts:
-- what a role lets somebody do to a document.
use mathlib.Core.Bool.{decide, false≢true}
use presslabz.Base.{
  ℕ, zero, suc, ◌-◌, ◌≤◌, ◌⊎◌, ◌≡◌, refl, inl, inr, true, Option, some, List, [], ◌∷◌, ◌++◌, arith,
  Bool-cases,
}
use presslabz.Access.Capability.{
  Capability, content_publish, content_update_any, Role, subscriber, contributor, author, editor,
  administrator, includes, capabilities_for, role_has_capability, Capability-discrete,
  subscriber_capabilities, contributor_capabilities, author_capabilities, editor_capabilities,
}
use presslabz.Access.Ownership.{Uuid, Actor, allows_iff}
use presslabz.Access.Policy.{ContentStatus, update, publish, default_access, can_perform, can_write}
use presslabz.Access.Publishing.{TouchesPublic, can_write_iff}

abbrev pub rank : Role → ℕ
rank subscriber = 0
rank contributor = 1
rank author = 2
rank editor = 3
rank administrator = 4

includes-append :
    (xs ys : List Capability) (c : Capability) → includes xs c ≡ true → includes (xs ++ ys) c ≡ true
unfolding includes
includes-append [] ys c h = cc
includes-append (x ∷ xs) ys c h = elim (Bool-cases (decide (Capability-discrete x c))) [
  | inl e ↦ rw e
  | inr e ↦ ground (arith, includes-append xs ys c)
]

abbrev next_role : Role → Role
next_role subscriber = contributor
next_role contributor = author
next_role author = editor
next_role _ = administrator

next_role_keeps :
    (r : Role) (c : Capability)
    → includes (capabilities_for r) c ≡ true
    → includes (capabilities_for (next_role r)) c ≡ true
unfolding capabilities_for
next_role_keeps subscriber c h = includes-append subscriber_capabilities _ c h
next_role_keeps contributor c h = includes-append contributor_capabilities _ c h
next_role_keeps author c h = includes-append author_capabilities _ c h
next_role_keeps editor c h = includes-append editor_capabilities _ c h
next_role_keeps administrator c h = h

abbrev climb : ℕ → Role → Role
climb zero r = r
climb (suc k) r = next_role (climb k r)

climb_keeps :
    (k : ℕ) (r : Role) (c : Capability)
    → includes (capabilities_for r) c ≡ true
    → includes (capabilities_for (climb k r)) c ≡ true
climb_keeps zero r c h = h
climb_keeps (suc k) r c h = next_role_keeps (climb k r) c (climb_keeps k r c h)

climb_reaches :
    (lower higher : Role)
    → rank lower ≤ rank higher
    → climb (rank higher - rank lower) lower ≡ higher
climb_reaches subscriber subscriber p = refl
climb_reaches contributor subscriber p = absurd (omega arith)
climb_reaches author subscriber p = absurd (omega arith)
climb_reaches author contributor p = absurd (omega arith)
climb_reaches editor subscriber p = absurd (omega arith)
climb_reaches editor contributor p = absurd (omega arith)
climb_reaches editor author p = absurd (omega arith)
climb_reaches administrator subscriber p = absurd (omega arith)
climb_reaches administrator contributor p = absurd (omega arith)
climb_reaches administrator author p = absurd (omega arith)
climb_reaches administrator editor p = absurd (omega arith)
climb_reaches _ _ p = refl

-- A higher role holds every capability that a lower one holds.
pub role_hierarchy :
    (lower higher : Role) (c : Capability)
    → rank lower ≤ rank higher
    → role_has_capability lower c ≡ true
    → role_has_capability higher c ≡ true
role_hierarchy lower higher c p h =
    let kept : includes (capabilities_for (climb (rank higher - rank lower) lower)) c ≡ true =
      climb_keeps (rank higher - rank lower) lower c (unfold role_has_capability in h) in
    unfold role_has_capability in (rw (climb_reaches lower higher p) at kept)

publish_rank :
    (role : Role) → includes (capabilities_for role) content_publish ≡ true → 2 ≤ rank role
unfolding capabilities_for includes decide
publish_rank subscriber h = absurd (false≢true h)
publish_rank contributor h = absurd (false≢true h)
publish_rank _ h = omega arith

update_any_rank :
    (role : Role) → includes (capabilities_for role) content_update_any ≡ true → 3 ≤ rank role
unfolding capabilities_for includes decide
update_any_rank subscriber h = absurd (false≢true h)
update_any_rank contributor h = absurd (false≢true h)
update_any_rank author h = absurd (false≢true h)
update_any_rank _ h = omega arith

module _ (role : Role) (id author_id : Option Uuid) where
  abbrev actor_of : Actor
  actor_of = record { capabilities = capabilities_for role; id = id }

  publish_of_role : can_perform default_access publish actor_of author_id ≡ true → 2 ≤ rank role
  unfolding can_perform default_access
  publish_of_role h = elim ((allows_iff (default_access publish) actor_of author_id).0 h) [
    | inl e ↦ publish_rank role e
    | inr (own, i, e, held, mine, theirs) ↦ absurd (ground (arith, e))
  ]

  update_of_role :
      can_perform default_access update actor_of author_id ≡ true
      → (3 ≤ rank role) ⊎ ((i : Uuid) × (id ≡ some i) × (author_id ≡ some i))
  unfolding can_perform default_access
  update_of_role h = elim ((allows_iff (default_access update) actor_of author_id).0 h) [
    | inl e ↦ inl (update_any_rank role e)
    | inr (own, i, e, held, mine, theirs) ↦ inr (i, mine, theirs)
  ]

  -- Under the default policy a saved change to an existing document was made by an editor or
  -- above or by the document's own author; and if the document was published or scheduled, or is
  -- now, by an author or above.
  pub write_of_role :
      (current next : ContentStatus)
      → can_write default_access
          (record { next_status = next; current_status = some current })
          actor_of
          author_id
        ≡ true
      → ((3 ≤ rank role) ⊎ ((i : Uuid) × (id ≡ some i) × (author_id ≡ some i)))
        × (TouchesPublic next (some current) → 2 ≤ rank role)
  write_of_role current next h =
      let (updates, publishes) =
        (can_write_iff default_access actor_of author_id next (some current)).0 h in
      (update_of_role updates, λ t. publish_of_role (publishes t))
