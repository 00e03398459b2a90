-- ===== src/Access/Publishing.antt =====
-- packages/core/src/content-types.ts: what a write, a removal or a translation costs.
use presslabz.Base.{
  ◌≡◌, refl, ◌↔◌, ◌⊎◌, inl, inr, Bool, true, false, ◌&&◌, ◌||◌, Option, none, some, List, [], ◌∷◌,
  arith, all, filter, if◌then◌else◌, Bool-cases, In, here, there, In-filter, filter-In, any-In,
  In-any,
}
use presslabz.Access.Ownership.{Uuid, Actor}
use presslabz.Access.Policy.{
  ContentStatus, draft, scheduled, published, archived, trash, content_statuses, is_publishable,
  create, delete, publish, AccessTable, Resource, can_perform, can_write, can_delete, can_edit,
  was_publishable, can_join_translation_group, permissions_for_document, base_operation,
}

-- A status that is on the site, or will be with no further act.
abbrev pub Publishable : ContentStatus → Type 0
Publishable status = (status ≡ published) ⊎ (status ≡ scheduled)

abbrev pub TouchesPublic : ContentStatus → Option ContentStatus → Type 0
TouchesPublic next current =
    Publishable next ⊎ ((now : ContentStatus) × (current ≡ some now) × Publishable now)

is_publishable_iff : (s : ContentStatus) → (is_publishable s ≡ true) ↔ Publishable s
unfolding is_publishable
is_publishable_iff draft = (λ h. ground arith, λ h. ground arith)
is_publishable_iff scheduled = (λ h. ground arith, λ h. ground arith)
is_publishable_iff published = (λ h. ground arith, λ h. ground arith)
is_publishable_iff archived = (λ h. ground arith, λ h. ground arith)
is_publishable_iff trash = (λ h. ground arith, λ h. ground arith)

touches_iff :
    (next : ContentStatus) (current : Option ContentStatus)
    → (is_publishable next || was_publishable current ≡ true) ↔ TouchesPublic next current
touches_iff next none = (
  (λ h. inl ((is_publishable_iff next).0 (ground arith))),
  λ h. elim h [ inl p ↦ ground (arith, (is_publishable_iff next).1 p) | inr (now, e, p) ↦ cc ],
)
touches_iff next (some now) = (
  (λ h. elim (Bool-cases (is_publishable next)) [
    | inl e ↦ inl ((is_publishable_iff next).0 e)
    | inr e ↦ inr (now, refl, (is_publishable_iff now).0 (ground arith))
  ]),
  λ h. elim h [
    | inl p ↦ ground (arith, (is_publishable_iff next).1 p)
    | inr (status, e, p) ↦ ground (arith, (is_publishable_iff status).1 p)
  ],
)

-- Of two questions the second is asked only if `touches`.
both_iff :
    (touches first second : Bool) {T : Type 0}
    → ((touches ≡ true) ↔ T)
    → ((if touches then first && (second && true) else first && true) ≡ true)
      ↔ ((first ≡ true) × (T → second ≡ true))
both_iff true true true e = (λ h. (refl, λ t. refl), λ h. refl)
both_iff true true false e = (λ h. cc, λ h. h.1 (e.0 refl))
both_iff true false second e = (λ h. cc, λ h. h.0)
both_iff false true second e = (λ h. (refl, λ t. absurd (ground (arith, e.1 t))), λ h. refl)
both_iff false false second e = (λ h. cc, λ h. h.0)

all_if :
    {A : Type 0} (p : A → Bool) (b : Bool) (x y : A)
    → all p (if b then x ∷ y ∷ [] else x ∷ []) ≡ (if b then p x && (p y && true) else p x && true)
all_if p true x y = refl
all_if p false x y = refl

module _ (access : AccessTable) (actor : Actor) (author : Option Uuid) where
  -- A write is allowed exactly when its own operation is, creation or update, and, if the
  -- document is publishable before or after it, publishing is allowed too.
  pub can_write_iff :
      (next : ContentStatus) (current : Option ContentStatus)
      → (can_write access (record { next_status = next; current_status = current }) actor author
          ≡ true)
        ↔ ((can_perform access (base_operation current) actor author ≡ true)
            × (TouchesPublic next current → can_perform access publish actor author ≡ true))
  unfolding can_write
  can_write_iff next current = rw all_if (
      both_iff (is_publishable next || was_publishable current)
        (can_perform access (base_operation current) actor author)
        (can_perform access publish actor author) (touches_iff next current))

  -- A removal is allowed exactly when deleting is and, for a publishable document, publishing.
  pub can_delete_iff :
      (status : ContentStatus)
      → (can_delete access status actor author ≡ true) ↔ (
          (can_perform access delete actor author ≡ true)
          × (Publishable status → can_perform access publish actor author ≡ true))
  unfolding can_delete
  can_delete_iff status = rw all_if (
      both_iff (is_publishable status) (can_perform access delete actor author)
        (can_perform access publish actor author) (is_publishable_iff status))

-- A translation group may be joined exactly by an actor who may create such documents and who
-- could save at least one of its members as that member stands now.
pub can_join_iff :
    (access : AccessTable) (actor : Actor) (members : List Resource)
    → (can_join_translation_group access actor members ≡ true) ↔ (
        (can_perform access create actor none ≡ true)
        × ((m : Resource) × In m members × (can_edit access actor m ≡ true)))
unfolding can_join_translation_group
can_join_iff access actor members = (
  (λ h.
      let may : can_perform access create actor none ≡ true = ground arith in
      (may, any-In (can_edit access actor) members (rw may at h))),
  λ (may, (m, at, e)). rw may (In-any (can_edit access actor) at e),
)

In-content_statuses : (s : ContentStatus) → In s content_statuses
In-content_statuses draft = here
In-content_statuses scheduled = there here
In-content_statuses published = there (there here)
In-content_statuses archived = there (there (there here))
In-content_statuses trash = there (there (there (there here)))

offered_iff :
    (p : ContentStatus → Bool) (s : ContentStatus) → In s (filter p content_statuses) ↔ (p s ≡ true)
offered_iff p s = (λ m. (In-filter p content_statuses m).1, filter-In p (In-content_statuses s))

-- The statuses that the interface offers are exactly those to which a write would be allowed,
-- and it offers to edit exactly when the status that the document has is one of them.
pub permissions_agree :
    (access : AccessTable) (actor : Actor) (resource : Resource) (next : ContentStatus)
    → (In next (permissions_for_document access actor resource).statuses ↔ (
        can_write access
          (record { next_status = next; current_status = some resource.status })
          actor
          resource.author_id
        ≡ true))
      × (((permissions_for_document access actor resource).update ≡ true)
          ↔ In resource.status (permissions_for_document access actor resource).statuses)
unfolding permissions_for_document
permissions_agree access actor resource next =
    let p = λ (s : ContentStatus).
      can_write access (record { next_status = s; current_status = some resource.status }) actor
        resource.author_id in
    let own = offered_iff p resource.status in (offered_iff p next, (own.1, own.0))
