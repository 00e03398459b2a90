-- ===== src/Access/Ownership.antt =====
-- packages/core/src/access.ts, and the part of packages/core/src/media.ts that decides about
-- assets. An id is a number: ids are only ever compared. An owner that is `undefined` and one
-- that is `null` are one value, `none`, since `ownerId != null` does not tell them apart.
use presslabz.Base.{
  ℕ, ◌≡◌, refl, ◌↔◌, ◌⊎◌, inl, inr, Bool, true, false, Option, none, some, List, arith, ◌==◌,
  if◌then◌else◌, Bool-cases,
}
use presslabz.Access.Capability.{
  Capability, includes, media_read, media_upload, media_update_any, media_update_own,
  media_delete_any,
}

abbrev pub Uuid : Type 0
Uuid = ℕ

pub record Actor : Type 0 where
  pub capabilities : List Capability
  pub id : Option Uuid

pub record OperationAccess : Type 0 where
  pub everywhere : Capability
  pub own : Option Capability

-- `actor.id !== null && ownerId != null && actor.id === ownerId`
unfoldable pub owns : Option Uuid → Option Uuid → Bool
owns none owner = false
owns (some id) none = false
owns (some id) (some owner) = id == owner

abbrev own_allows : Option Capability → Actor → Option Uuid → Bool
own_allows none actor owner = false
own_allows (some own) actor owner =
    if includes actor.capabilities own then owns actor.id owner else false

unfoldable pub allows : OperationAccess → Actor → Option Uuid → Bool
unfolding owns
allows access actor owner =
    if includes actor.capabilities access.everywhere
    then true
    else own_allows access.own actor owner

-- The ownership rule, as it is meant: the capability for any row, or that for the actor's own
-- rows and a row that somebody owns who is the actor.
abbrev pub Allowed : OperationAccess → Actor → Option Uuid → Type 0
Allowed access actor owner =
    (includes actor.capabilities access.everywhere ≡ true)
    ⊎ ((own : Capability) × (id : Uuid) × (access.own ≡ some own)
        × (includes actor.capabilities own ≡ true)
        × (actor.id ≡ some id)
        × (owner ≡ some id))

owns-eq-some : (a b : Option Uuid) → owns a b ≡ true → (id : Uuid) × (a ≡ some id) × (b ≡ some id)
unfolding owns
owns-eq-some (some a) (some b) h = (a, refl, ground arith)
owns-eq-some none b h = cc
owns-eq-some (some a) none h = cc

own_allows_sound :
    (o : Option Capability) (actor : Actor) (owner : Option Uuid)
    → own_allows o actor owner ≡ true
    → (own : Capability) × (id : Uuid) × (o ≡ some own)
      × (includes actor.capabilities own ≡ true)
      × (actor.id ≡ some id)
      × (owner ≡ some id)
own_allows_sound none actor owner h = absurd (cc)
own_allows_sound (some own) actor owner h =
    let held : includes actor.capabilities own ≡ true = ground arith in
    let (id, e, e') = owns-eq-some actor.id owner (rw held at h) in (own, id, refl, held, e, e')

allows_sound :
    (access : OperationAccess) (actor : Actor) (owner : Option Uuid)
    → allows access actor owner ≡ true
    → Allowed access actor owner
unfolding allows
allows_sound access actor owner h =
    elim (Bool-cases (includes actor.capabilities access.everywhere)) [
      | inl e ↦ inl e
      | inr e ↦ inr (own_allows_sound access.own actor owner (rw e at h))
    ]

allows_complete :
    (access : OperationAccess) (actor : Actor) (owner : Option Uuid)
    → Allowed access actor owner
    → allows access actor owner ≡ true
unfolding allows
allows_complete access actor owner (inl e) = rw e
allows_complete access actor owner (inr (own, id, e₁, e₂, e₃, e₄)) =
    rw (e₁, e₂, e₃, e₄) (ground arith)

-- An operation is allowed exactly by the ownership rule: an anonymous actor owns nothing, and
-- nobody owns a row whose owner is gone.
pub allows_iff :
    (access : OperationAccess) (actor : Actor) (owner : Option Uuid)
    → (allows access actor owner ≡ true) ↔ Allowed access actor owner
allows_iff access actor owner =
    (allows_sound access actor owner, allows_complete access actor owner)

-- packages/core/src/media.ts
pub data MediaOperation : Type 0 where
  read upload update delete : MediaOperation

abbrev pub media_access : MediaOperation → OperationAccess
media_access read = record { everywhere = media_read; own = none }
media_access upload = record { everywhere = media_upload; own = none }
media_access update = record { everywhere = media_update_any; own = some media_update_own }
media_access delete = record { everywhere = media_delete_any; own = none }

unfoldable pub can_perform_on_media : MediaOperation → Actor → Option Uuid → Bool
unfolding allows
can_perform_on_media operation actor uploaded_by_id =
    allows (media_access operation) actor uploaded_by_id

unfoldable pub can_edit_media : Actor → Option Uuid → Bool
unfolding can_perform_on_media
can_edit_media actor uploaded_by_id = can_perform_on_media update actor uploaded_by_id
