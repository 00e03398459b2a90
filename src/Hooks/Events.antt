-- ===== src/Hooks/Events.antt =====
-- packages/core/src/hooks.events.ts: what a write of content announces.
use presslabz.Base.{
  ℕ, ◌≡◌, refl, Bool, true, false, not, ◌&&◌, Option, List, [], ◌∷◌, ◌++◌, String, In, here, there,
  In-append, inl, inr, ap,
}
use presslabz.Access.Ownership.{Uuid}
use presslabz.Access.Policy.{ContentStatus, published}
use presslabz.Content.Rows.{ContentRow}

pub record ContentEvent : Type 0 where
  pub id : Uuid
  pub type : String
  pub locale : String
  pub translation_group_id : Uuid
  pub slug : String
  pub title : String
  pub status : ContentStatus
  pub published_at : Option ℕ
  pub author_id : Option Uuid

pub record ContentTransition : Type 0 where
  pub event : ContentEvent
  pub previous_status : ContentStatus

-- The content actions of `CoreActions`.
pub data ContentAction : Type 0 where
  content_created content_updated content_published content_unpublished content_deleted :
      ContentAction

abbrev pub content_event_of : ContentRow → ContentEvent
content_event_of row = record {
  id = row.id;
  type = row.type;
  locale = row.locale;
  translation_group_id = row.translation_group_id;
  slug = row.slug;
  title = row.title;
  status = row.status;
  published_at = row.published_at;
  author_id = row.author_id;
}

abbrev is_published : ContentStatus → Bool
is_published published = true
is_published _ = false

-- `if (test) announcements.push(a)`
abbrev push_if : Bool → ContentAction × ContentTransition → List (ContentAction × ContentTransition)
push_if true a = a ∷ []
push_if false a = []

abbrev pub transitions_for : ContentStatus → ContentEvent → List (ContentAction × ContentTransition)
transitions_for previous_status event =
    let payload : ContentTransition = record { event = event; previous_status = previous_status } in
    let was_public = is_published previous_status in
    let is_public = is_published event.status in
    (content_updated, payload)
    ∷ (push_if (not was_public && is_public) (content_published, payload)
        ++ push_if (was_public && not is_public) (content_unpublished, payload))

In-push_if : (b : Bool) (a x : ContentAction × ContentTransition) → In x (push_if b a) → x ≡ a
In-push_if true a x here = refl
In-push_if true a x (there m) = elim m [ ]
In-push_if false a x m = elim m [ ]

-- Every announcement of an update carries the document as the update left it.
pub transitions_for-event :
    (previous : ContentStatus) (event : ContentEvent) (name : ContentAction)
    (payload : ContentTransition)
    → In (name, payload) (transitions_for previous event)
    → payload.event ≡ event
transitions_for-event previous event name payload here = refl
transitions_for-event previous event name payload (there m) =
    let was = is_published previous in
    let now = is_published event.status in
    let told : ContentTransition = record { event = event; previous_status = previous } in
    elim (In-append (push_if (not was && now) (content_published, told)) m) [
      | inl n ↦
          ap (λ (x : ContentAction × ContentTransition). x.1.event)
            (In-push_if (not was && now) (content_published, told) (name, payload) n)
      | inr n ↦
          ap (λ (x : ContentAction × ContentTransition). x.1.event)
            (In-push_if (was && not now) (content_unpublished, told) (name, payload) n)
    ]
