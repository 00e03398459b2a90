-- ===== src/Cache/Invalidation.antt =====
-- packages/modules/src/cache-invalidation.ts: the handlers that purge the cache when content or an
-- asset changes, on what a write announces. The ids of the model are numbers, spelt by `spell`.
use Prim.Native.String.{◌++◌ as text_append}
use presslabz.Base.{ℕ, Option, none, some, List, [], ◌∷◌, ◌++◌, String}
use presslabz.Access.Ownership.{Uuid}
use presslabz.Access.Policy.{ContentStatus}
use presslabz.Hooks.Events.{ContentEvent, ContentTransition, ContentAction, transitions_for}
use presslabz.Cache.Valkey.{Valkey}
use presslabz.Cache.Tags.{content_tag, content_list_tag, translation_group_tag, media_tag}
use presslabz.Cache.Store.{Json, PageCacheOptions, purge_tags}

abbrev three : Option String → Option String → Option String → Option (List String)
three (some a) (some b) (some c) = some (a ∷ b ∷ c ∷ [])
three _ _ _ = none

abbrev tail_of {ℓ} : {A : Type ℓ} → List A → List A
tail_of [] = []
tail_of (x ∷ xs) = xs

-- What `transitionsFor` announces behind `content:updated`.
abbrev announced_changes : ContentStatus → ContentEvent → List (ContentAction × ContentTransition)
announced_changes previous event = tail_of (transitions_for previous event)

-- The tags of a content event; `none` is the error of `assertTag`.
unfoldable pub event_tags : (Uuid → String) → ContentEvent → Option (List String)
unfolding content_tag content_list_tag translation_group_tag
event_tags spell event =
    three (content_tag (spell event.id)) (content_list_tag event.type event.locale)
      (translation_group_tag (spell event.translation_group_id))

module _ (valkey : Valkey) (json : Json) (options : PageCacheOptions) (spell : Uuid → String) where
  open valkey use {Server, now}

  abbrev pub purge_or_fail : Option (List String) → Server → Option ℕ × Server
  purge_or_fail none s = (none, s)
  purge_or_fail (some tags) s = purge_tags valkey json options tags s

  unfoldable pub purge_content : ContentEvent → Server → Option ℕ × Server
  unfolding event_tags
  purge_content event s = purge_or_fail (event_tags spell event) s

  abbrev one : Option String → Option (List String)
  one none = none
  one (some a) = some (a ∷ [])

  unfoldable pub purge_media : Uuid → Server → Option ℕ × Server
  unfolding media_tag
  purge_media id s = purge_or_fail (one (media_tag (spell id))) s

  -- Each announcement is told in turn, and every content action is registered for.
  unfoldable pub announce : List (ContentAction × ContentTransition) → Server → Server
  unfolding purge_content
  announce [] s = s
  announce ((name, payload) ∷ rest) s = announce rest ((purge_content payload.event s).1)
