-- ===== src/Media/Orphans/Tests.antt =====
-- The deletion and the sweep at concrete tables: an asset with two objects, of which the store
-- removes one.
use presslabz.Base.{
  ℕ, ◌≡◌, ◌⊎◌, refl, inl, true, false, List, [], ◌∷◌, All-In, In, here, String, str_eq,
  if◌then◌else◌, map,
}
use presslabz.Media.Orphans.{
  MediaRow, MediaOrphanRow, Shelf, storage_keys_of, is_listed, Answer, returned, thrown,
  delete_media, media_in_use, Step, deletes, sweeps, run,
}
use presslabz.Media.Orphans.Accounts.{is_owned, IsAccounted, IsMistaken, run-IsAccounted}

abbrev photo : MediaRow
photo = record { id = 7; storage_key = "large"; renditions = "large" ∷ "small" ∷ [] }

abbrev shelf : Shelf
shelf = record { media = photo ∷ []; orphans = []; objects = "large" ∷ "small" ∷ [] }

abbrev answer_of : String → Answer
answer_of key = if str_eq key "large" then returned true else thrown "denied" false

abbrev steps : List Step
steps = deletes (λ id. false) 10 7 ∷ sweeps answer_of 20 ∷ []

one_object_is_left : (run shelf steps).objects ≡ "small" ∷ []
unfolding run
one_object_is_left = refl

abbrev attempts_of : MediaOrphanRow → String × ℕ
attempts_of o = (o.storage_key, o.attempts)

still_there : In "small" (run shelf steps).objects
unfolding run
still_there = here

it_stays_on_the_list : map attempts_of (run shelf steps).orphans ≡ ("small", 1) ∷ []
unfolding run
it_stays_on_the_list = refl

a_document_keeps_its_asset : delete_media (λ id. true) 10 7 shelf ≡ (media_in_use, shelf)
unfolding delete_media
a_document_keeps_its_asset = refl

-- A removal that returns without removing takes the object off the list.
a_silent_refusal_is_forgotten :
    (run shelf (deletes (λ id. false) 10 7 ∷ sweeps (λ key. returned false) 20 ∷ [])).orphans ≡ []
unfolding run
a_silent_refusal_is_forgotten = refl

owns_large : is_owned "large" shelf.media ≡ true
unfolding storage_keys_of
owns_large = refl

owns_small : is_owned "small" shelf.media ≡ true
unfolding storage_keys_of
owns_small = refl

shelf-IsAccounted : IsAccounted shelf
shelf-IsAccounted = λ key m.
    All-In (λ k. (is_owned k shelf.media ≡ true) ⊎ (is_listed k shelf.orphans ≡ true)) shelf.objects
      (inl owns_large, (inl owns_small, tt)) m

run-IsAccounted_example :
    (is_owned "small" (run shelf steps).media ≡ true)
    ⊎ ((is_listed "small" (run shelf steps).orphans ≡ true) ⊎ IsMistaken "small" steps)
run-IsAccounted_example = run-IsAccounted steps shelf shelf-IsAccounted "small" still_there
