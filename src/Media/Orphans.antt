-- ===== src/Media/Orphans.antt =====
-- apps/api/src/media/orphans.ts, and `deleteMediaRow` and the orphan table of
-- packages/db/src/repositories/media.ts: the objects whose row is gone, kept on a list until the
-- store has removed them. The statements succeed; what the store answers is an argument.
pub mod Accounts
pub mod Tests
use presslabz.Base.{
  ℕ, suc, Bool, true, false, not, Option, none, some, List, [], ◌∷◌, ◌++◌, String, str_eq, ◌==◌,
  ltb, if◌then◌else◌, any, filter, find, take,
}
use presslabz.Access.Ownership.{Uuid}

-- The columns that the deletion and the sweep read; `renditions` holds the keys of
-- `meta.renditions`.
pub record MediaRow : Type 0 where
  pub id : Uuid
  pub storage_key : String
  pub renditions : List String

pub record MediaOrphanRow : Type 0 where
  pub storage_key : String
  pub media_id : Uuid
  pub attempts : ℕ
  pub last_error : Option String
  pub created_at : ℕ
  pub updated_at : ℕ

-- The two tables, and the keys of the objects in the store.
pub record Shelf : Type 0 where
  pub media : List MediaRow
  pub orphans : List MediaOrphanRow
  pub objects : List String

abbrev pub contains : String → List String → Bool
contains key keys = any (str_eq key) keys

-- The set keeps the first of equal keys.
unfoldable pub distinct : List String → List String
distinct [] = []
distinct (key ∷ keys) = key ∷ filter (λ k. not (str_eq key k)) (distinct keys)

unfoldable pub storage_keys_of : MediaRow → List String
unfolding distinct
storage_keys_of row = distinct (row.storage_key ∷ row.renditions)

abbrev pub is_listed : String → List MediaOrphanRow → Bool
is_listed key orphans = any (λ (o : MediaOrphanRow). str_eq key o.storage_key) orphans

abbrev orphan : Uuid → ℕ → String → MediaOrphanRow
orphan media_id now key = record {
  storage_key = key;
  media_id = media_id;
  attempts = 0;
  last_error = none;
  created_at = now;
  updated_at = now;
}

-- The insert does nothing for a key that is listed.
unfoldable pub record_orphans : Uuid → ℕ → List String → List MediaOrphanRow → List MediaOrphanRow
record_orphans media_id now [] orphans = orphans
record_orphans media_id now (key ∷ keys) orphans =
    record_orphans media_id now keys
      (if is_listed key orphans then orphans else orphans ++ orphan media_id now key ∷ [])

-- `id` is the primary key, so that at most one row has it.
unfoldable pub drop_row : Uuid → List MediaRow → List MediaRow
drop_row id [] = []
drop_row id (r ∷ rs) = let rest = drop_row id rs in if r.id == id then rs else r ∷ rest

pub data Deletion : Type 0 where
  absent : Deletion
  media_in_use : Deletion
  deleted : (row : MediaRow) → Deletion

-- `in_use` is the foreign key of `content_media`: the database refuses to remove a row that a
-- document names, and the transaction changes nothing.
unfoldable pub delete_media : (in_use : Uuid → Bool) → ℕ → Uuid → Shelf → Deletion × Shelf
unfolding drop_row storage_keys_of record_orphans
delete_media in_use now id shelf = elim (find (λ (r : MediaRow). r.id == id) shelf.media) [
  | none ↦ (absent, shelf)
  | some row ↦ if in_use id then (media_in_use, shelf) else (
    deleted row,
    record shelf {
      media = drop_row id shelf.media;
      orphans = record_orphans row.id now (storage_keys_of row) shelf.orphans;
    },
  )
]

-- The oldest first; `limit` is a number from 1 to 500, as the sweep gives it.
unfoldable pub insert_oldest : MediaOrphanRow → List MediaOrphanRow → List MediaOrphanRow
insert_oldest o [] = o ∷ []
insert_oldest o (x ∷ xs) =
    let rest = insert_oldest o xs in if ltb x.created_at o.created_at then x ∷ rest else o ∷ x ∷ xs

unfoldable pub oldest_first : List MediaOrphanRow → List MediaOrphanRow
unfolding insert_oldest
oldest_first [] = []
oldest_first (o ∷ os) = insert_oldest o (oldest_first os)

unfoldable pub list_orphans : ℕ → List MediaOrphanRow → List MediaOrphanRow
unfolding oldest_first
list_orphans limit orphans = take limit (oldest_first orphans)

abbrev pub forget_orphan : String → List MediaOrphanRow → List MediaOrphanRow
forget_orphan key orphans = filter (λ (o : MediaOrphanRow). not (str_eq key o.storage_key)) orphans

abbrev failed : ℕ → String → MediaOrphanRow → MediaOrphanRow
failed now reason o = record o {
  attempts = suc o.attempts;
  last_error = some reason;
  updated_at = now;
}

-- `reason` is the text already cut to 500 characters.
unfoldable pub record_orphan_failure :
    ℕ → String → String → List MediaOrphanRow → List MediaOrphanRow
record_orphan_failure now key reason [] = []
record_orphan_failure now key reason (o ∷ os) =
    (if str_eq key o.storage_key then failed now reason o else o)
    ∷ record_orphan_failure now key reason os

-- What the removal of one object comes to: the call returns or throws, and the object is gone or is
-- not. DeleteObjects of S3 can return and name in its result the keys that it did not remove, and
-- `deleteObjects` of apps/api/src/media/storage.ts does not read that result.
pub data Answer : Type 0 where
  returned : (gone : Bool) → Answer
  thrown : (reason : String) (gone : Bool) → Answer

abbrev pub without : String → List String → List String
without key objects = filter (λ k. not (str_eq key k)) objects

abbrev left : Bool → String → List String → List String
left true key objects = without key objects
left false key objects = objects

unfoldable pub sweep_one : ℕ → String → Answer → Shelf → Shelf
unfolding record_orphan_failure
sweep_one now key (returned gone) shelf = record shelf {
  objects = left gone key shelf.objects;
  orphans = forget_orphan key shelf.orphans;
}
sweep_one now key (thrown reason gone) shelf = record shelf {
  objects = left gone key shelf.objects;
  orphans = record_orphan_failure now key reason shelf.orphans;
}

abbrev counted : Answer → ℕ → ℕ
counted (returned _) n = suc n
counted (thrown _ _) n = n

unfoldable pub sweep_each : (String → Answer) → ℕ → List MediaOrphanRow → Shelf → ℕ × Shelf
unfolding sweep_one
sweep_each remove now [] shelf = (0, shelf)
sweep_each remove now (o ∷ os) shelf =
    let answer = remove o.storage_key in
    let (n, after) = sweep_each remove now os (sweep_one now o.storage_key answer shelf) in
    (counted answer n, after)

abbrev pub orphan_batch : ℕ
orphan_batch = 50

unfoldable pub sweep_orphans : (String → Answer) → ℕ → Shelf → ℕ × Shelf
unfolding sweep_each list_orphans
sweep_orphans remove now shelf =
    sweep_each remove now (list_orphans orphan_batch shelf.orphans) shelf

-- A deletion that a request asks for, and a pass of the sweep with what the store answers in it.
pub data Step : Type 0 where
  deletes : (in_use : Uuid → Bool) (now : ℕ) (id : Uuid) → Step
  sweeps : (remove : String → Answer) (now : ℕ) → Step

unfoldable pub step : Shelf → Step → Shelf
unfolding delete_media sweep_orphans
step shelf (deletes in_use now id) = (delete_media in_use now id shelf).1
step shelf (sweeps remove now) = (sweep_orphans remove now shelf).1

unfoldable pub run : Shelf → List Step → Shelf
unfolding step
run shelf [] = shelf
run shelf (s ∷ steps) = run (step shelf s) steps
