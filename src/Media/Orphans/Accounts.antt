-- ===== src/Media/Orphans/Accounts.antt =====
-- apps/api/src/media/orphans.ts: no object is left without a row and off the list.
use presslabz.Base.{
  ℕ, ◌≡◌, ◌⊎◌, refl, sym, subst, inl, inr, Bool, true, false, not, some, List, [], ◌∷◌, ◌++◌, In,
  here, String, str_eq, str_eq_refl, str_eq_eq, ◌==◌, any, find, In-filter, filter-In, any-In,
  In-any, In-append_right, Bool-cases, Option-cases, arith,
}
use presslabz.Access.Ownership.{Uuid}
use presslabz.Media.Orphans.{
  MediaRow, MediaOrphanRow, Shelf, contains, storage_keys_of, is_listed, record_orphans, drop_row,
  delete_media, list_orphans, orphan_batch, forget_orphan, record_orphan_failure, Answer, returned,
  thrown, without, sweep_one, sweep_each, sweep_orphans, Step, deletes, sweeps, step, run,
}

abbrev pub is_owned : String → List MediaRow → Bool
is_owned key media = any (λ (r : MediaRow). contains key (storage_keys_of r)) media

-- Every object in the store belongs to a row or is on the list, or is one of those that `P` holds
-- of.
abbrev IsAccountedBut : (String → Type 0) → Shelf → Type 0
IsAccountedBut P shelf =
    (key : String)
    → In key shelf.objects
    → (is_owned key shelf.media ≡ true) ⊎ ((is_listed key shelf.orphans ≡ true) ⊎ P key)

-- Every object in the store belongs to a row or is on the list.
abbrev pub IsAccounted : Shelf → Type 0
IsAccounted shelf =
    (key : String)
    → In key shelf.objects
    → (is_owned key shelf.media ≡ true) ⊎ (is_listed key shelf.orphans ≡ true)

-- In some pass the call that was to remove the object would return and leave it in the store.
abbrev pub IsMistaken : String → List Step → Type 0
IsMistaken key [] = ⊥
IsMistaken key (deletes _ _ _ ∷ steps) = IsMistaken key steps
IsMistaken key (sweeps remove _ ∷ steps) = (remove key ≡ returned false) ⊎ IsMistaken key steps

is_listed-append :
    (key : String) (os ps : List MediaOrphanRow)
    → is_listed key os ≡ true
    → is_listed key (os ++ ps) ≡ true
is_listed-append key [] ps h = absurd (cc)
is_listed-append key (o ∷ os) ps h = ground (arith, is_listed-append key os ps)

is_listed-record :
    (media_id : Uuid) (now : ℕ) (key : String) (keys : List String) (os : List MediaOrphanRow)
    → is_listed key os ≡ true
    → is_listed key (record_orphans media_id now keys os) ≡ true
unfolding record_orphans
is_listed-record media_id now key [] os h = h
is_listed-record media_id now key (k ∷ keys) os h = elim (Bool-cases (is_listed k os)) [
  | inl e ↦ rw e (is_listed-record media_id now key keys os h)
  | inr e ↦ rw e (is_listed-record media_id now key keys _ (is_listed-append key os _ h))
]

is_listed-last :
    (key : String) (o : MediaOrphanRow) (os : List MediaOrphanRow)
    → key ≡ o.storage_key
    → is_listed key (os ++ o ∷ []) ≡ true
is_listed-last key o os e =
    In-any (λ (p : MediaOrphanRow). str_eq key p.storage_key) (In-append_right os here)
      (rw (sym e) (str_eq_refl key))

record_orphans-listed :
    (media_id : Uuid) (now : ℕ) (key : String) (keys : List String) (os : List MediaOrphanRow)
    → contains key keys ≡ true
    → is_listed key (record_orphans media_id now keys os) ≡ true
unfolding record_orphans
record_orphans-listed media_id now key [] os h = absurd (cc)
record_orphans-listed media_id now key (k ∷ keys) os h = elim (Bool-cases (str_eq key k)) [
  | inr e ↦ record_orphans-listed media_id now key keys _ (ground (arith, e, h))
  | inl e ↦
      let same : key ≡ k = str_eq_eq key k e in
      elim (Bool-cases (is_listed k os)) [
        | inl l ↦ rw l (is_listed-record media_id now key keys os (rw same l))
        | inr l ↦ rw l (is_listed-record media_id now key keys _ (is_listed-last key _ os same))
      ]
]

is_owned-drop :
    (id : Uuid) (key : String) (row : MediaRow) (media : List MediaRow)
    → find (λ (r : MediaRow). r.id == id) media ≡ some row
    → is_owned key media ≡ true
    → (contains key (storage_keys_of row) ≡ true) ⊎ (is_owned key (drop_row id media) ≡ true)
unfolding drop_row
is_owned-drop id key row [] e h = absurd (cc)
is_owned-drop id key row (r ∷ rs) e h = elim (Bool-cases (r.id == id)) [
  | inl t ↦
      let same : some r ≡ some row = rw t at e in
      let eq : r ≡ row = cc in
      elim (Bool-cases (contains key (storage_keys_of r))) [
        | inl c ↦ inl (rw (sym eq) c)
        | inr c ↦ inr (rw t (rw c at h))
      ]
  | inr t ↦ elim (Bool-cases (contains key (storage_keys_of r))) [
    | inl c ↦ inr (rw (t, c) refl)
    | inr c ↦ elim (is_owned-drop id key row rs (rw t at e) (rw c at h)) [
      | inl a ↦ inl a
      | inr b ↦ inr (rw (t, c) b)
    ]
  ]
]

deleted_row-IsAccounted :
    (P : String → Type 0) (now : ℕ) (id : Uuid) (row : MediaRow) (shelf : Shelf)
    → find (λ (r : MediaRow). r.id == id) shelf.media ≡ some row
    → IsAccountedBut P shelf
    → IsAccountedBut P record shelf {
      media = drop_row id shelf.media;
      orphans = record_orphans row.id now (storage_keys_of row) shelf.orphans;
    }
deleted_row-IsAccounted P now id row shelf e h = λ key m.
    let keys = storage_keys_of row in
    elim (h key m) [
      | inr (inr q) ↦ inr (inr q)
      | inr (inl l) ↦ inr (inl (is_listed-record row.id now key keys shelf.orphans l))
      | inl o ↦ elim (is_owned-drop id key row shelf.media e o) [
        | inl c ↦ inr (inl (record_orphans-listed row.id now key keys shelf.orphans c))
        | inr k ↦ inl k
      ]
    ]

delete_media-cases :
    (in_use : Uuid → Bool) (now : ℕ) (id : Uuid) (shelf : Shelf)
    → ((delete_media in_use now id shelf).1 ≡ shelf)
      ⊎ ((row : MediaRow) × (find (λ (r : MediaRow). r.id == id) shelf.media ≡ some row)
          × ((delete_media in_use now id shelf).1 ≡ record shelf {
            media = drop_row id shelf.media;
            orphans = record_orphans row.id now (storage_keys_of row) shelf.orphans;
          }))
unfolding delete_media
delete_media-cases in_use now id shelf =
    elim (Option-cases (find (λ (r : MediaRow). r.id == id) shelf.media)) [
      | inl e ↦ inl (rw (delete_media, e) refl)
      | inr (row, e) ↦ elim (Bool-cases (in_use id)) [
        | inl u ↦ inl (rw (delete_media, e, u) refl)
        | inr u ↦ inr (row, e, rw (delete_media, e, u) refl)
      ]
    ]

delete_media-IsAccounted :
    (P : String → Type 0) (in_use : Uuid → Bool) (now : ℕ) (id : Uuid) (shelf : Shelf)
    → IsAccountedBut P shelf
    → IsAccountedBut P (delete_media in_use now id shelf).1
delete_media-IsAccounted P in_use now id shelf h = elim (delete_media-cases in_use now id shelf) [
  | inl e ↦ subst (IsAccountedBut P) (sym e) h
  | inr (row, e, same) ↦
      subst (IsAccountedBut P) (sym same) (deleted_row-IsAccounted P now id row shelf e h)
]

is_listed-forget :
    (key gone : String) (os : List MediaOrphanRow)
    → str_eq gone key ≡ false
    → is_listed key os ≡ true
    → is_listed key (forget_orphan gone os) ≡ true
is_listed-forget key gone os d h =
    let p = λ (o : MediaOrphanRow). str_eq key o.storage_key in
    let (o, m, e) = any-In p os h in
    let same : key ≡ o.storage_key = str_eq_eq key o.storage_key e in
    let other : str_eq gone o.storage_key ≡ false = rw (sym same) d in
    In-any p (filter-In (λ (x : MediaOrphanRow). not (str_eq gone x.storage_key)) m (rw other refl))
      e

is_listed-failure :
    (now : ℕ) (key failing reason : String) (os : List MediaOrphanRow)
    → is_listed key (record_orphan_failure now failing reason os) ≡ is_listed key os
unfolding record_orphan_failure
is_listed-failure now key failing reason [] = refl
is_listed-failure now key failing reason (o ∷ os) =
    elim (Bool-cases (str_eq failing o.storage_key)) [
      | inl e ↦ rw (e, is_listed-failure now key failing reason os) refl
      | inr e ↦ rw (e, is_listed-failure now key failing reason os) refl
    ]

In-without :
    (gone : String) {key : String} {objects : List String}
    → In key (without gone objects)
    → In key objects × (str_eq gone key ≡ false)
In-without gone m = let (a, e) = In-filter (λ k. not (str_eq gone k)) _ m in (a, ground (arith, e))

cannot_both : (gone key : String) → gone ≡ key → str_eq gone key ≡ false → ⊥
cannot_both gone key same e =
    let yes : str_eq gone key ≡ true = rw (sym same) (str_eq_refl gone) in ground (arith, yes, e)

-- What is on the list when a key is taken off it.
forgotten_one :
    (P : String → Type 0) (gone key : String) (shelf : Shelf)
    → (gone ≡ key → P key)
    → (is_owned key shelf.media ≡ true) ⊎ ((is_listed key shelf.orphans ≡ true) ⊎ P key)
    → (is_owned key shelf.media ≡ true)
      ⊎ ((is_listed key (forget_orphan gone shelf.orphans) ≡ true) ⊎ P key)
forgotten_one P gone key shelf q (inl o) = inl o
forgotten_one P gone key shelf q (inr (inr p)) = inr (inr p)
forgotten_one P gone key shelf q (inr (inl l)) = elim (Bool-cases (str_eq gone key)) [
  | inl e ↦ inr (inr (q (str_eq_eq gone key e)))
  | inr e ↦ inr (inl (is_listed-forget key gone shelf.orphans e l))
]

sweep_one-IsAccounted :
    (P : String → Type 0) (now : ℕ) (gone : String) (answer : Answer) (shelf : Shelf)
    → (answer ≡ returned false → P gone)
    → IsAccountedBut P shelf
    → IsAccountedBut P (sweep_one now gone answer shelf)
unfolding sweep_one
sweep_one-IsAccounted P now gone (returned true) shelf d h = λ key m.
    let (a, e) = In-without gone m in
    forgotten_one P gone key shelf (λ same. absurd (cannot_both gone key same e)) (h key a)
sweep_one-IsAccounted P now gone (returned false) shelf d h =
    λ key m. forgotten_one P gone key shelf (λ same. subst P same (d refl)) (h key m)
sweep_one-IsAccounted P now gone (thrown reason true) shelf d h =
    λ key m. rw (is_listed-failure now key gone reason shelf.orphans) (h key (In-without gone m).0)
sweep_one-IsAccounted P now gone (thrown reason false) shelf d h =
    λ key m. rw (is_listed-failure now key gone reason shelf.orphans) (h key m)

sweep_each-IsAccounted :
    (P : String → Type 0) (remove : String → Answer) (now : ℕ) (os : List MediaOrphanRow)
    (shelf : Shelf)
    → ((key : String) → remove key ≡ returned false → P key)
    → IsAccountedBut P shelf
    → IsAccountedBut P (sweep_each remove now os shelf).1
unfolding sweep_each
sweep_each-IsAccounted P remove now [] shelf d h = h
sweep_each-IsAccounted P remove now (o ∷ os) shelf d h =
    let key = o.storage_key in
    sweep_each-IsAccounted P remove now os (sweep_one now key (remove key) shelf) d
      (sweep_one-IsAccounted P now key (remove key) shelf (d key) h)

sweep_orphans-IsAccounted :
    (P : String → Type 0) (remove : String → Answer) (now : ℕ) (shelf : Shelf)
    → ((key : String) → remove key ≡ returned false → P key)
    → IsAccountedBut P shelf
    → IsAccountedBut P (sweep_orphans remove now shelf).1
unfolding sweep_orphans
sweep_orphans-IsAccounted P remove now shelf d h =
    sweep_each-IsAccounted P remove now (list_orphans orphan_batch shelf.orphans) shelf d h

step-deletes :
    (P : String → Type 0) (in_use : Uuid → Bool) (now : ℕ) (id : Uuid) (shelf : Shelf)
    → IsAccountedBut P shelf
    → IsAccountedBut P (step shelf (deletes in_use now id))
unfolding step
step-deletes P in_use now id shelf h = delete_media-IsAccounted P in_use now id shelf h

step-sweeps :
    (P : String → Type 0) (remove : String → Answer) (now : ℕ) (shelf : Shelf)
    → ((key : String) → remove key ≡ returned false → P key)
    → IsAccountedBut P shelf
    → IsAccountedBut P (step shelf (sweeps remove now))
unfolding step
step-sweeps P remove now shelf d h = sweep_orphans-IsAccounted P remove now shelf d h

run-IsAccountedBut :
    (P : String → Type 0) (steps : List Step) (shelf : Shelf)
    → ((key : String) → IsMistaken key steps → P key)
    → IsAccountedBut P shelf
    → IsAccountedBut P (run shelf steps)
unfolding run
run-IsAccountedBut P [] shelf d h = h
run-IsAccountedBut P (deletes in_use now id ∷ steps) shelf d h =
    run-IsAccountedBut P steps (step shelf (deletes in_use now id)) d
      (step-deletes P in_use now id shelf h)
run-IsAccountedBut P (sweeps remove now ∷ steps) shelf d h =
    run-IsAccountedBut P steps (step shelf (sweeps remove now)) (λ key q. d key (inr q))
      (step-sweeps P remove now shelf (λ key q. d key (inl q)) h)

-- Whatever rows are deleted, whatever passes the sweep makes and whatever the store answers: an
-- object that is in the store belongs to a row, is on the list, or is one whose removal a pass
-- takes for done though the call left the object there, where each belonged to a row or was on
-- the list at the start.
pub run-IsAccounted :
    (steps : List Step) (shelf : Shelf)
    → IsAccounted shelf
    → (key : String) → In key (run shelf steps).objects
    → (is_owned key (run shelf steps).media ≡ true)
      ⊎ ((is_listed key (run shelf steps).orphans ≡ true) ⊎ IsMistaken key steps)
run-IsAccounted steps shelf h =
    run-IsAccountedBut (λ key. IsMistaken key steps) steps shelf (λ key q. q)
      λ key m. elim (h key m) [ inl o ↦ inl o | inr l ↦ inr (inl l) ]
