-- ===== src/Content/Write/Created.antt =====
-- What a creation that returned has done: one new row, in a group that it was let into, under a
-- parent that takes it.
pub mod Forest
use presslabz.Base.{
  ◌≡◌, ◌≢◌, ◌↔◌, refl, ◌==◌, ==_iff, str_eq_refl, str_eq_eq, In, here, there, In-any, sym, ap,
  subst, ◌∙◌, Bool, true, false, Option, none, some, List, [], ◌∷◌, ◌++◌, String, str_eq, arith,
  Bool-cases, Option-cases, inl, inr, any,
}
use presslabz.Access.Ownership.{Uuid}
use presslabz.Content.Rows.{TranslationGroup, ContentRow, Db}
use presslabz.Content.Database.{Postgres, satisfied, contents_pkey}
use presslabz.Content.Transaction.{ok, statement, >>=-eq-ok, ◌>>=◌, ◌>>◌, pure}
use presslabz.Content.Tree.{assert_usable_parent}
use presslabz.Content.History.{Draws}
use presslabz.Content.Frame.{statement-eq-ok, statement-satisfied}
use presslabz.Content.Write.Create.{
  GroupChoice, open_group, join_group, CreateContentInput, find_group, members_of, check_parent,
  row_of, open_new_group, join_existing_group, group_for, insert_content,
}

-- The first of the groups with the id.
pub data IsFirst (id : Uuid) (group : TranslationGroup) : List TranslationGroup → Type 0 where
  at_head : {gs : List TranslationGroup} → group.id ≡ id → IsFirst id group (group ∷ gs)
  in_tail :
      {g : TranslationGroup} {gs : List TranslationGroup}
      → g.id ≢ id
      → IsFirst id group gs
      → IsFirst id group (g ∷ gs)

-- `members` are the documents of the group, all of them, in the order of the table.
pub data AreMembers (group_id : Uuid) : List ContentRow → List ContentRow → Type 0 where
  no_rows : AreMembers group_id [] []
  takes :
      {r : ContentRow} {rows members : List ContentRow}
      → r.translation_group_id ≡ group_id
      → AreMembers group_id rows members
      → AreMembers group_id (r ∷ rows) (r ∷ members)
  passes :
      {r : ContentRow} {rows members : List ContentRow}
      → r.translation_group_id ≢ group_id
      → AreMembers group_id rows members
      → AreMembers group_id (r ∷ rows) members

-- What a translation joins: a group of its type, of which the caller may join the members as they
-- stand, and none of them in its language.
pub record IsJoinable (type locale : String) (authorize_join : List ContentRow → Bool) (db : Db)
    (group_id : Uuid) : Type 0 where
  pub group : TranslationGroup
  pub there : IsFirst group_id group db.groups
  pub same_type : group.type ≡ type
  pub members : List ContentRow
  pub all_of_them : AreMembers group_id db.contents members
  pub allowed : authorize_join members ≡ true
  pub free : (m : ContentRow) → In m members → m.locale ≢ locale

find_group-IsFirst :
    (id : Uuid) (group : TranslationGroup) (gs : List TranslationGroup)
    → find_group id gs ≡ some group
    → IsFirst id group gs
find_group-IsFirst id group [] e = absurd (cc)
find_group-IsFirst id group (g ∷ gs) e = elim (Bool-cases (g.id == id)) [
  | inl h ↦
      let same : some g ≡ some group = rw h at e in
      let eq : g ≡ group = cc in
      subst (λ x. IsFirst id x (g ∷ gs)) eq (at_head ((==_iff g.id id).0 h))
  | inr h ↦ in_tail (λ eq. ground (arith, h, eq)) (find_group-IsFirst id group gs (rw h at e))
]

IsFirst-find_group :
    {id : Uuid} {group : TranslationGroup} {gs : List TranslationGroup}
    → IsFirst id group gs
    → find_group id gs ≡ some group
IsFirst-find_group {id} {group} (at_head e) =
    let same : group.id == id ≡ true = ground (arith, e) in rw same refl
IsFirst-find_group {id} (in_tail {g = g} other rest) = elim (Bool-cases (g.id == id)) [
  | inl h ↦ absurd (other ((==_iff g.id id).0 h))
  | inr h ↦ rw h (IsFirst-find_group rest)
]

members_of-AreMembers :
    (group_id : Uuid) (rows : List ContentRow) → AreMembers group_id rows (members_of group_id rows)
members_of-AreMembers group_id [] = no_rows
members_of-AreMembers group_id (r ∷ rows) = elim (Bool-cases (r.translation_group_id == group_id)) [
  | inl h ↦
      rw h
        (takes ((==_iff r.translation_group_id group_id).0 h) (members_of-AreMembers group_id rows))
  | inr h ↦ rw h (passes (λ eq. ground (arith, h, eq)) (members_of-AreMembers group_id rows))
]

AreMembers-members_of :
    {group_id : Uuid} {rows members : List ContentRow}
    → AreMembers group_id rows members
    → members ≡ members_of group_id rows
AreMembers-members_of no_rows = refl
AreMembers-members_of {group_id} (takes {r = r} e rest) =
    let same : r.translation_group_id == group_id ≡ true = ground (arith, e) in
    rw same (ap (λ ms. r ∷ ms) (AreMembers-members_of rest))
AreMembers-members_of {group_id} (passes {r = r} other rest) =
    elim (Bool-cases (r.translation_group_id == group_id)) [
      | inl h ↦ absurd (other ((==_iff r.translation_group_id group_id).0 h))
      | inr h ↦ rw h (AreMembers-members_of rest)
    ]

-- The tests that the code makes one after the other.
clash : false ≡ true → ⊥
clash e = cc

record CanJoin (type locale : String) (authorize_join : List ContentRow → Bool) (db : Db)
    (group_id : Uuid) : Type 0 where
  pub group : TranslationGroup
  pub there : find_group group_id db.groups ≡ some group
  pub same_type : str_eq group.type type ≡ true
  pub allowed : authorize_join (members_of group_id db.contents) ≡ true
  pub free : any (λ m. str_eq m.locale locale) (members_of group_id db.contents) ≡ false

module _ (pg : Postgres) (draws : Draws) (type : String) where
  join_existing_group-ok :
      (group_id : Uuid) (authorize_join : List ContentRow → Bool) (locale : String) (db : Db)
      {g : Uuid} {db' : Db}
      → join_existing_group pg draws type group_id authorize_join locale db ≡ ok (g, db')
      → CanJoin type locale authorize_join db group_id × (g ≡ group_id) × (db' ≡ db)
  unfolding join_existing_group
  join_existing_group-ok group_id authorize_join locale db {g = g} {db' = db'} e =
      elim (Option-cases (find_group group_id db.groups)) [
        | inl gone ↦ absurd (ground (arith, gone, e))
        | inr (group, listed_at) ↦ elim (Bool-cases (str_eq group.type type)) [
          | inr other ↦ absurd (ground (arith, listed_at, other, e))
          | inl same_type ↦ elim (Bool-cases (authorize_join (members_of group_id db.contents))) [
            | inr refused ↦ absurd (ground (arith, listed_at, same_type, refused, e))
            | inl allowed ↦
                elim (Bool-cases
                  (any (λ m. str_eq m.locale locale) (members_of group_id db.contents))) [
                    | inl taken ↦ absurd (ground (arith, listed_at, same_type, allowed, taken, e))
                    | inr free ↦ (
                      record {
                        group = group;
                        there = listed_at;
                        same_type = same_type;
                        allowed = allowed;
                        free = free;
                      },
                      ground (arith, listed_at, same_type, allowed, free, e),
                      ground (arith, listed_at, same_type, allowed, free, e),
                    )
                  ]
          ]
        ]
      ]

  CanJoin-ok :
      (group_id : Uuid) (authorize_join : List ContentRow → Bool) (locale : String) (db : Db)
      → CanJoin type locale authorize_join db group_id
      → join_existing_group pg draws type group_id authorize_join locale db ≡ ok (group_id, db)
  unfolding join_existing_group
  CanJoin-ok group_id authorize_join locale db j =
      ground (arith, j.there, j.same_type, j.allowed, j.free)

  IsJoinable-CanJoin :
      (group_id : Uuid) (authorize_join : List ContentRow → Bool) (locale : String) (db : Db)
      → IsJoinable type locale authorize_join db group_id
      → CanJoin type locale authorize_join db group_id
  IsJoinable-CanJoin group_id authorize_join locale db j =
      let same = AreMembers-members_of j.all_of_them in
      record {
        group = j.group;
        there = IsFirst-find_group j.there;
        same_type = rw (j.same_type) (str_eq_refl type);
        allowed = subst (λ ms. authorize_join ms ≡ true) same j.allowed;
        free =
            subst (λ ms. any (λ m. str_eq m.locale locale) ms ≡ false) same
              (none_taken j.members j.free);
      }
    where
      none_taken :
          (ms : List ContentRow)
          → ((m : ContentRow) → In m ms → m.locale ≢ locale)
          → any (λ m. str_eq m.locale locale) ms ≡ false
      none_taken [] h = refl
      none_taken (m ∷ ms) h = elim (Bool-cases (str_eq m.locale locale)) [
        | inl e ↦ absurd (h m here (str_eq_eq m.locale locale e))
        | inr e ↦ rw e (none_taken ms (λ x n. h x (there n)))
      ]

  CanJoin-IsJoinable :
      (group_id : Uuid) (authorize_join : List ContentRow → Bool) (locale : String) (db : Db)
      → CanJoin type locale authorize_join db group_id
      → IsJoinable type locale authorize_join db group_id
  CanJoin-IsJoinable group_id authorize_join locale db j = record {
    group = j.group;
    there = find_group-IsFirst group_id j.group db.groups j.there;
    same_type = str_eq_eq j.group.type type j.same_type;
    members = members_of group_id db.contents;
    all_of_them = members_of-AreMembers group_id db.contents;
    allowed = j.allowed;
    free = λ m n same. clash (
        sym j.free
        ∙ In-any (λ (r : ContentRow). str_eq r.locale locale) n (rw same (str_eq_refl locale)));
  }

  -- A translation joins a group, and leaves the tables as they were, exactly if the group is
  -- there, is of the type, lets the caller in as its members stand, and has no member in the
  -- language.
  pub join_existing_group_iff :
      (group_id : Uuid) (authorize_join : List ContentRow → Bool) (locale : String) (db : Db)
      → (join_existing_group pg draws type group_id authorize_join locale db ≡ ok (group_id, db))
        ↔ IsJoinable type locale authorize_join db group_id
  join_existing_group_iff group_id authorize_join locale db = (
    λ e.
        CanJoin-IsJoinable group_id authorize_join locale db
          ((join_existing_group-ok group_id authorize_join locale db e).0),
    λ j.
        CanJoin-ok group_id authorize_join locale db
          (IsJoinable-CanJoin group_id authorize_join locale db j),
  )

  open_new_group-contents :
      (db : Db) {g : Uuid} {db' : Db}
      → open_new_group pg draws type db ≡ ok (g, db')
      → db'.contents ≡ db.contents
  unfolding open_new_group
  open_new_group-contents db {g = g} {db' = db'} e =
      let f : Db → Db = λ t. record t {
        groups = t.groups ++ record { id = draws.random_uuid db; type = type } ∷ [];
      } in
      let (_, db₁, one, last) =
        >>=-eq-ok (statement pg f) (λ _. pure (draws.random_uuid db)) db e in
      let same : db₁ ≡ db' = ground (arith, last) in
      ap (λ (d : Db). d.contents) (sym same ∙ statement-eq-ok pg f db one)

  pub group_for-contents :
      (choice : GroupChoice) (locale : String) (db : Db) {g : Uuid} {db' : Db}
      → group_for pg draws type choice locale db ≡ ok (g, db')
      → db'.contents ≡ db.contents
  group_for-contents open_group locale db e = open_new_group-contents db e
  group_for-contents (join_group group_id authorize_join) locale db e =
      ap (λ (d : Db). d.contents) (join_existing_group-ok group_id authorize_join locale db e).2

  pub check_parent-ok :
      (q : Option Uuid) (locale : String) (db : Db) {u : Unit} {db' : Db}
      → check_parent q type locale db ≡ ok (u, db')
      → (db' ≡ db)
        × ((p : Uuid)
            → q ≡ some p
            → assert_usable_parent db.contents
                (record { child_id = none; parent_id = p; type = type; locale = locale })
              ≡ none)
  check_parent-ok none locale db e = (ground arith, λ p h. absurd (ground arith))
  check_parent-ok (some r) locale db e =
      elim (Option-cases (
        assert_usable_parent db.contents
          (record { child_id = none; parent_id = r; type = type; locale = locale }))) [
            | inl fine ↦ (ground (arith, fine, e), λ p h. ground (arith, h, fine))
            | inr (c, bad) ↦ absurd (ground (arith, bad, e))
          ]

  pub insert_content-ok :
      (input : CreateContentInput) (group_id : Uuid) (db : Db) {row : ContentRow} {db' : Db}
      → insert_content pg draws type input group_id db ≡ ok (row, db')
      → (row
          ≡ row_of
              (draws.random_uuid db)
              type
              input.locale
              group_id
              input.author_id
              input.state
              draws.transaction_now)
        × (db'.contents ≡ db.contents ++ row ∷ [])
        × (satisfied contents_pkey db' ≡ true)
  unfolding insert_content
  insert_content-ok input group_id db {row = row} {db' = db'} e =
      let new =
        row_of (draws.random_uuid db) type input.locale group_id input.author_id input.state
          draws.transaction_now in
      let f : Db → Db = λ t. record t { contents = t.contents ++ new ∷ [] } in
      let (_, db₁, one, last) = >>=-eq-ok (statement pg f) (λ _. pure new) db e in
      let same : db₁ ≡ db' = ground (arith, last) in
      let eq : new ≡ row = ground (arith, last) in
      (
        sym eq,
        ap (λ (d : Db). d.contents) (sym same ∙ statement-eq-ok pg f db one)
            ∙ ap (λ r. db.contents ++ r ∷ []) eq,
        subst (λ d. satisfied contents_pkey d ≡ true) same
            (statement-satisfied pg f db contents_pkey one),
      )
