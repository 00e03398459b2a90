-- ===== src/Content/Database.antt =====
-- The constraints that packages/db/src/schema/contents.ts and content-media.ts declare, and what
-- a write relies on Postgres for. Which of several violated constraints a statement reports is
-- Postgres's choice, so `violated` is a parameter: it must report one that is violated, and must
-- report nothing only where all hold.
use presslabz.Base.{
  ◌≡◌, Bool, true, false, not, ◌&&◌, Option, none, some, List, [], ◌∷◌, str_eq, ◌==◌, any, all,
  find, find-In, find-none, In, here, there, arith,
}
use presslabz.Access.Ownership.{Uuid}
use presslabz.Content.Rows.{ContentRow, Source, block, meta, Db}

pub data Constraint : Type 0 where
  contents_pkey contents_group_locale_uq contents_type_locale_slug_uq : Constraint
  contents_translation_group_fk contents_parent_fk contents_parent_not_self : Constraint
  translation_groups_pkey content_revisions_pkey content_revisions_content_fk : Constraint
  content_media_pkey content_media_content_fk content_media_media_fk : Constraint

-- No two rows of a table are the same as far as `same` compares them.
abbrev pub unique_by {ℓ} : {A : Type ℓ} → (A → A → Bool) → List A → Bool
unique_by same [] = true
unique_by same (x ∷ xs) = not (any (same x) xs) && unique_by same xs

abbrev pub same_source : Source → Source → Bool
same_source block block = true
same_source meta meta = true
same_source _ _ = false

-- The composite foreign key to the parent: null, or a row of the same type and language.
abbrev pub parent_holds : List ContentRow → ContentRow → Option Uuid → Bool
parent_holds rows row none = true
parent_holds rows row (some p) =
    any (λ r. r.id == p && (str_eq r.type row.type && str_eq r.locale row.locale)) rows

abbrev pub not_self : Uuid → Option Uuid → Bool
not_self id none = true
not_self id (some p) = not (p == id)

unfoldable pub satisfied : Constraint → Db → Bool
satisfied contents_pkey db = unique_by (λ a b. a.id == b.id) db.contents
satisfied contents_group_locale_uq db =
    unique_by (λ a b. a.translation_group_id == b.translation_group_id && str_eq a.locale b.locale)
      db.contents
satisfied contents_type_locale_slug_uq db =
    unique_by (λ a b. str_eq a.type b.type && (str_eq a.locale b.locale && str_eq a.slug b.slug))
      db.contents
satisfied contents_translation_group_fk db =
    all (λ r. any (λ g. g.id == r.translation_group_id && str_eq g.type r.type) db.groups)
      db.contents
satisfied contents_parent_fk db = all (λ r. parent_holds db.contents r r.parent_id) db.contents
satisfied contents_parent_not_self db = all (λ r. not_self r.id r.parent_id) db.contents
satisfied translation_groups_pkey db = unique_by (λ a b. a.id == b.id) db.groups
satisfied content_revisions_pkey db = unique_by (λ a b. a.id == b.id) db.revisions
satisfied content_revisions_content_fk db =
    all (λ v. any (λ r. r.id == v.content_id) db.contents) db.revisions
satisfied content_media_pkey db =
    unique_by
      (λ a b.
        a.content_id == b.content_id && (a.media_id == b.media_id && same_source a.source b.source))
      db.links
satisfied content_media_content_fk db =
    all (λ l. any (λ r. r.id == l.content_id) db.contents) db.links
satisfied content_media_media_fk db = all (λ l. any (λ m. m == l.media_id) db.media) db.links

-- What the writes rely on: the constraints are checked when a statement ends (none of them is
-- deferrable), and a statement that violates one fails with its name.
pub record Postgres : Type 0 where
  pub violated : Db → Option Constraint
  pub violated_sound : (db : Db) (c : Constraint) → violated db ≡ some c → satisfied c db ≡ false
  pub violated_complete : (db : Db) (c : Constraint) → violated db ≡ none → satisfied c db ≡ true

-- One such database: the first violated constraint of this list is reported.
abbrev pub constraints : List Constraint
constraints =
    contents_pkey ∷ contents_group_locale_uq ∷ contents_type_locale_slug_uq
    ∷ contents_translation_group_fk ∷ contents_parent_fk ∷ contents_parent_not_self
    ∷ translation_groups_pkey ∷ content_revisions_pkey ∷ content_revisions_content_fk
    ∷ content_media_pkey ∷ content_media_content_fk ∷ content_media_media_fk ∷ []

In-constraints : (c : Constraint) → In c constraints
In-constraints contents_pkey = here
In-constraints contents_group_locale_uq = there here
In-constraints contents_type_locale_slug_uq = there (there here)
In-constraints contents_translation_group_fk = there (there (there here))
In-constraints contents_parent_fk = there (there (there (there here)))
In-constraints contents_parent_not_self = there (there (there (there (there here))))
In-constraints translation_groups_pkey = there (there (there (there (there (there here)))))
In-constraints content_revisions_pkey = there (there (there (there (there (there (there here))))))
In-constraints content_revisions_content_fk =
    there (there (there (there (there (there (there (there here)))))))
In-constraints content_media_pkey =
    there (there (there (there (there (there (there (there (there here))))))))
In-constraints content_media_content_fk =
    there (there (there (there (there (there (there (there (there (there here)))))))))
In-constraints content_media_media_fk =
    there (there (there (there (there (there (there (there (there (there (there here))))))))))

abbrev pub first_violated : Db → Option Constraint
first_violated db = find (λ c. not (satisfied c db)) constraints

pub first_violated_sound :
    (db : Db) (c : Constraint) → first_violated db ≡ some c → satisfied c db ≡ false
first_violated_sound db c e = ground (arith, (find-In (λ c. not (satisfied c db)) constraints e).1)

pub first_violated_complete :
    (db : Db) (c : Constraint) → first_violated db ≡ none → satisfied c db ≡ true
first_violated_complete db c e =
    ground (arith, find-none (λ c. not (satisfied c db)) e (In-constraints c))

abbrev pub listed_order : Postgres
listed_order = record {
  violated = first_violated;
  violated_sound = first_violated_sound;
  violated_complete = first_violated_complete;
}
