-- ===== src/Content/Routes/Writes.antt =====
-- apps/api/src/content/routes.ts: what a request that was answered has done, and what one that was
-- refused has not.
use presslabz.Base.{
  ℕ, ◌≡◌, refl, sym, ◌∙◌, ap, inl, inr, true, Option, none, some, Bool-cases, Option-cases, arith,
}
use presslabz.Access.Ownership.{Uuid, Actor}
use presslabz.Content.Rows.{
  ContentRow, ContentState, RawState, Patch, Nullable, undefined, null, value,
  ContentConflictReason, Db,
}
use presslabz.Content.Database.{Postgres}
use presslabz.Content.Transaction.{
  Result-cases, ok, WriteError, conflict, forbidden, media_missing, invalid_state, violation,
  no_row,
}
use presslabz.Content.Tree.{find_row}
use presslabz.Content.Schema.{ContentSchema, parse_state, parsed_state, fits_fields, cleared}
use presslabz.Content.References.{MediaIn}
use presslabz.Content.History.{Draws}
use presslabz.Content.Write.Update.{update_content}
use presslabz.Content.Routes.{
  sent, not_found, unprocessable, conflicting, is_unprocessable, reply_for_write_error,
  PatchRequest, Outcome, is_published, stamp_publication, update_options, reply_update,
  patch_content,
}

-- A request of which every part is well formed.
abbrev pub well_formed : Uuid → ℕ → Patch → PatchRequest
well_formed id version patch = record {
  id = some id;
  expected_version = some version;
  fields = some patch;
}

pub parse_state-fields :
    (schema : ContentSchema) (raw : RawState) (next : ContentState)
    → parse_state schema raw ≡ some next
    → (next.status ≡ raw.status) × (next.published_at ≡ cleared raw.published_at)
unfolding parse_state
parse_state-fields schema raw next e = elim (Option-cases (schema.parse_meta raw.meta)) [
  | inl bad ↦ absurd (ground (arith, bad, e))
  | inr (values, good) ↦ elim (Bool-cases (fits_fields schema raw)) [
    | inr bad ↦ absurd (ground (arith, good, bad, e))
    | inl fits ↦
        let eq : next ≡ parsed_state schema raw values = ground (arith, good, fits, e) in
        (ap (λ (s : ContentState). s.status) eq, ap (λ (s : ContentState). s.published_at) eq)
  ]
]

-- The date that a document gets when it enters `published`: the moment of the request where the
-- merge leaves it undefined, none where it is null, and else the one that is there.
abbrev pub date_on_entry : ℕ → Nullable ℕ → Option ℕ
date_on_entry now undefined = some now
date_on_entry now null = none
date_on_entry now (value d) = some d

pub stamp_publication-date :
    (now : ℕ) (raw : RawState) (p : Nullable ℕ)
    → raw.published_at ≡ p
    → is_published raw.status ≡ true
    → cleared (stamp_publication now raw).published_at ≡ date_on_entry now p
unfolding stamp_publication
stamp_publication-date now raw undefined e s = rw e (rw s refl)
stamp_publication-date now raw null e s = rw e refl
stamp_publication-date now raw (value d) e s = rw e refl

pub stamp_publication-status :
    (now : ℕ) (raw : RawState) (p : Nullable ℕ)
    → raw.published_at ≡ p
    → (stamp_publication now raw).status ≡ raw.status
unfolding stamp_publication
stamp_publication-status now raw undefined e = elim (Bool-cases (is_published raw.status)) [
  | inl s ↦ rw e (rw s refl)
  | inr s ↦ rw e (rw s refl)
]
stamp_publication-status now raw null e = rw e refl
stamp_publication-status now raw (value d) e = rw e refl

unprocessable_sent :
    (reason : ContentConflictReason) (row : ContentRow) → unprocessable reason ≡ sent row → ⊥
unprocessable_sent reason row e = cc

conflicting_sent :
    (reason : ContentConflictReason) (row : ContentRow) → conflicting reason ≡ sent row → ⊥
conflicting_sent reason row e = cc

not_sent : (k : WriteError) (row : ContentRow) → reply_for_write_error k ≡ sent row → ⊥
not_sent (conflict reason) row e = elim (Bool-cases (is_unprocessable reason)) [
  | inl h ↦ absurd (unprocessable_sent reason row (rw h at e))
  | inr h ↦ absurd (conflicting_sent reason row (rw h at e))
]
not_sent (forbidden reason) row e = cc
not_sent (media_missing references) row e = cc
not_sent invalid_state row e = cc
not_sent (violation constraint) row e = cc
not_sent no_row row e = cc

not_found_sent : (row : ContentRow) → not_found ≡ sent row → ⊥
not_found_sent row e = cc

sent_same : (a b : ContentRow) → sent a ≡ sent b → a ≡ b
sent_same a b e = cc

module _ (pg : Postgres) (draws : Draws) (media_in : MediaIn) (actor : Actor) (now : ℕ)
    (type : ContentSchema) (id : Uuid) (version : ℕ) (patch : Patch) (db : Db) where
  abbrev pub outcome : Outcome
  outcome = patch_content pg draws media_in actor now (some type) (well_formed id version patch) db

  pub patched :
      outcome
      ≡ reply_update db (find_row id db.contents) (
          update_content pg draws type media_in id patch (update_options type actor now version) db)
  unfolding patch_content
  patched = refl

  -- A request that was answered with a row has written it.
  pub sent-written :
      (row : ContentRow)
      → outcome.reply ≡ sent row
      → update_content pg draws type media_in id patch (update_options type actor now version) db
        ≡ ok (some row, outcome.db)
  sent-written row e =
      elim (Result-cases (
        update_content pg draws type media_in id patch (update_options type actor now version)
          db)) [
            | inr (k, bad) ↦ absurd (
                not_sent k row (
                  sym (
                    ap (λ (o : Outcome). o.reply)
                      (patched ∙ ap (reply_update db (find_row id db.contents)) bad))
                  ∙ e))
            | inl ((none, db'), none_there) ↦ absurd (
                not_found_sent row (
                  sym (
                    ap (λ (o : Outcome). o.reply)
                      (patched ∙ ap (reply_update db (find_row id db.contents)) none_there))
                  ∙ e))
            | inl ((some r, db'), done) ↦
                let there_now = patched ∙ ap (reply_update db (find_row id db.contents)) done in
                let same : r ≡ row =
                  sent_same r row (sym (ap (λ (o : Outcome). o.reply) there_now) ∙ e) in
                done ∙ (λ i. ok (some (same i), (sym (ap (λ (o : Outcome). o.db) there_now)) i))
          ]
